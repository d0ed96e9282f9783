-- ===== src/Frame.antt =====
-- The wire frame of protocol/protocol.go: building, checking, writing and parsing one. A byte is
-- a number below 256, `byte(x >> k)` is `x / 2 ^ k % 256`, and `|` of bytes shifted apart is their
-- sum. A slice access stands behind the code's length test, so the default of `get_or` is not read.
pub mod Reader
pub mod RoundTrip
pub mod Parse
pub mod Agreement
pub mod Corruption
pub mod ErrorText
pub mod Progress
mod Tests
use termwire.Common.{
  ℕ, ◌+◌, ◌*◌, ◌/◌, Bool, true, false, ◌||◌, Option, none, some, List, [], ◌∷◌, ◌++◌, ltb, ◌==◌,
  not, if◌then◌else◌, length, get_or, take, drop, u8,
}
use termwire.Crc32.{checksum_ieee}

abbrev pub protocol_version : ℕ
protocol_version = 1

abbrev pub stx : ℕ
stx = 0x02

abbrev pub etx : ℕ
etx = 0x03

-- "TW"
abbrev pub magic : List ℕ
magic = b'T' ∷ b'W' ∷ []

abbrev pub frame_type_ping : ℕ
frame_type_ping = 1

abbrev pub frame_type_pong : ℕ
frame_type_pong = 2

abbrev pub frame_type_data : ℕ
frame_type_data = 3

abbrev pub frame_type_close : ℕ
frame_type_close = 4

-- A nil payload and an empty one are the same list.
pub record Frame : Type 0 where
  pub version : ℕ
  pub frame_type : ℕ
  pub sequence : ℕ
  pub payload : List ℕ
  pub crc32 : ℕ

unfoldable pub calculate_crc32 : Frame → ℕ
calculate_crc32 m =
    checksum_ieee (m.version ∷ m.frame_type ∷ u8 (m.sequence / 256) ∷ u8 m.sequence ∷ m.payload)

unfoldable pub is_valid : Frame → Bool
is_valid m =
    if not (m.version == protocol_version)
    then false
    else if ltb m.frame_type frame_type_ping || ltb frame_type_close m.frame_type
    then false
    else if not (m.crc32 == calculate_crc32 m)
    then false
    else true

abbrev with_crc : Frame → Frame
with_crc m = record m { crc32 = calculate_crc32 m }

unfoldable pub new_frame : ℕ → ℕ → List ℕ → Frame
new_frame msg_type sequence payload = with_crc (record {
  version = protocol_version;
  frame_type = msg_type;
  sequence = sequence;
  payload = payload;
  crc32 = 0;
})

unfoldable pub calculate_length : ℕ → ℕ
calculate_length payload_len = 1 + 2 + 1 + 2 + 1 + 2 + 1 + payload_len + 4 + 1

-- The bytes in front of the payload, behind it, and the whole frame.
abbrev pub header : ℕ → Frame → List ℕ
header flags m =
    stx
    ∷ b'T'
    ∷ b'W'
    ∷ m.version
    ∷ u8 (length m.payload / 256)
    ∷ u8 (length m.payload)
    ∷ m.frame_type
    ∷ u8 (m.sequence / 256)
    ∷ u8 m.sequence
    ∷ flags
    ∷ []

abbrev pub crc_bytes : ℕ → List ℕ
crc_bytes c = u8 (c / 0x1000000) ∷ u8 (c / 0x10000) ∷ u8 (c / 0x100) ∷ u8 c ∷ []

abbrev pub wire : ℕ → Frame → List ℕ
wire flags m = header flags m ++ (m.payload ++ (crc_bytes m.crc32 ++ etx ∷ []))

-- The FLAGS byte is reserved, and written as 0.
unfoldable pub serialize : Frame → List ℕ
serialize m = wire 0 m

abbrev pub be16 : ℕ → ℕ → ℕ
be16 hi lo = hi * 256 + lo

abbrev pub be32 : ℕ → ℕ → ℕ → ℕ → ℕ
be32 a b c d = a * 0x1000000 + b * 0x10000 + c * 0x100 + d

-- The frame that ParseFrame builds from its data once its tests have passed.
abbrev pub parsed : List ℕ → ℕ → Frame
parsed bytes payload_len =
    let crc_start = 10 + payload_len in
    record {
      version = get_or bytes 3 0;
      frame_type = get_or bytes 6 0;
      sequence = be16 (get_or bytes 7 0) (get_or bytes 8 0);
      payload = take payload_len (drop 10 bytes);
      crc32 =
          be32 (get_or bytes crc_start 0) (get_or bytes (crc_start + 1) 0)
            (get_or bytes (crc_start + 2) 0) (get_or bytes (crc_start + 3) 0);
    }

unfoldable pub parse_frame : List ℕ → Option Frame
unfolding calculate_length
parse_frame bytes =
    let payload_len = be16 (get_or bytes 4 0) (get_or bytes 5 0) in
    let total_len = calculate_length payload_len in
    if ltb (length bytes) (calculate_length 0)
    then none
    else if not (get_or bytes 0 0 == stx)
        || (not (get_or bytes 1 0 == b'T') || not (get_or bytes 2 0 == b'W'))
    then none
    else if ltb (length bytes) total_len || not (get_or bytes (10 + payload_len + 4) 0 == etx)
    then none
    else some (parsed bytes payload_len)
