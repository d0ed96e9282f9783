-- ===== src/Frame/Reader.antt =====
-- `ReadFrame`: a frame is read from a buffered stream, which is the list of the bytes still to
-- come and the error `ending` that the connection gives behind them (end of file, a timeout).
use termwire.Common.{
  ℕ, Bool, true, false, List, [], ◌∷◌, ltb, ◌==◌, ◌&&◌, if◌then◌else◌, length, get_or, take, drop,
  String,
}
use termwire.Frame.{Frame, stx, etx, be16, be32, is_valid}

pub data IoError : Type 0 where
  eof unexpected_eof timeout : IoError
  failed : String → IoError

pub data Error : Type 0 where
  io : IoError → Error
  invalid_magic : List ℕ → Error
  invalid_etx : ℕ → Error
  crc_mismatch : Error

pub data Result (A : Type 0) : Type 0 where
  ok : A → Result A
  err : Error → Result A

-- What is read is gone, also when the read fails.
abbrev pub Read : Type 0 → Type 0
Read A = List ℕ → Result A × List ℕ

abbrev pub pure : {A : Type 0} → A → Read A
pure a s = (ok a, s)

abbrev pub continue : {A B : Type 0} → Result A × List ℕ → (A → Read B) → Result B × List ℕ
continue (ok a, s) f = f a s
continue (err e, s) f = (err e, s)

infixl 5 ◌>>=◌ ◌>>◌
abbrev pub ◌>>=◌ : {A B : Type 0} → Read A → (A → Read B) → Read B
◌>>=◌ m f s = continue (m s) f

abbrev pub ◌>>◌ : {B : Type 0} → Read (Unit {0}) → Read B → Read B
m >> k = m >>= λ _. k

abbrev pub check : Bool → Error → Read (Unit {0})
check true e s = (ok tt, s)
check false e s = (err e, s)

-- The error of `io.ReadFull` when some bytes came before the end.
abbrev pub cut_short : IoError → IoError
cut_short eof = unexpected_eof
cut_short e = e

-- The frame that is put together from the parts read.
unfoldable pub received : ℕ → ℕ → List ℕ → List ℕ → List ℕ → Frame
received version frame_type q payload c = record {
  version = version;
  frame_type = frame_type;
  sequence = be16 (get_or q 0 0) (get_or q 1 0);
  payload = payload;
  crc32 = be32 (get_or c 0 0) (get_or c 1 0) (get_or c 2 0) (get_or c 3 0);
}

module _ (ending : IoError) where
  -- `reader.ReadByte`
  unfoldable pub read_byte : Read ℕ
  read_byte [] = (err (io ending), [])
  read_byte (b ∷ s) = (ok b, s)

  -- `io.ReadFull` into a buffer of `n` bytes
  unfoldable pub read_full : ℕ → Read (List ℕ)
  read_full n s =
      if ltb (length s) n
      then (err (io (if length s == 0 then ending else cut_short ending)), [])
      else (ok (take n s), drop n s)

  -- The loop in front: bytes are dropped up to the first start byte.
  unfoldable pub skip_to_stx : Read (Unit {0})
  skip_to_stx [] = (err (io ending), [])
  skip_to_stx (b ∷ s) = if b == stx then (ok tt, s) else skip_to_stx s

  unfoldable pub read_payload : ℕ → Read (List ℕ)
  read_payload n = if ltb 0 n then read_full n else pure []

  unfoldable pub read_frame : Read Frame
  read_frame = do
    skip_to_stx
    m ← read_full 2
    check (get_or m 0 0 == b'T' && get_or m 1 0 == b'W') (invalid_magic m)
    version ← read_byte
    l ← read_full 2
    let payload_len = be16 (get_or l 0 0) (get_or l 1 0)
    frame_type ← read_byte
    q ← read_full 2
    flags ← read_byte
    payload ← read_payload payload_len
    c ← read_full 4
    last ← read_byte
    check (last == etx) (invalid_etx last)
    let frame = received version frame_type q payload c
    check (is_valid frame) crc_mismatch
    pure frame
