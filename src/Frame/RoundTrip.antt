-- ===== src/Frame/RoundTrip.antt =====
-- What is written is read back.
use termwire.Common.{
  Bool, false, if◌then◌else◌, ◌≤◌, ◌∙◌, ℕ, u8, ◌/◌, ◌^◌, ◌<◌, ◌≡◌, ◌≢◌, refl, true, List, [], ◌∷◌,
  ◌++◌, arith, append_assoc, length, length-append, All, IsByte, IsBytes, take-append, drop-append,
}
use termwire.Crc32.Laws.{checksum_ieee-lt}
use termwire.Frame.{
  Frame, wire, new_frame, crc_bytes, serialize, is_valid, stx, be16, be32, calculate_crc32,
}
use termwire.Frame.Reader.{
  IoError, err, crc_mismatch, check, pure, ◌>>◌, continue, received, ok, read_byte, read_full,
  skip_to_stx, read_payload, read_frame,
}

-- The widths of Go's types, and a payload whose length the LEN field can hold.
pub record IsFrame (f : Frame) : Type 0 where
  pub version_fits : IsByte f.version
  pub type_fits : IsByte f.frame_type
  pub sequence_fits : f.sequence < 2 ^ 16
  pub payload_fits : length f.payload < 2 ^ 16
  pub payload_bytes : IsBytes f.payload
  pub crc32_fits : f.crc32 < 2 ^ 32

pub be16_split : (n : ℕ) → n < 2 ^ 16 → be16 (u8 (n / 256)) (u8 n) ≡ n
be16_split n h = omega arith

pub be32_split :
    (n : ℕ) → n < 2 ^ 32 → be32 (u8 (n / 0x1000000)) (u8 (n / 0x10000)) (u8 (n / 0x100)) (u8 n) ≡ n
be32_split n h = omega arith

received_lem :
    (f : Frame)
    → IsFrame f
    → received f.version f.frame_type
        (u8 (f.sequence / 256) ∷ u8 f.sequence ∷ [])
        f.payload
        (crc_bytes f.crc32)
      ≡ f
unfolding received
received_lem f fits i = record {
  version = f.version;
  frame_type = f.frame_type;
  sequence = be16_split f.sequence fits.sequence_fits i;
  payload = f.payload;
  crc32 = be32_split f.crc32 fits.crc32_fits i;
}

check_lem :
    (b : Bool) (f : Frame) (s : List ℕ)
    → (check b crc_mismatch >> pure f) s ≡ (if b then ok f else err crc_mismatch, s)
check_lem true f s = refl
check_lem false f s = refl

-- A frame that the program builds, at a type of the protocol, is valid.
pub new_frame-is_valid : (t q : ℕ) (p : List ℕ) → 1 ≤ t → t ≤ 4 → is_valid (new_frame t q p) ≡ true
unfolding new_frame is_valid calculate_crc32
new_frame-is_valid t q p lo hi = ground arith

pub u8-lt : (n : ℕ) → IsByte (u8 n)
u8-lt n = omega arith

pub calculate_crc32-lt :
    (f : Frame)
    → IsByte f.version
    → IsByte f.frame_type
    → IsBytes f.payload
    → calculate_crc32 f < 2 ^ 32
unfolding calculate_crc32
calculate_crc32-lt f v t p = checksum_ieee-lt _ (v, (t, (u8-lt _, (u8-lt _, p))))

pub new_frame-IsFrame :
    (t q : ℕ) (p : List ℕ)
    → 1 ≤ t
    → t ≤ 4
    → q < 2 ^ 16
    → length p < 2 ^ 16
    → IsBytes p
    → IsFrame (new_frame t q p)
unfolding new_frame
new_frame-IsFrame t q p lo hi hq hl hp =
    let t_fits : IsByte t = omega arith in
    record {
      version_fits = omega arith;
      type_fits = t_fits;
      sequence_fits = hq;
      payload_fits = hl;
      payload_bytes = hp;
      crc32_fits = calculate_crc32-lt _ (omega arith) t_fits hp;
    }

module _ (ending : IoError) where
  skip_to_stx-append :
      (noise s : List ℕ)
      → All (λ b. b ≢ stx) noise
      → skip_to_stx ending (noise ++ stx ∷ s) ≡ (ok tt, s)
  unfolding skip_to_stx
  skip_to_stx-append [] s h = refl
  skip_to_stx-append (b ∷ noise) s h = ground (arith, skip_to_stx-append noise s h.1)

  read_full-append : (xs s : List ℕ) → read_full ending (length xs) (xs ++ s) ≡ (ok xs, s)
  unfolding read_full
  read_full-append xs s = ground (arith, take-append xs s, drop-append xs s, length-append xs s)

  read_payload-append : (xs s : List ℕ) → read_payload ending (length xs) (xs ++ s) ≡ (ok xs, s)
  unfolding read_payload
  read_payload-append [] s = refl
  read_payload-append (x ∷ xs) s = ground (arith, read_full-append (x ∷ xs) s)

  read_two : (a b : ℕ) (s : List ℕ) → read_full ending 2 (a ∷ b ∷ s) ≡ (ok (a ∷ b ∷ []), s)
  read_two a b s = read_full-append (a ∷ b ∷ []) s

  read_four :
      (a b c d : ℕ) (s : List ℕ)
      → read_full ending 4 (a ∷ b ∷ c ∷ d ∷ s) ≡ (ok (a ∷ b ∷ c ∷ d ∷ []), s)
  read_four a b c d s = read_full-append (a ∷ b ∷ c ∷ d ∷ []) s

  pub read_frame-wire :
      (flags : ℕ) (noise rest : List ℕ) (f : Frame)
      → All (λ b. b ≢ stx) noise
      → IsFrame f
      → read_frame ending (noise ++ (wire flags f ++ rest))
        ≡ (if is_valid f then ok f else err crc_mismatch, rest)
  unfolding read_frame read_byte
  read_frame-wire flags noise rest f lacks fits =
      simp
        (
          continue,
          append_assoc,
          skip_to_stx-append noise _ lacks,
          read_two,
          read_four,
          be16_split (length f.payload) fits.payload_fits,
          received_lem f fits,
          read_payload-append f.payload,
        )
        (check_lem (is_valid f) f rest)

  -- A frame of Go's widths is taken from its bytes past anything that holds no start byte: it is
  -- delivered if it is valid and refused as a mismatch if not, and what follows stays unread.
  pub read_frame-serialize :
      (noise rest : List ℕ) (f : Frame)
      → All (λ b. b ≢ stx) noise
      → IsFrame f
      → read_frame ending (noise ++ (serialize f ++ rest))
        ≡ (if is_valid f then ok f else err crc_mismatch, rest)
  unfolding serialize
  read_frame-serialize = read_frame-wire 0

  -- A frame that NewFrame builds from a type of the four, a sequence number and a payload of Go's
  -- widths, and that Serialize writes, is delivered by the reader unchanged, and what follows stays
  -- unread.
  pub read_frame-new_frame :
      (rest p : List ℕ) (t q : ℕ)
      → 1 ≤ t
      → t ≤ 4
      → q < 2 ^ 16
      → length p < 2 ^ 16
      → IsBytes p
      → read_frame ending (serialize (new_frame t q p) ++ rest) ≡ (ok (new_frame t q p), rest)
  read_frame-new_frame rest p t q lo hi hq hl hp =
      read_frame-serialize [] rest _ tt (new_frame-IsFrame t q p lo hi hq hl hp)
      ∙ rw (new_frame-is_valid t q p lo hi)
