-- ===== src/Frame/Corruption.antt =====
-- What the checksum catches, and what it does not cover.
use termwire.Common.{
  u8, ◌/◌, sym, ℕ, zero, suc, ◌+◌, ◌<◌, ◌≡◌, ◌≢◌, refl, ap, ◌∙◌, true, false, List, [], ◌∷◌, ◌++◌,
  arith, length, set, get_or, length-set, All, All-set, IsByte,
}
use native.Mathlib.Nat.{zero-add, suc-add}
use termwire.Crc32.Laws.{checksum_ieee_one_byte}
use termwire.Frame.{Frame, header, crc_bytes, etx, wire, serialize, is_valid, calculate_crc32, stx}
use termwire.Frame.Reader.{IoError, ok, err, crc_mismatch, read_frame}
use termwire.Frame.RoundTrip.{IsFrame, u8-lt, read_frame-wire}

abbrev with_byte : Frame → ℕ → ℕ → Frame
with_byte f i v = record f { payload = set f.payload i v }

-- The header at a payload of `n` bytes.
abbrev prefix : Frame → ℕ → List ℕ
prefix f n =
    stx
    ∷ b'T'
    ∷ b'W'
    ∷ f.version
    ∷ u8 (n / 256)
    ∷ u8 n
    ∷ f.frame_type
    ∷ u8 (f.sequence / 256)
    ∷ u8 f.sequence
    ∷ 0
    ∷ []

set-append {ℓ} :
    {A : Type ℓ} (xs ys : List A) (i : ℕ) (v : A)
    → i < length xs
    → set (xs ++ ys) i v ≡ set xs i v ++ ys
set-append [] ys i v h = absurd (omega arith)
set-append (x ∷ xs) ys zero v h = refl
set-append (x ∷ xs) ys (suc i) v h = ap (λ t. x ∷ t) (set-append xs ys i v (omega arith))

set-append_right {ℓ} :
    {A : Type ℓ} (xs ys : List A) (i : ℕ) (v : A)
    → set (xs ++ ys) (length xs + i) v ≡ xs ++ set ys i v
set-append_right [] ys i v = rw zero-add
set-append_right (x ∷ xs) ys i v = rw suc-add (ap (λ t. x ∷ t) (set-append_right xs ys i v))

set-wire :
    (f : Frame) (i v : ℕ)
    → i < length f.payload
    → set (serialize f) (10 + i) v ≡ wire 0 (with_byte f i v)
unfolding serialize
set-wire f i v h =
    set-append_right (header 0 f) _ i v
    ∙ ap (λ t. header 0 f ++ t) (set-append f.payload _ i v h)
    ∙ ap (λ n. prefix f n ++ (set f.payload i v ++ (crc_bytes f.crc32 ++ etx ∷ [])))
        (sym (length-set f.payload i v))

crc_differs :
    (f : Frame) (i v : ℕ)
    → IsFrame f
    → i < length f.payload
    → IsByte v
    → v ≢ get_or f.payload i 0
    → calculate_crc32 (with_byte f i v) ≢ calculate_crc32 f
unfolding calculate_crc32
crc_differs f i v fits h hv ne =
    checksum_ieee_one_byte
      (f.version ∷ f.frame_type ∷ u8 (f.sequence / 256) ∷ u8 f.sequence ∷ f.payload)
      (suc (suc (suc (suc i)))) v
      (fits.version_fits, (fits.type_fits, (u8-lt _, (u8-lt _, fits.payload_bytes)))) (omega arith)
      hv ne

is_valid_corrupted :
    (f : Frame) (i v : ℕ)
    → is_valid f ≡ true
    → calculate_crc32 (with_byte f i v) ≢ calculate_crc32 f
    → is_valid (with_byte f i v) ≡ false
unfolding is_valid
is_valid_corrupted f i v valid differs = ground arith

with_byte-IsFrame : (f : Frame) (i v : ℕ) → IsFrame f → IsByte v → IsFrame (with_byte f i v)
with_byte-IsFrame f i v fits hv = record {
  version_fits = fits.version_fits;
  type_fits = fits.type_fits;
  sequence_fits = fits.sequence_fits;
  crc32_fits = fits.crc32_fits;
  payload_fits = rw (length-set f.payload i v) fits.payload_fits;
  payload_bytes = All-set IsByte f.payload i v fits.payload_bytes hv;
}

-- If one byte of the payload of a valid frame of Go's widths is changed on the way to another byte,
-- the reader refuses the frame with a checksum error, past anything that holds no start byte,
-- whatever byte of the payload it is and whatever it is changed to, and what follows stays unread.
pub read_frame_corrupted :
    (ending : IoError) (noise rest : List ℕ) (f : Frame) (i v : ℕ)
    → All (λ b. b ≢ stx) noise
    → IsFrame f
    → is_valid f ≡ true
    → i < length f.payload
    → IsByte v
    → v ≢ get_or f.payload i 0
    → read_frame ending (noise ++ (set (serialize f) (10 + i) v ++ rest)) ≡ (err crc_mismatch, rest)
read_frame_corrupted ending noise rest f i v lacks fits valid h hv ne = rw (set-wire f i v h) (
    read_frame-wire ending 0 noise rest _ lacks (with_byte-IsFrame f i v fits hv)
    ∙ rw (is_valid_corrupted f i v valid (crc_differs f i v fits h hv ne)))

-- The FLAGS byte is under no checksum: whatever it is changed to in the bytes of a valid frame of
-- Go's widths, the same frame is delivered, and what follows stays unread.
pub read_frame_flags :
    (ending : IoError) (rest : List ℕ) (f : Frame) (flags : ℕ)
    → IsFrame f
    → is_valid f ≡ true
    → read_frame ending (set (serialize f) 9 flags ++ rest) ≡ (ok f, rest)
unfolding serialize
read_frame_flags ending rest f flags fits valid =
    read_frame-wire ending flags [] rest f tt fits ∙ rw valid
