-- ===== src/Frame/Parse.antt =====
-- ParseFrame against the writer and against ReadFrame.
use native.Mathlib.Nat.{zero-add, suc-add}
use termwire.Common.{
  ℕ, ◌+◌, ◌≤◌, ◌≡◌, refl, ap, ◌∙◌, List, [], ◌∷◌, ◌++◌, arith, length, get_or, length-append,
  append_assoc, some, take, drop, take-append,
}
use termwire.Frame.{Frame, wire, header, crc_bytes, be16, etx, stx, parse_frame, parsed}
use termwire.Frame.RoundTrip.{IsFrame, be16_split, be32_split}

get_or-append_right {ℓ} :
    {A : Type ℓ} (xs ys : List A) (i : ℕ) (d : A)
    → get_or (xs ++ ys) (length xs + i) d ≡ get_or ys i d
get_or-append_right [] ys i d = rw zero-add
get_or-append_right (x ∷ xs) ys i d = rw suc-add (get_or-append_right xs ys i d)

abbrev pub len_field : List ℕ → ℕ
len_field bytes = be16 (get_or bytes 4 0) (get_or bytes 5 0)

-- The tests of ParseFrame.
pub record IsWhole (bytes : List ℕ) : Type 0 where
  pub starts : get_or bytes 0 0 ≡ stx
  pub magic_first : get_or bytes 1 0 ≡ b'T'
  pub magic_second : get_or bytes 2 0 ≡ b'W'
  pub room : 15 + len_field bytes ≤ length bytes
  pub ends : get_or bytes (10 + len_field bytes + 4) 0 ≡ etx

parse_frame-IsWhole :
    (bytes : List ℕ) → IsWhole bytes → parse_frame bytes ≡ some (parsed bytes (len_field bytes))
unfolding parse_frame
parse_frame-IsWhole bytes w = ground arith

pub IsWhole-parse_frame :
    (bytes : List ℕ) (f : Frame)
    → parse_frame bytes ≡ some f
    → IsWhole bytes × (f ≡ parsed bytes (len_field bytes))
unfolding parse_frame
IsWhole-parse_frame bytes f e = ground arith

module _ (flags : ℕ) (f : Frame) (rest : List ℕ) where
  abbrev bytes : List ℕ
  bytes = wire flags f ++ rest

  tail_at :
      (j i : ℕ)
      → j ≡ 10 + (length f.payload + i)
      → get_or bytes j 0 ≡ get_or (crc_bytes f.crc32 ++ (etx ∷ rest)) i 0
  tail_at j i e =
      ap (λ n. get_or bytes n 0) e
      ∙ get_or-append_right (header flags f) _ (length f.payload + i) 0
      ∙ ap (λ l. get_or l (length f.payload + i) 0) (append_assoc f.payload _ rest)
      ∙ get_or-append_right f.payload _ i 0

  payload_at : take (length f.payload) (drop 10 bytes) ≡ f.payload
  payload_at =
      ap (λ l. take (length f.payload) l) (append_assoc f.payload _ rest) ∙ take-append f.payload _

  parsed-wire : IsFrame f → parsed bytes (length f.payload) ≡ f
  parsed-wire fits = λ i. record {
    version = f.version;
    frame_type = f.frame_type;
    sequence = be16_split f.sequence fits.sequence_fits i;
    payload = payload_at i;
    crc32 = crc i;
  }
    where
      crc : (parsed bytes (length f.payload)).crc32 ≡ f.crc32
      crc =
          let n = length f.payload in
          omega (
            arith,
            tail_at (10 + n) 0 (omega arith),
            tail_at (10 + n + 1) 1 (omega arith),
            tail_at (10 + n + 2) 2 (omega arith),
            tail_at (10 + n + 3) 3 (omega arith),
            be32_split f.crc32 fits.crc32_fits,
          )

  bytes-IsWhole : IsFrame f → IsWhole bytes
  bytes-IsWhole fits =
      let e : len_field bytes ≡ length f.payload =
        be16_split (length f.payload) fits.payload_fits in
      record {
        starts = refl;
        magic_first = refl;
        magic_second = refl;
        room = omega (
          arith,
          length-append (f.payload ++ (crc_bytes f.crc32 ++ etx ∷ [])) rest,
          length-append f.payload (crc_bytes f.crc32 ++ etx ∷ []),
          be16_split (length f.payload) fits.payload_fits,
        );
        ends = rw e (tail_at (10 + length f.payload + 4) 4 (omega arith));
      }

  -- ParseFrame finds any frame of Go's widths at the front of its data, valid or not, whatever its
  -- FLAGS byte is and whatever stands behind it.
  pub parse_frame-wire : IsFrame f → parse_frame bytes ≡ some f
  parse_frame-wire fits =
      parse_frame-IsWhole bytes (bytes-IsWhole fits)
      ∙ ap (λ n. some (parsed bytes n)) (be16_split (length f.payload) fits.payload_fits)
      ∙ ap (λ x. some x) (parsed-wire fits)
