-- ===== src/Frame/Agreement.antt =====
-- ParseFrame and ReadFrame agree: whatever ParseFrame accepts has the shape of a written frame.
use termwire.Common.{
  ◌/◌, ℕ, zero, suc, ◌+◌, ◌<◌, ◌≤◌, ◌≡◌, refl, ap, ap₂, sym, ◌∙◌, List, [], ◌∷◌, ◌++◌, arith,
  length, get_or, IsByte, IsBytes, append_assoc, some, u8, take, drop, if◌then◌else◌,
  take-append-drop, length-take_of_le,
}
use termwire.Frame.{
  Frame, wire, header, calculate_length, be16, be32, etx, crc_bytes, parse_frame, parsed, is_valid,
}
use termwire.Frame.Reader.{IoError, ok, err, crc_mismatch, read_frame}
use termwire.Frame.RoundTrip.{IsFrame, read_frame-wire}
use termwire.Frame.Parse.{len_field, IsWhole, IsWhole-parse_frame}

-- `k` elements from place `i` on.
abbrev gets : ℕ → ℕ → List ℕ → List ℕ
gets zero i l = []
gets (suc k) i l = get_or l i 0 ∷ gets k (suc i) l

drop_step : (i : ℕ) (l : List ℕ) → i < length l → drop i l ≡ get_or l i 0 ∷ drop (suc i) l
drop_step i [] h = absurd (omega arith)
drop_step zero (x ∷ l) h = refl
drop_step (suc i) (x ∷ l) h = drop_step i l (omega arith)

drop-gets : (k i j : ℕ) (l : List ℕ) → k + i ≡ j → j ≤ length l → drop i l ≡ gets k i l ++ drop j l
drop-gets zero i j l e h = ap (λ n. drop n l) (omega arith)
drop-gets (suc k) i j l e h =
    drop_step i l (omega arith)
    ∙ ap (λ t. get_or l i 0 ∷ t) (drop-gets k (suc i) j l (omega arith) h)

drop-drop : (n m j : ℕ) (l : List ℕ) → m + n ≡ j → drop n (drop m l) ≡ drop j l
drop-drop n zero j l e = ap (λ k. drop k l) (omega arith)
drop-drop n (suc m) zero [] e = absurd (omega arith)
drop-drop zero (suc m) (suc j) [] e = refl
drop-drop (suc n) (suc m) (suc j) [] e = refl
drop-drop n (suc m) zero (x ∷ l) e = absurd (omega arith)
drop-drop n (suc m) (suc j) (x ∷ l) e = drop-drop n m j l (omega arith)

length-drop_le : (n m : ℕ) (l : List ℕ) → n + m ≤ length l → m ≤ length (drop n l)
length-drop_le zero m l h = omega arith
length-drop_le (suc n) m [] h = absurd (omega arith)
length-drop_le (suc n) m (x ∷ l) h = length-drop_le n m l (omega arith)

get_or-IsByte : (l : List ℕ) (i : ℕ) → IsBytes l → IsByte (get_or l i 0)
get_or-IsByte [] i h = omega arith
get_or-IsByte (x ∷ l) zero h = h.0
get_or-IsByte (x ∷ l) (suc i) h = get_or-IsByte l i h.1

take-IsBytes : (n : ℕ) (l : List ℕ) → IsBytes l → IsBytes (take n l)
take-IsBytes zero l h = tt
take-IsBytes (suc n) [] h = tt
take-IsBytes (suc n) (x ∷ l) h = (h.0, take-IsBytes n l h.1)

drop-IsBytes : (n : ℕ) (l : List ℕ) → IsBytes l → IsBytes (drop n l)
drop-IsBytes zero l h = h
drop-IsBytes (suc n) [] h = tt
drop-IsBytes (suc n) (x ∷ l) h = drop-IsBytes n l h.1

module _ (l : List ℕ) (bytes : IsBytes l) (w : IsWhole l) where
  abbrev n : ℕ
  n = len_field l

  at-IsByte : (i : ℕ) → IsByte (get_or l i 0)
  at-IsByte i = get_or-IsByte l i bytes

  room' : 15 + n ≤ length l
  room' = w.room

  payload_length : length (take n (drop 10 l)) ≡ n
  payload_length = length-take_of_le n (drop 10 l) (length-drop_le 10 n l (omega (arith, room')))

  parsed-IsFrame : IsFrame (parsed l n)
  parsed-IsFrame = record {
    version_fits = at-IsByte 3;
    type_fits = at-IsByte 6;
    sequence_fits = omega (arith, at-IsByte 7, at-IsByte 8);
    payload_fits = omega (arith, payload_length, at-IsByte 4, at-IsByte 5);
    payload_bytes = take-IsBytes n (drop 10 l) (drop-IsBytes 10 l bytes);
    crc32_fits = omega (
      arith,
      at-IsByte (10 + n),
      at-IsByte (10 + n + 1),
      at-IsByte (10 + n + 2),
      at-IsByte (10 + n + 3),
    );
  }

  in_parts : l ≡ gets 10 0 l ++ (take n (drop 10 l) ++ (gets 5 (10 + n) l ++ drop (15 + n) l))
  in_parts =
      drop-gets 10 0 10 l refl (omega (arith, room'))
      ∙ ap (λ t. gets 10 0 l ++ t)
          (sym (take-append-drop n (drop 10 l))
            ∙ ap (λ t. take n (drop 10 l) ++ t)
                (drop-drop n 10 (10 + n) l refl
                  ∙ drop-gets 5 (10 + n) (15 + n) l (omega arith) room'))

  front : gets 10 0 l ≡ header (get_or l 9 0) (parsed l n)
  front i =
      w.starts i
      ∷ w.magic_first i
      ∷ w.magic_second i
      ∷ get_or l 3 0
      ∷ len_hi i
      ∷ len_lo i
      ∷ get_or l 6 0
      ∷ seq_hi i
      ∷ seq_lo i
      ∷ get_or l 9 0
      ∷ []
    where
      len_hi : get_or l 4 0 ≡ u8 (length (take n (drop 10 l)) / 256)
      len_hi = omega (arith, payload_length, at-IsByte 4, at-IsByte 5)

      len_lo : get_or l 5 0 ≡ u8 (length (take n (drop 10 l)))
      len_lo = omega (arith, payload_length, at-IsByte 4, at-IsByte 5)

      seq_hi : get_or l 7 0 ≡ u8 (be16 (get_or l 7 0) (get_or l 8 0) / 256)
      seq_hi = omega (arith, at-IsByte 7, at-IsByte 8)

      seq_lo : get_or l 8 0 ≡ u8 (be16 (get_or l 7 0) (get_or l 8 0))
      seq_lo = omega (arith, at-IsByte 8)

  back : gets 5 (10 + n) l ≡ crc_bytes (parsed l n).crc32 ++ etx ∷ []
  back i = c0 i ∷ c1 i ∷ c2 i ∷ c3 i ∷ last i ∷ []
    where
      crc : ℕ
      crc = (parsed l n).crc32

      at : (j k : ℕ) → j ≡ k → get_or l j 0 ≡ get_or l k 0
      at j k e = ap (λ t. get_or l t 0) e

      shifted :
          (a b c d : ℕ)
          → IsByte a
          → IsByte b
          → IsByte c
          → IsByte d
          → (a ≡ u8 (be32 a b c d / 0x1000000))
            × (b ≡ u8 (be32 a b c d / 0x10000))
            × (c ≡ u8 (be32 a b c d / 0x100))
            × (d ≡ u8 (be32 a b c d))
      shifted a b c d ha hb hc hd = (omega arith, omega arith, omega arith, omega arith)

      parts :
          (get_or l (10 + n) 0 ≡ u8 (crc / 0x1000000))
          × (get_or l (10 + n + 1) 0 ≡ u8 (crc / 0x10000))
          × (get_or l (10 + n + 2) 0 ≡ u8 (crc / 0x100))
          × (get_or l (10 + n + 3) 0 ≡ u8 crc)
      parts =
          shifted _ _ _ _ (at-IsByte (10 + n)) (at-IsByte (10 + n + 1)) (at-IsByte (10 + n + 2))
            (at-IsByte (10 + n + 3))

      c0 : get_or l (10 + n) 0 ≡ u8 (crc / 0x1000000)
      c0 = parts.0

      c1 : get_or l (suc (10 + n)) 0 ≡ u8 (crc / 0x10000)
      c1 = at _ (10 + n + 1) (omega arith) ∙ parts.1

      c2 : get_or l (suc (suc (10 + n))) 0 ≡ u8 (crc / 0x100)
      c2 = at _ (10 + n + 2) (omega arith) ∙ parts.2

      c3 : get_or l (suc (suc (suc (10 + n)))) 0 ≡ u8 crc
      c3 = at _ (10 + n + 3) (omega arith) ∙ parts.3

      last : get_or l (suc (suc (suc (suc (10 + n))))) 0 ≡ etx
      last = at _ (10 + n + 4) (omega arith) ∙ w.ends

  whole-wire : l ≡ wire (get_or l 9 0) (parsed l n) ++ drop (15 + n) l
  whole-wire =
      in_parts
      ∙ ap₂ (λ a b. a ++ (take n (drop 10 l) ++ (b ++ drop (15 + n) l))) front back
      ∙ ap (λ t. header (get_or l 9 0) (parsed l n) ++ t)
          (sym (
            append_assoc (take n (drop 10 l)) (crc_bytes (parsed l n).crc32 ++ etx ∷ [])
              (drop (15 + n) l)))

  length_lem : 15 + n ≡ calculate_length (length (parsed l n).payload)
  unfolding calculate_length
  length_lem = omega (arith, payload_length)

  read_frame-whole :
      (ending : IoError)
      → read_frame ending l ≡ (
        if is_valid (parsed l n) then ok (parsed l n) else err crc_mismatch,
        drop (calculate_length (length (parsed l n).payload)) l,
      )
  read_frame-whole ending =
      ap (read_frame ending) whole-wire
      ∙ read_frame-wire ending (get_or l 9 0) [] (drop (15 + n) l) (parsed l n) tt parsed-IsFrame
      ∙ ap (λ k. (if is_valid (parsed l n) then ok (parsed l n) else err crc_mismatch, drop k l))
          length_lem

-- Where ParseFrame finds a frame at the front of some bytes, ReadFrame reads that very frame from
-- them, refuses it exactly if IsValid does, and leaves unread what stands behind the frame's
-- length.
pub read_frame-parse_frame :
    (ending : IoError) (l : List ℕ) (f : Frame)
    → IsBytes l
    → parse_frame l ≡ some f
    → read_frame ending l ≡ (
      if is_valid f then ok f else err crc_mismatch,
      drop (calculate_length (length f.payload)) l,
    )
read_frame-parse_frame ending l f bytes e =
    let (w, same) = IsWhole-parse_frame l f e in rw same (read_frame-whole l bytes w ending)
