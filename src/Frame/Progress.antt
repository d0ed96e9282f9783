-- ===== src/Frame/Progress.antt =====
-- The reader takes bytes from the front of the stream: what it leaves is a rest of what came, and a
-- frame that it delivers has taken a byte at least.
use termwire.Common.{
  ℕ, zero, suc, ◌≤◌, ◌<◌, ◌≡◌, ◌≢◌, subst, Bool, true, false, List, [], ◌∷◌, ltb, ◌==◌, length,
  drop, arith, Bool-cases, inl, inr,
}
use termwire.Frame.{Frame, stx, etx, is_valid}
use termwire.Frame.Reader.{
  IoError, Error, Result, ok, err, Read, pure, check, continue, ◌>>=◌, read_byte, read_full,
  skip_to_stx, read_payload, read_frame, received, invalid_etx, crc_mismatch,
}

length-drop_le : {A : Type 0} (n : ℕ) (xs : List A) → length (drop n xs) ≤ length xs
length-drop_le zero xs = omega arith
length-drop_le (suc n) [] = omega arith
length-drop_le (suc n) (x ∷ xs) = omega (arith, length-drop_le n xs)

-- A reader that leaves no more than it found.
record IsTaking {A : Type 0} (m : Read A) : Type 0 where
  takes : (s : List ℕ) → length (m s).1 ≤ length s

continue-IsTaking :
    {A B : Type 0} (r : Result A × List ℕ) (f : A → Read B)
    → ((a : A) → IsTaking (f a))
    → length (continue r f).1 ≤ length r.1
continue-IsTaking (ok a, s) f h = (h a).takes s
continue-IsTaking (err e, s) f h = omega arith

-- One step of the reader, and those behind it.
step :
    {A B : Type 0} (m : Read A) (f : A → Read B)
    → IsTaking m
    → ((a : A) → IsTaking (f a))
    → IsTaking (m >>= f)
step m f hm hf = record { takes = λ s. omega (arith, hm.takes s, continue-IsTaking (m s) f hf) }

pure-IsTaking : {A : Type 0} (a : A) → IsTaking (pure a)
pure-IsTaking a = record { takes = λ s. omega arith }

within : {a c : ℕ} (b : ℕ) → a ≤ b → b ≤ c → a ≤ c
within b ab bc = omega arith

check_le : (b : Bool) (e : Error) (s : List ℕ) → length (check b e s).1 ≤ length s
check_le true e s = omega arith
check_le false e s = omega arith

check-IsTaking : (b : Bool) (e : Error) → IsTaking (check b e)
check-IsTaking b e = record { takes = check_le b e }

module _ (ending : IoError) where
  read_byte_le : (s : List ℕ) → length (read_byte ending s).1 ≤ length s
  unfolding read_byte
  read_byte_le [] = omega arith
  read_byte_le (b ∷ s) = omega arith

  read_byte-IsTaking : IsTaking (read_byte ending)
  read_byte-IsTaking = record { takes = read_byte_le }

  read_full_le : (n : ℕ) (s : List ℕ) → length (read_full ending n s).1 ≤ length s
  read_full_le n s = elim (Bool-cases (ltb (length s) n)) [
    | inl e ↦ unfold read_full in rw e (omega arith)
    | inr e ↦ unfold read_full in rw e (length-drop_le n s)
  ]

  read_full-IsTaking : (n : ℕ) → IsTaking (read_full ending n)
  read_full-IsTaking n = record { takes = read_full_le n }

  read_payload_le : (n : ℕ) (s : List ℕ) → length (read_payload ending n s).1 ≤ length s
  unfolding read_payload
  read_payload_le n s = elim (Bool-cases (ltb 0 n)) [
    | inl e ↦ rw e (read_full_le n s)
    | inr e ↦ rw e (omega arith)
  ]

  read_payload-IsTaking : (n : ℕ) → IsTaking (read_payload ending n)
  read_payload-IsTaking n = record { takes = read_payload_le n }

  skip_to_stx_le : (s : List ℕ) → length (skip_to_stx ending s).1 ≤ length s
  unfolding skip_to_stx
  skip_to_stx_le [] = omega arith
  skip_to_stx_le (b ∷ s) = elim (Bool-cases (b == stx)) [
    | inl e ↦ rw e (omega arith)
    | inr e ↦ rw e (omega (arith, skip_to_stx_le s))
  ]

  skip_to_stx-length : (b : ℕ) (s : List ℕ) → length (skip_to_stx ending (b ∷ s)).1 ≤ length s
  unfolding skip_to_stx
  skip_to_stx-length b s = elim (Bool-cases (b == stx)) [
    | inl e ↦ rw e (omega arith)
    | inr e ↦ rw e (skip_to_stx_le s)
  ]

  -- The reader leaves fewer bytes than it found, if it found any.
  read_frame-length : (b : ℕ) (s : List ℕ) → length (read_frame ending (b ∷ s)).1 ≤ length s
  unfolding read_frame
  read_frame-length b s =
      within (length (skip_to_stx ending (b ∷ s)).1)
        (continue-IsTaking (skip_to_stx ending (b ∷ s)) _ (λ _.
          step (read_full ending 2) _ (read_full-IsTaking 2) (λ m.
            step (check _ _) _ (check-IsTaking _ _) (λ _.
              step (read_byte ending) _ read_byte-IsTaking (λ version.
                step (read_full ending 2) _ (read_full-IsTaking 2) (λ l.
                  step (read_byte ending) _ read_byte-IsTaking (λ frame_type.
                    step (read_full ending 2) _ (read_full-IsTaking 2) (λ q.
                      step (read_byte ending) _ read_byte-IsTaking (λ flags.
                        step (read_payload ending _) _ (read_payload-IsTaking _) (λ payload.
                          step (read_full ending 4) _ (read_full-IsTaking 4) (λ c.
                            step (read_byte ending) _ read_byte-IsTaking (λ last.
                              step (check (last == etx) (invalid_etx last)) _ (check-IsTaking _ _)
                                (λ _.
                                  let frame = received version frame_type q payload c in
                                  step (check (is_valid frame) crc_mismatch) _ (check-IsTaking _ _)
                                    (λ _. pure-IsTaking frame))))))))))))))
        (skip_to_stx-length b s)

  no_bytes : (f : Frame) (rest : List ℕ) → read_frame ending [] ≢ (ok f, rest)
  unfolding read_frame skip_to_stx
  no_bytes f rest e = cc

  -- A frame that is delivered has taken a byte at least.
  pub read_frame_less :
      (s rest : List ℕ) (f : Frame) → read_frame ending s ≡ (ok f, rest) → length rest < length s
  read_frame_less [] rest f e = absurd (no_bytes f rest e)
  read_frame_less (b ∷ s) rest f e =
      let le = subst (λ r. length (r.1) ≤ length s) e (read_frame-length b s) in omega arith
