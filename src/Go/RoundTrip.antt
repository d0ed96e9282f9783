-- ===== src/Go/RoundTrip.antt =====
-- A number below 2 ^ 64 that is printed by `%d` is scanned back.
use Prim.Native.String.{String, [], ◌∷◌, ◌++◌}
use Prim.Native.String.append
use Prim.Native.Char.{Char, code}
use text.Mathlib.TextLemmas.{append_assoc, append-nil}
use termwire.Common.{
  ℕ, zero, suc, ◌+◌, ◌-◌, ◌*◌, ◌/◌, ◌%◌, ◌^◌, ◌<◌, ◌≡◌, refl, sym, ◌∙◌, ap, subst, true,
  if◌then◌else◌, ltb, some, arith, Bool-cases, inl, inr,
}
use termwire.Go.Fmt.{digit, digits, decimal}
use termwire.Go.Scan.{is_digit, number, scan_uint}

-- The one character of a digit.
IsDigitOf : ℕ → String → Type 0
IsDigitOf d s = (c : Char) × (s ≡ c ∷ []) × (code c ≡ 48 + d)

digit-IsDigitOf : (d : ℕ) → d < 10 → IsDigitOf d (digit d)
unfolding IsDigitOf
digit-IsDigitOf zero lt = ("0", refl, refl)
digit-IsDigitOf (suc zero) lt = ("1", refl, refl)
digit-IsDigitOf (suc (suc zero)) lt = ("2", refl, refl)
digit-IsDigitOf (suc (suc (suc zero))) lt = ("3", refl, refl)
digit-IsDigitOf (suc (suc (suc (suc zero)))) lt = ("4", refl, refl)
digit-IsDigitOf (suc (suc (suc (suc (suc zero))))) lt = ("5", refl, refl)
digit-IsDigitOf (suc (suc (suc (suc (suc (suc zero)))))) lt = ("6", refl, refl)
digit-IsDigitOf (suc (suc (suc (suc (suc (suc (suc zero))))))) lt = ("7", refl, refl)
digit-IsDigitOf (suc (suc (suc (suc (suc (suc (suc (suc zero)))))))) lt = ("8", refl, refl)
digit-IsDigitOf (suc (suc (suc (suc (suc (suc (suc (suc (suc zero))))))))) lt = ("9", refl, refl)
digit-IsDigitOf (suc (suc (suc (suc (suc (suc (suc (suc (suc (suc d)))))))))) lt =
    absurd (omega arith)

code-digit : (c : Char) (d : ℕ) → d < 10 → code c ≡ 48 + d → is_digit c ≡ true
code-digit c d lt e = ground arith

number-cons :
    (n d : ℕ) (c : Char) (t : String)
    → d < 10
    → code c ≡ 48 + d
    → number n (c ∷ t) ≡ number (n * 10 + d) t
unfolding number
number-cons n d c t lt e =
    subst (λ b. (if b then number (n * 10 + (code c - 48)) t else n) ≡ number (n * 10 + d) t)
      (sym (code-digit c d lt e)) (ap (λ k. number (n * 10 + k) t) (omega (arith, e)))

number-digit : (n d : ℕ) (t : String) → d < 10 → number n (digit d ++ t) ≡ number (n * 10 + d) t
unfolding IsDigitOf
number-digit n d t lt =
    let (c, e, q) = digit-IsDigitOf d lt in
    ap (λ s. number n (s ++ t)) e
    ∙ ap (number n) (append.cons c [] t ∙ ap (λ s. c ∷ s) (append.nil t))
    ∙ number-cons n d c t lt q

abbrev tens : ℕ → ℕ
tens zero = 1
tens (suc r) = tens r * 10

-- A number of at most `r` digits is read from its print, whatever follows.
number-digits : (r n : ℕ) (t : String) → n < tens r → number 0 (digits r n ++ t) ≡ number n t
unfolding digits
number-digits zero n t lt = ap (λ s. number 0 s) (append.nil t) ∙ ap (λ k. number k t) (omega arith)
number-digits (suc r) n t lt = elim (Bool-cases (ltb n 10)) [
  | inl e ↦ rw e (number-digit 0 n t (ground arith) ∙ ap (λ k. number k t) (omega arith))
  | inr e ↦ rw e (
      ap (number 0) (append_assoc (digits r (n / 10)) (digit (n % 10)) t)
      ∙ number-digits r (n / 10) (digit (n % 10) ++ t) (omega (arith, lt))
      ∙ number-digit (n / 10) (n % 10) t (omega arith)
      ∙ ap (λ k. number k t) (omega arith))
]

-- A text that starts with a digit.
abbrev Starts : String → Type 0
Starts s = (c : Char) × (t : String) × (s ≡ c ∷ t) × (is_digit c ≡ true)

digit-Starts : (d : ℕ) → d < 10 → Starts (digit d)
unfolding IsDigitOf
digit-Starts d lt = let (c, e, q) = digit-IsDigitOf d lt in (c, [], e, code-digit c d lt q)

append-Starts : (s t : String) → Starts s → Starts (s ++ t)
append-Starts s t (c, s', e, q) = (c, s' ++ t, ap (λ x. x ++ t) e ∙ append.cons c s' t, q)

digits-Starts : (r n : ℕ) → Starts (digits (suc r) n)
unfolding digits
digits-Starts zero n = elim (Bool-cases (ltb n 10)) [
  | inl e ↦ rw e (digit-Starts n (ground arith))
  | inr e ↦
      rw e (subst Starts (sym (append.nil (digit (n % 10)))) (digit-Starts (n % 10) (omega arith)))
]
digits-Starts (suc r) n = elim (Bool-cases (ltb n 10)) [
  | inl e ↦ rw e (digit-Starts n (ground arith))
  | inr e ↦ rw e (append-Starts _ (digit (n % 10)) (digits-Starts r (n / 10)))
]

-- The scan of a text that starts with a digit.
scan_uint-Starts :
    (s : String) (n : ℕ) → Starts s → number 0 s ≡ n → n < 2 ^ 64 → scan_uint s ≡ some n
unfolding scan_uint
scan_uint-Starts s n (c, t, e, q) num fits =
    subst (λ x. number 0 x ≡ n → scan_uint x ≡ some n) (sym e) (λ h. ground arith) num

number_end : (n : ℕ) → number n [] ≡ n
unfolding number
number_end n = refl

-- A number of 64 bits that is printed is scanned back.
pub scan_uint-decimal : (n : ℕ) → n < 2 ^ 64 → scan_uint (decimal n) ≡ some n
unfolding decimal
scan_uint-decimal n fits =
    scan_uint-Starts (digits 20 n) n (digits-Starts 19 n)
      (ap (number 0) (sym (append-nil (digits 20 n)))
        ∙ number-digits 20 n [] (omega (arith, fits))
        ∙ number_end n)
      fits
