-- ===== src/Common/Xor.antt =====
-- Laws of the exclusive or at variables, from the recursion on binary digits that it stands for.
use Prim.Native.Nat.{
  ℕ, zero, suc, ◌+◌, ◌*◌, ◌/◌, ◌%◌, ◌^◌, ◌≤◌, ◌<◌, bit_xor, digits, differ, bit_xor-bitwise,
}
use mathlib.Core.Path.{◌≡◌, refl, ap, ◌∙◌, sym}
use native.Mathlib.Nat.{pow-suc}
use native.Mathlib.Omega.{arith}

zero-xor : (b : ℕ) → bit_xor 0 b ≡ b
zero-xor b = bit_xor-bitwise 0 b

abbrev rounds : ℕ → ℕ → ℕ → ℕ
rounds fuel a b = digits (λ rest. rest) differ fuel a b

nothing_left : (fuel b : ℕ) → rounds fuel 0 b ≡ b
nothing_left zero b = refl
nothing_left (suc fuel) b = refl

-- Any fuel that is enough gives the same number.
same_rounds : (a b fuel other : ℕ) → a ≤ other → a ≤ fuel → rounds other a b ≡ rounds fuel a b
same_rounds zero b fuel other _ _ = nothing_left other b ∙ sym (nothing_left fuel b)
same_rounds (suc a) b zero other _ short = absurd (omega (arith, short))
same_rounds (suc a) b (suc fuel) zero short _ = absurd (omega (arith, short))
same_rounds (suc a) b (suc fuel) (suc other) h k =
    ap (λ rest. rest * 2 + differ (suc a % 2) (b % 2))
      (same_rounds (suc a / 2) (b / 2) fuel other (omega (arith, h)) (omega (arith, k)))

one_round :
    (a b : ℕ)
    → rounds (suc a) (suc a) b
      ≡ rounds (suc a / 2) (suc a / 2) (b / 2) * 2 + differ (suc a % 2) (b % 2)
one_round a b =
    ap (λ rest. rest * 2 + differ (suc a % 2) (b % 2))
      (same_rounds (suc a / 2) (b / 2) (suc a / 2) a (omega arith) (omega arith))

differ_digits : (x y : ℕ) → x < 2 → y < 2 → differ x y ≡ (x + y) % 2
differ_digits zero y h k = omega arith
differ_digits (suc zero) zero h k = refl
differ_digits (suc zero) (suc zero) h k = refl
differ_digits (suc zero) (suc (suc y)) h k = absurd (omega arith)
differ_digits (suc (suc x)) y h k = absurd (omega arith)

-- The lowest digit.
xor_step : (a b : ℕ) → bit_xor a b ≡ bit_xor (a / 2) (b / 2) * 2 + (a % 2 + b % 2) % 2
xor_step zero b = omega (arith, zero-xor b, zero-xor (b / 2))
xor_step (suc a) b = omega (
  arith,
  bit_xor-bitwise (suc a) b ∙ one_round a b,
  bit_xor-bitwise (suc a / 2) (b / 2),
  differ_digits (suc a % 2) (b % 2),
)

-- The exclusive or of numbers of `k` binary digits has `k` digits.
pub xor-lt : (k a b : ℕ) → a < 2 ^ k → b < 2 ^ k → bit_xor a b < 2 ^ k
xor-lt zero a b h j = let e : a ≡ 0 = omega arith in rw (e, zero-xor b) j
xor-lt (suc k) a b h j = omega (
  arith,
  pow-suc 2 k,
  xor_step a b,
  xor-lt k (a / 2) (b / 2) (omega (arith, pow-suc 2 k)) (omega (arith, pow-suc 2 k)),
)

pub xor_comm : (k a b : ℕ) → a < 2 ^ k → b < 2 ^ k → bit_xor a b ≡ bit_xor b a
xor_comm zero a b h j = let e : a ≡ 0 = omega arith in let e' : b ≡ 0 = omega arith in rw (e, e')
xor_comm (suc k) a b h j = omega (
  arith,
  pow-suc 2 k,
  xor_step a b,
  xor_step b a,
  xor_comm k (a / 2) (b / 2) (omega (arith, pow-suc 2 k)) (omega (arith, pow-suc 2 k)),
)

xor-half : (a b : ℕ) → bit_xor a b / 2 ≡ bit_xor (a / 2) (b / 2)
xor-half a b = omega (arith, xor_step a b)

-- Done twice with one operand, it gives the other back.
pub xor_cancel : (k a b : ℕ) → a < 2 ^ k → b < 2 ^ k → bit_xor (bit_xor a b) b ≡ a
xor_cancel zero a b h j = let e : a ≡ 0 = omega arith in let e' : b ≡ 0 = omega arith in rw (e, e')
xor_cancel (suc k) a b h j = omega (
  arith,
  pow-suc 2 k,
  xor_step (bit_xor a b) b,
  xor_step a b,
  ap (λ t. bit_xor t (b / 2)) (xor-half a b),
  xor_cancel k (a / 2) (b / 2) (omega (arith, pow-suc 2 k)) (omega (arith, pow-suc 2 k)),
)

upper_half : (k b : ℕ) → (2 ^ suc k + b) / 2 ≡ 2 ^ k + b / 2
upper_half k b = omega (arith, pow-suc 2 k)

-- The digit above the operands' digits is kept.
pub xor_high : (k a b : ℕ) → a < 2 ^ k → b < 2 ^ k → bit_xor a (2 ^ k + b) ≡ 2 ^ k + bit_xor a b
xor_high zero a b h j = let e : a ≡ 0 = omega arith in rw (e, zero-xor (1 + b), zero-xor b)
xor_high (suc k) a b h j = omega (
  arith,
  pow-suc 2 k,
  xor_step a (2 ^ suc k + b),
  xor_step a b,
  ap (λ t. bit_xor (a / 2) t) (upper_half k b),
  xor_high k (a / 2) (b / 2) (omega (arith, pow-suc 2 k)) (omega (arith, pow-suc 2 k)),
)

pub xor_cancel_right :
    (k a b c : ℕ) → a < 2 ^ k → b < 2 ^ k → c < 2 ^ k → bit_xor a c ≡ bit_xor b c → a ≡ b
xor_cancel_right k a b c ha hb hc e =
    sym (xor_cancel k a c ha hc) ∙ ap (λ t. bit_xor t c) e ∙ xor_cancel k b c hb hc

pub xor_cancel_left :
    (k a b c : ℕ) → a < 2 ^ k → b < 2 ^ k → c < 2 ^ k → bit_xor c a ≡ bit_xor c b → a ≡ b
xor_cancel_left k a b c ha hb hc e =
    xor_cancel_right k a b c ha hb hc (xor_comm k a c ha hc ∙ e ∙ xor_comm k c b hc hb)
