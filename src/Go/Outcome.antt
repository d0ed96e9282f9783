-- ===== src/Go/Outcome.antt =====
-- A Go result with an error: the text of the error.
use termwire.Common.{◌≡◌, refl, ◌⊎◌, inl, inr, String}

pub data Outcome (A : Type 0) : Type 0 where
  ok : A → Outcome A
  err : String → Outcome A

-- To split on a result and keep the equation.
pub Outcome-cases :
    {A : Type 0} (r : Outcome A) → ((e : String) × (r ≡ err e)) ⊎ ((a : A) × (r ≡ ok a))
Outcome-cases (err e) = inl (e, refl)
Outcome-cases (ok a) = inr (a, refl)
