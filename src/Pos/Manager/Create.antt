-- ===== src/Pos/Manager/Create.antt =====
-- CreateTransaction: which transactions it admits.
use termwire.Common.{
  ℕ, ◌<◌, ◌≤◌, ◌≡◌, sym, ap, inl, inr, true, String, str_eq, str_eq_iff, List, [], ◌∷◌, none, arith,
  Bool-cases,
}
use termwire.Common.Int.{uint32}
use mathlib.Core.Logic.{◌↔◌}
use mathlib.Core.List.{Memᴰ}
use mathlib.Core.List.Memᴰ.{head, tail}
use termwire.Pos.Db.Laws.{Outcome-cases}
use termwire.Go.Dict.{lookup}
use termwire.Go.Time.{Time}
use termwire.Pos.Db.{ok, err, Io}
use termwire.Pos.Manager.{Manager, has_currency, fresh_transaction, put, create_transaction}
use termwire.Pos.Transaction.{Transaction}

has_currency-Mem : (c : String) (l : List String) → has_currency c l ≡ true → Memᴰ c l
unfolding has_currency
has_currency-Mem c [] h = cc
has_currency-Mem c (x ∷ xs) h = elim (Bool-cases (str_eq x c)) [
  | inl e ↦ head (sym ((str_eq_iff x c).0 e))
  | inr e ↦ tail (has_currency-Mem c xs (ground arith))
]

Mem-has_currency : (c : String) (l : List String) → Memᴰ c l → has_currency c l ≡ true
unfolding has_currency
Mem-has_currency c [] h = elim h [ ]
Mem-has_currency c (x ∷ xs) (head e) = ground (arith, str_eq_iff x c)
Mem-has_currency c (x ∷ xs) (tail h) = ground (arith, Mem-has_currency c xs h)

-- What CreateTransaction asks for, without its order of tests.
pub record Admits (id : String) (amount : ℕ) (currency : String) (m : Manager) : Type 0 where
  pub is_new : lookup id m.active ≡ none
  pub is_positive : 0 < amount
  pub is_allowed : amount ≤ uint32 m.config.max_transaction_amount
  pub is_supported : Memᴰ currency m.config.supported_currencies

module _ (io : Io) (created : Time) (id : String) (amount : ℕ) (currency : String)
    (m : Manager) where
  admitted :
      (t : Transaction)
      → (create_transaction io created id amount currency m).0 ≡ ok t
      → Admits id amount currency m
  unfolding create_transaction
  admitted t e = record {
    is_new = ground arith;
    is_positive = ground arith;
    is_allowed = ground arith;
    is_supported = has_currency-Mem currency m.config.supported_currencies (ground arith);
  }

  -- CreateTransaction admits a transaction, with its fields fresh and under its identifier, if and only
  -- if no active transaction has its identifier, the amount is positive and at most the maximum, as
  -- 32 bits hold it, and the terminal supports the currency.
  pub create_transaction-Admits :
      (create_transaction io created id amount currency m ≡ (
        ok (fresh_transaction io created id amount currency),
        put id (fresh_transaction io created id amount currency) m,
      ))
      ↔ Admits id amount currency m
  create_transaction-Admits = (
    λ e. admitted _ (ap (λ x. x.0) e),
    λ a.
        unfold create_transaction in
        ground (
          arith,
          a.is_new,
          a.is_positive,
          a.is_allowed,
          Mem-has_currency currency m.config.supported_currencies a.is_supported,
        ),
  )

  -- Where the conditions under which CreateTransaction admits a transaction do not all hold, it
  -- gives an error and leaves the manager as it was.
  pub create_transaction_refuses :
      ¬ Admits id amount currency m
      → (e : String) × (create_transaction io created id amount currency m ≡ (err e, m))
  create_transaction_refuses h =
      elim (Outcome-cases (create_transaction io created id amount currency m).0) [
        | inl (x, e) ↦ (x, unfold create_transaction in ground arith)
        | inr (t, e) ↦ absurd (h (admitted t e))
      ]
