-- ===== src/Pos/Ledger/Receipts.antt =====
-- The receipt numbers of TransactionManager: which are given out, and to what.
pub mod Memory
pub mod Settling
pub mod Table
pub mod Interleaving
use Prim.Native.String.{String, ◌++◌}
use text.Mathlib.TextLemmas.{append_cancel_left}
use termwire.Common.{
  ℕ, ◌+◌, ◌^◌, ◌<◌, ◌≤◌, ◌≡◌, refl, sym, ap, subst, ◌∙◌, ◌⊎◌, inl, inr, Option, some, arith,
}
use termwire.Go.Dict.{lookup}
use termwire.Go.Fmt.{decimal}
use termwire.Go.RoundTrip.{scan_uint-decimal}
use termwire.Go.Scan.{scan_uint}
use termwire.Pos.Db.{Row, find_row}
use termwire.Pos.Manager.{Manager}
use termwire.Pos.Transaction.{Transaction}

abbrev pub receipt : ℕ → String
receipt n = "RCP-" ++ decimal n

receipt_injective : (n k : ℕ) → n < 2 ^ 64 → k < 2 ^ 64 → receipt n ≡ receipt k → n ≡ k
receipt_injective n k hn hk e =
    let same : decimal n ≡ decimal k = append_cancel_left "RCP-" (decimal n) (decimal k) e in
    let scans : ◌≡◌ {A = Option ℕ} (some n) (some k) =
      sym (scan_uint-decimal n hn) ∙ ap scan_uint same ∙ scan_uint-decimal k hk in
    cc

-- The receipt number that stands under an identifier, in the table or in memory.
pub data Holds (m : Manager) (id s : String) : Type 0 where
  in_table : (r : Row) → find_row id m.db.rows ≡ some r → r.receipt_number ≡ s → Holds m id s
  in_memory : (t : Transaction) → lookup id m.active ≡ some t → t.receipt_number ≡ s → Holds m id s

abbrev pub IsKeyed : Manager → Type 0
IsKeyed m = (k : String) (t : Transaction) → lookup k m.active ≡ some t → t.id ≡ k

-- Nothing, or the print of a number that the counter has reached.
abbrev pub IsIssued : ℕ → String → Type 0
IsIssued counter s = (s ≡ "") ⊎ ((n : ℕ) × (n ≤ counter) × (s ≡ receipt n))

pub record IsNumbered (m : Manager) : Type 0 where
  pub keyed : IsKeyed m
  pub issued : (k s : String) → Holds m k s → IsIssued m.receipt_counter s
  pub unique : (j k s : String) → Holds m j s → Holds m k s → (s ≡ "") ⊎ (j ≡ k)

-- Where a receipt number comes from that stands under `k` after a step on `id`.
pub data Origin (id : String) (m m' : Manager) (k s : String) : Type 0 where
  old : Holds m k s → Origin id m m' k s
  blank : s ≡ "" → Origin id m m' k s
  fresh :
      (n : ℕ)
      → m.receipt_counter < n
      → n ≤ m'.receipt_counter
      → s ≡ receipt n
      → k ≡ id
      → Origin id m m' k s

-- What a step on `id` does to the receipt numbers.
pub record Gains (id : String) (m m' : Manager) : Type 0 where
  pub grows : m.receipt_counter ≤ m'.receipt_counter
  pub at_most : m'.receipt_counter ≤ m.receipt_counter + 1
  pub actives :
      (k : String) (t : Transaction)
      → lookup k m'.active ≡ some t
      → (t.id ≡ k) × Origin id m m' k t.receipt_number
  pub rows :
      (k : String) (r : Row) → find_row k m'.db.rows ≡ some r → Origin id m m' k r.receipt_number

module _ {id : String} (m m' : Manager) (g : Gains id m m') where
  origin : (k s : String) → Holds m' k s → Origin id m m' k s
  origin k s (in_table r e q) = subst (Origin id m m' k) q (g.rows k r e)
  origin k s (in_memory t e q) = subst (Origin id m m' k) q (g.actives k t e).1

  module _ (fits : m'.receipt_counter < 2 ^ 64) (was : IsNumbered m) where
    was-IsIssued : (k s : String) → Origin id m m' k s → IsIssued m'.receipt_counter s
    was-IsIssued k s (old h) = elim (was.issued k s h) [
      | inl e ↦ inl e
      | inr (n, le, e) ↦ inr (n, omega (arith, le, g.grows), e)
    ]
    was-IsIssued k s (blank e) = inl e
    was-IsIssued k s (fresh n gt le e q) = inr (n, le, e)

    -- An old receipt number is none of the fresh ones.
    apart :
        (k s : String) (n : ℕ)
        → Holds m k s
        → m.receipt_counter < n
        → n ≤ m'.receipt_counter
        → s ≡ receipt n
        → s ≡ ""
    apart k s n h gt le e = elim (was.issued k s h) [
      | inl q ↦ q
      | inr (n', le', e') ↦
          let same : n' ≡ n =
            receipt_injective n' n (omega (arith, le', g.grows, fits)) (omega (arith, le, fits))
              (sym e' ∙ e) in
          absurd (omega (arith, same, le', gt))
    ]

    one_place : (j k s : String) → Origin id m m' j s → Origin id m m' k s → (s ≡ "") ⊎ (j ≡ k)
    one_place j k s (old h) (old h') = was.unique j k s h h'
    one_place j k s (old h) (fresh n gt le e q) = inl (apart j s n h gt le e)
    one_place j k s (fresh n gt le e q) (old h) = inl (apart k s n h gt le e)
    one_place j k s (fresh n gt le e q) (fresh n' gt' le' e' q') = inr (q ∙ sym q')
    one_place j k s (blank e) o = inl e
    one_place j k s (old h) (blank e) = inl e
    one_place j k s (fresh n gt le e q) (blank e') = inl e'

    pub Gains-IsNumbered : IsNumbered m'
    Gains-IsNumbered = record {
      keyed = λ k t e. (g.actives k t e).0;
      issued = λ k s h. was-IsIssued k s (origin k s h);
      unique = λ j k s h h'. one_place j k s (origin j s h) (origin k s h');
    }
