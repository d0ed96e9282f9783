-- ===== src/Pos/Report/Sums.antt =====
-- The totals of a report against sums over the rows: the groups of rows by currency and state are
-- sorted into three maps.
use termwire.Common.{
  ℕ, zero, suc, ◌≡◌, refl, ap, ◌∙◌, true, ◌&&◌, ◌==◌, String, str_eq, str_eq_iff, if◌then◌else◌,
  List, [], ◌∷◌, Option, none, some, arith,
}
use termwire.Go.Dict.{Dict, lookup, insert, lookup-insert}
use termwire.Message.Responses.{CurrencyTotals}
use termwire.Pos.Db.{Io, Db, select_rows}
use termwire.Pos.Report.{
  Group, Totals, group_rows, tally_group, tally, no_totals, currency_totals, batch_totals, is_open,
}
use termwire.Pos.Transaction.{
  TransactionState, unknown, card_insertion, bank_selection, loyalty_inquiry, loyalty_confirmation,
  payment_processing, failed, state_of, state_code, payment_completed, voided, refunded,
}
use termwire.Pos.Report.Groups.{
  entry_of, find_group, find_group-none, find_group-group_rows, Distinct, group_rows-Distinct,
}

module _ (get : Totals → Dict CurrencyTotals) (k : ℕ)
    (step : (t : Totals) (g : Group)
      → get (tally_group t g (state_of g.state))
        ≡ (if g.state == k then insert g.currency (currency_totals g) (get t) else get t)) where
  abbrev or_else : Option Group → Option CurrencyTotals → Option CurrencyTotals
  or_else none o = o
  or_else (some g) o = some (currency_totals g)

  lookup-tally :
      (c : String) (gs : List Group) (t : Totals)
      → Distinct gs
      → lookup c (get (tally gs t)) ≡ or_else (find_group c k gs) (lookup c (get t))
  unfolding tally find_group Distinct
  lookup-tally c [] t d = refl
  lookup-tally c (g ∷ gs) t d = ground (
    arith,
    lookup-tally c gs (tally_group t g (state_of g.state)) d.1,
    step t g,
    lookup-insert g.currency c (currency_totals g) (get t),
    str_eq_iff g.currency c,
    last,
  )
    where
      last : str_eq g.currency c && g.state == k ≡ true → find_group c k gs ≡ none
      last e = ground (arith, d.0, str_eq_iff g.currency c)

by_state : (k : ℕ) → state_code (state_of k) ≡ k
by_state zero = refl
by_state (suc zero) = refl
by_state (suc (suc zero)) = refl
by_state (suc (suc (suc zero))) = refl
by_state (suc (suc (suc (suc zero)))) = refl
by_state (suc (suc (suc (suc (suc zero))))) = refl
by_state (suc (suc (suc (suc (suc (suc zero)))))) = refl
by_state (suc (suc (suc (suc (suc (suc (suc zero))))))) = refl
by_state (suc (suc (suc (suc (suc (suc (suc (suc zero)))))))) = refl
by_state (suc (suc (suc (suc (suc (suc (suc (suc (suc n))))))))) = omega arith

-- What the tally does to one of its maps, by the code of the state that the map is for.
module _ (t : Totals) (g : Group) where
  abbrev with_entry : Dict CurrencyTotals → Dict CurrencyTotals
  with_entry d = insert g.currency (currency_totals g) d

  sales_at :
      (s : TransactionState)
      → (tally_group t g s).sales ≡ (if state_code s == 5 then with_entry t.sales else t.sales)
  unfolding tally_group
  sales_at card_insertion = refl
  sales_at bank_selection = refl
  sales_at loyalty_inquiry = refl
  sales_at loyalty_confirmation = refl
  sales_at payment_processing = refl
  sales_at payment_completed = refl
  sales_at failed = refl
  sales_at voided = refl
  sales_at refunded = refl
  sales_at (unknown n) = ground arith

  sales_step :
      (tally_group t g (state_of g.state)).sales
      ≡ (if g.state == 5 then with_entry t.sales else t.sales)
  sales_step =
      sales_at (state_of g.state)
      ∙ ap (λ n. if n == 5 then with_entry t.sales else t.sales) (by_state g.state)

  refunds_at :
      (s : TransactionState)
      → (tally_group t g s).refunds
        ≡ (if state_code s == 8 then with_entry t.refunds else t.refunds)
  unfolding tally_group
  refunds_at card_insertion = refl
  refunds_at bank_selection = refl
  refunds_at loyalty_inquiry = refl
  refunds_at loyalty_confirmation = refl
  refunds_at payment_processing = refl
  refunds_at payment_completed = refl
  refunds_at failed = refl
  refunds_at voided = refl
  refunds_at refunded = refl
  refunds_at (unknown n) = ground arith

  refunds_step :
      (tally_group t g (state_of g.state)).refunds
      ≡ (if g.state == 8 then with_entry t.refunds else t.refunds)
  refunds_step =
      refunds_at (state_of g.state)
      ∙ ap (λ n. if n == 8 then with_entry t.refunds else t.refunds) (by_state g.state)

  voids_at :
      (s : TransactionState)
      → (tally_group t g s).voids ≡ (if state_code s == 7 then with_entry t.voids else t.voids)
  unfolding tally_group
  voids_at card_insertion = refl
  voids_at bank_selection = refl
  voids_at loyalty_inquiry = refl
  voids_at loyalty_confirmation = refl
  voids_at payment_processing = refl
  voids_at payment_completed = refl
  voids_at failed = refl
  voids_at voided = refl
  voids_at refunded = refl
  voids_at (unknown n) = ground arith

  voids_step :
      (tally_group t g (state_of g.state)).voids
      ≡ (if g.state == 7 then with_entry t.voids else t.voids)
  voids_step =
      voids_at (state_of g.state)
      ∙ ap (λ n. if n == 7 then with_entry t.voids else t.voids) (by_state g.state)

module _ (io : Io) (db : Db) (c : String) (f : io.fault 0 ≡ none) where
  abbrev groups : List Group
  groups = group_rows (select_rows is_open db.rows) []

  queried : batch_totals io db ≡ tally groups no_totals
  queried = unfold batch_totals in ground arith

  groups-Distinct : Distinct groups
  unfolding Distinct
  groups-Distinct = group_rows-Distinct (select_rows is_open db.rows) [] tt

  totals_at :
      (get : Totals → Dict CurrencyTotals) (k : ℕ)
      → ((t : Totals) (g : Group)
          → get (tally_group t g (state_of g.state))
            ≡ (if g.state == k then insert g.currency (currency_totals g) (get t) else get t))
      → get no_totals ≡ []
      → lookup c (get (batch_totals io db)) ≡ entry_of c k db.rows
  unfolding lookup
  totals_at get k step empty =
      ap (λ t. lookup c (get t)) queried
      ∙ lookup-tally get k step c groups no_totals groups-Distinct
      ∙ ground (arith, empty, find_group-group_rows c k db.rows [], find_group-none c k)

-- Unless the query fails, a report's sales, refunds and voids have for each currency the number and
-- the sum, modulo 2 ^ 32, of the amounts of the completed, refunded and voided transactions of the open
-- batch in that currency, and no entry if there are none.
pub batch_totals_lem :
    (io : Io) (db : Db) (c : String)
    → io.fault 0 ≡ none
    → (lookup c (batch_totals io db).sales ≡ entry_of c (state_code payment_completed) db.rows)
      × (lookup c (batch_totals io db).refunds ≡ entry_of c (state_code refunded) db.rows)
      × (lookup c (batch_totals io db).voids ≡ entry_of c (state_code voided) db.rows)
batch_totals_lem io db c f = (
  totals_at io db c f (λ t. t.sales) 5 sales_step refl,
  totals_at io db c f (λ t. t.refunds) 8 refunds_step refl,
  totals_at io db c f (λ t. t.voids) 7 voids_step refl,
)
