-- ===== src/Pos/Manager/Statistics.antt =====
-- The counts and GetStatistics of pos/transaction.go. A query's error is an argument. The rows of one
-- state make one group; SQL leaves the order of the groups open, and the theorem does not depend on it.
pub mod Sums
use Prim.Native.String.{String}
use termwire.Common.{
  ℕ, suc, ◌+◌, u64, ◌==◌, ◌≡◌, refl, sym, ap, ◌∙◌, subst, if◌then◌else◌, Bool, List, [], ◌∷◌,
  Option, none, some, length, arith,
}
use termwire.Go.Dict.{Dict, insert}
use termwire.Pos.Db.{Row}
use termwire.Pos.Manager.{Manager}
use termwire.Pos.Transaction.{state_code, state_of, state_string, payment_completed, refunded}

unfoldable pub get_active_transaction_count : Manager → ℕ
get_active_transaction_count m = length m.active

-- A scan that fails leaves the count at zero.
unfoldable pub get_completed_transaction_count : Option String → Manager → ℕ
get_completed_transaction_count (some e) m = 0
get_completed_transaction_count none m = length m.db.rows

-- `SELECT state, SUM(amount_cents), COUNT(*) ... GROUP BY state`
pub record StateGroup : Type 0 where
  pub state : ℕ
  pub total : ℕ
  pub count : ℕ

abbrev first_of : Row → StateGroup
first_of r = record { state = r.state; total = r.amount_cents; count = 1 }

abbrev one_more : Row → StateGroup → StateGroup
one_more r g = record g { total = g.total + r.amount_cents; count = g.count + 1 }

abbrev pub add_to_states : Row → List StateGroup → List StateGroup
add_to_states r [] = first_of r ∷ []
add_to_states r (g ∷ groups) =
    let rest = add_to_states r groups in
    if g.state == r.state then one_more r g ∷ groups else g ∷ rest

abbrev pub group_by_state : List Row → List StateGroup
group_by_state [] = []
group_by_state (r ∷ rows) = add_to_states r (group_by_state rows)

-- What the query adds to the statistics.
pub record ByState : Type 0 where
  pub state_counts : Dict ℕ
  pub total_amount_cents : ℕ
  pub completed_amount_cents : ℕ
  pub refunded_amount_cents : ℕ

abbrev pub nothing_yet : ByState
nothing_yet = record {
  state_counts = [];
  total_amount_cents = 0;
  completed_amount_cents = 0;
  refunded_amount_cents = 0;
}

abbrev pub count_group : StateGroup → ByState → ByState
count_group g s = record s {
  state_counts = insert (state_string (state_of g.state)) g.count s.state_counts;
  total_amount_cents = u64 (s.total_amount_cents + g.total);
  completed_amount_cents =
      if g.state == state_code payment_completed then g.total else s.completed_amount_cents;
  refunded_amount_cents =
      if g.state == state_code refunded then g.total else s.refunded_amount_cents;
}

abbrev pub count_groups : List StateGroup → ByState → ByState
count_groups [] s = s
count_groups (g ∷ groups) s = count_groups groups (count_group g s)

pub record Statistics : Type 0 where
  pub active_count : ℕ
  pub completed_count : ℕ
  pub by_state : Option ByState

unfoldable pub by_state_of : Option String → List Row → Option ByState
by_state_of (some e) rows = none
by_state_of none rows = some (count_groups (group_by_state rows) nothing_yet)

-- `fault` and `fault'` are the errors of the count and of the query.
unfoldable pub get_statistics : Option String → Option String → Manager → Statistics
get_statistics fault fault' m = record {
  active_count = get_active_transaction_count m;
  completed_count = get_completed_transaction_count fault m;
  by_state = by_state_of fault' m.db.rows;
}
