-- ===== src/Pos/Db/Laws.antt =====
-- What the statements do to the row of an identifier.
pub use termwire.Go.Outcome.{Outcome-cases}
use termwire.Pos.Transaction.{Transaction}
use termwire.Common.{
  inl, inr, Option-cases, ◌≡◌, refl, Bool, String, str_eq, str_eq_iff, if◌then◌else◌, List, [], ◌∷◌,
  none, some, arith,
}
use mathlib.Core.Option
use termwire.Pos.Db.{ok, err, Io, Db, insert_completed, row_of, Row, find_row, add_row, update_rows}

-- A new row is found under its own identifier, and hides no other.
pub find_row-add_row :
    (s : Row) (rows : List Row) (k : String)
    → find_row s.id rows ≡ none
    → find_row k (add_row s rows) ≡ (if str_eq s.id k then some s else find_row k rows)
unfolding find_row add_row
find_row-add_row s [] k h = refl
find_row-add_row s (r ∷ rows) k h =
    ground
      (arith, str_eq_iff r.id k, str_eq_iff s.id k, str_eq_iff r.id s.id, find_row-add_row s rows k)

pub find_row-add_row_old :
    (s : Row) (rows : List Row) (k : String) (r : Row)
    → find_row k rows ≡ some r
    → find_row k (add_row s rows) ≡ some r
unfolding find_row add_row
find_row-add_row_old s [] k r h = cc
find_row-add_row_old s (x ∷ rows) k r h = ground (arith, find_row-add_row_old s rows k r)

-- What an update leaves at an identifier, if it keeps identifiers.
pub find_row-update_rows :
    (test : Row → Bool) (change : Row → Row) (rows : List Row) (k : String)
    → ((r : Row) → (change r).id ≡ r.id)
    → find_row k (update_rows test change rows)
      ≡ Option.map (λ r. if test r then change r else r) (find_row k rows)
unfolding find_row update_rows
find_row-update_rows test change [] k keeps = refl
find_row-update_rows test change (r ∷ rows) k keeps =
    ground (arith, keeps r, find_row-update_rows test change rows k keeps)

pub find_row-id : (k : String) (rows : List Row) (r : Row) → find_row k rows ≡ some r → r.id ≡ k
unfolding find_row
find_row-id k [] r h = cc
find_row-id k (x ∷ rows) r h = ground (arith, str_eq_iff x.id k, find_row-id k rows r)

-- What an insertion that succeeds has done.
pub insert_completed_ok :
    (io : Io) (txn : Transaction) (db db' : Db)
    → insert_completed io txn db ≡ ok db'
    → (io.fault 0 ≡ none)
      × (find_row txn.id db.rows ≡ none)
      × (db' ≡ record db { rows = add_row (row_of txn) db.rows })
unfolding insert_completed
insert_completed_ok io txn db db' e = ground arith

pub insert_completed_new :
    (io : Io) (txn : Transaction) (db : Db)
    → io.fault 0 ≡ none
    → find_row txn.id db.rows ≡ none
    → insert_completed io txn db ≡ ok (record db { rows = add_row (row_of txn) db.rows })
unfolding insert_completed
insert_completed_new io txn db f h = ground arith

-- An identifier that the table holds cannot be inserted again.
pub insert_completed_again :
    (io : Io) (txn : Transaction) (db : Db) (r : Row)
    → find_row txn.id db.rows ≡ some r
    → (e : String) × (insert_completed io txn db ≡ err e)
unfolding insert_completed
insert_completed_again io txn db r h = elim (Option-cases (io.fault 0)) [
  | inl f ↦ (io.unique_error, ground arith)
  | inr (e, f) ↦ (e, ground arith)
]
