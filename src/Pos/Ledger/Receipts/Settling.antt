-- ===== src/Pos/Ledger/Receipts/Settling.antt =====
-- What CompleteTransaction and FailTransaction do to the receipt numbers.
use termwire.Common.{◌+◌, ◌^◌, ◌<◌, ◌≡◌, refl, inl, inr, String, some, arith, Option-cases}
use termwire.Go.Dict.{lookup}
use termwire.Pos.Db.{ok, Io, Db, Row, find_row, row_of, insert_completed}
use termwire.Pos.Db.Laws.{insert_completed_ok, Outcome-cases}
use termwire.Pos.Manager.Branches.{
  counted, complete_missing, complete_ok, complete_err, fail_missing, fail_ok, fail_err,
}
use termwire.Pos.Ledger.Receipts.{in_memory, IsKeyed, Origin, old, fresh, Gains}
use termwire.Pos.Ledger.Receipts.Memory.{
  same_rows, Gains-refl, put_actives, erase_actives, gone_actives, Gains-put, added_row,
}
use termwire.Pos.Manager.{Manager, settled, declined, complete_transaction, fail_transaction}
use termwire.Pos.Transaction.{Transaction}

module _ (id : String) (m : Manager) (keyed : IsKeyed m) (io : Io) where
  -- The rows after an insertion and whatever becomes of the metadata.
  inserted_rows :
      (m' : Manager) (txn : Transaction) (db : Db)
      → txn.id ≡ id
      → insert_completed io txn m.db ≡ ok db
      → m'.db.rows ≡ db.rows
      → Origin id m m' id txn.receipt_number
      → (k : String) (s : Row) → find_row k m'.db.rows ≡ some s
      → Origin id m m' k s.receipt_number
  unfolding row_of
  inserted_rows m' txn db key e same o k s found =
      let (_, new, stored) = insert_completed_ok io txn m.db db e in
      added_row id m keyed m' (row_of txn) key new o k s (cc)

  module _ (confirmation auth : String) (fits : m.receipt_counter + 1 < 2 ^ 64) where
    abbrev next : Transaction → Transaction
    next txn = settled io confirmation auth (counted io id m confirmation auth) txn

    counts : counted io id m confirmation auth ≡ m.receipt_counter + 1
    counts = omega (arith, fits)

    given :
        (m' : Manager) (txn : Transaction)
        → m'.receipt_counter ≡ counted io id m confirmation auth
        → Origin id m m' id (next txn).receipt_number
    given m' txn e =
        fresh (counted io id m confirmation auth) (omega (arith, counts)) (omega (arith, e)) refl
          refl

    pub complete_transaction-Gains : Gains id m (complete_transaction io id confirmation auth m).1
    complete_transaction-Gains = elim (Option-cases (lookup id m.active)) [
      | inl e ↦ rw (complete_missing io id m confirmation auth e) (Gains-refl id m keyed)
      | inr (txn, e) ↦ elim (Outcome-cases (insert_completed io (next txn) m.db)) [
        | inl (x, f) ↦ rw (complete_err io id m confirmation auth txn x e f) (record {
          grows = omega (arith, counts);
          at_most = omega (arith, counts);
          actives = put_actives id m keyed _ (next txn) (keyed id txn e) (given _ txn refl);
          rows = same_rows id m keyed _;
        })
        | inr (db, f) ↦ rw (complete_ok io id m confirmation auth txn db e f) (record {
          grows = omega (arith, counts);
          at_most = omega (arith, counts);
          actives = erase_actives id m keyed _ (next txn);
          rows = inserted_rows _ (next txn) db (keyed id txn e) f (ground arith) (given _ txn refl);
        })
      ]
    ]

  module _ (message : String) where
    pub fail_transaction-Gains : Gains id m (fail_transaction io id message m).1
    fail_transaction-Gains = elim (Option-cases (lookup id m.active)) [
      | inl e ↦ rw (fail_missing io id m message e) (Gains-refl id m keyed)
      | inr (txn, e) ↦ elim (Outcome-cases (insert_completed io (declined io message txn) m.db)) [
        | inl (x, f) ↦ rw (fail_err io id m message txn x e f) (
            Gains-put id m keyed (declined io message txn) (keyed id txn e)
              (old (in_memory txn e refl)))
        | inr (db, f) ↦ rw (fail_ok io id m message txn db e f) (record {
          grows = omega arith;
          at_most = omega arith;
          actives = gone_actives id m keyed _;
          rows =
              inserted_rows _ (declined io message txn) db (keyed id txn e) f refl
                (old (in_memory txn e refl));
        })
      ]
    ]
