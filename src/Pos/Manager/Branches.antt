-- ===== src/Pos/Manager/Branches.antt =====
-- CompleteTransaction and FailTransaction, branch by branch.
use termwire.Common.{ℕ, ◌+◌, u64, ◌≡◌, String, none, some, arith}
use Prim.Native.String.{◌++◌}
use termwire.Go.Dict.{lookup, insert, erase}
use termwire.Pos.Db.{ok, err, Io, Db, insert_completed}
use termwire.Pos.Manager.{
  Manager, not_found, settled, declined, store_counter, put, complete_transaction, fail_transaction,
}
use termwire.Pos.Transaction.{Transaction}

module _ (io : Io) (id : String) (m : Manager) where
  module _ (confirmation auth : String) where
    pub complete_missing :
        lookup id m.active ≡ none
        → complete_transaction io id confirmation auth m ≡ (err (not_found id), m)
    unfolding complete_transaction
    complete_missing e = ground arith

    abbrev pub counted : ℕ
    counted = u64 (m.receipt_counter + 1)

    pub complete_ok :
        (txn : Transaction) (db : Db)
        → lookup id m.active ≡ some txn
        → insert_completed io (settled io confirmation auth counted txn) m.db ≡ ok db
        → complete_transaction io id confirmation auth m ≡ (
          ok tt,
          record m {
            active = erase id (insert id (settled io confirmation auth counted txn) m.active);
            receipt_counter = counted;
            db = store_counter io counted db;
          },
        )
    unfolding complete_transaction
    complete_ok txn db e f = ground arith

    pub complete_err :
        (txn : Transaction) (x : String)
        → lookup id m.active ≡ some txn
        → insert_completed io (settled io confirmation auth counted txn) m.db ≡ err x
        → complete_transaction io id confirmation auth m ≡ (
          err ("persisting transaction: " ++ x),
          record m {
            active = insert id (settled io confirmation auth counted txn) m.active;
            receipt_counter = counted;
          },
        )
    unfolding complete_transaction
    complete_err txn x e f = ground arith

  module _ (message : String) where
    pub fail_missing :
        lookup id m.active ≡ none → fail_transaction io id message m ≡ (err (not_found id), m)
    unfolding fail_transaction
    fail_missing e = ground arith

    pub fail_ok :
        (txn : Transaction) (db : Db)
        → lookup id m.active ≡ some txn
        → insert_completed io (declined io message txn) m.db ≡ ok db
        → fail_transaction io id message m
          ≡ (ok tt, record m { active = erase id m.active; db = db })
    unfolding fail_transaction
    fail_ok txn db e f = ground arith

    pub fail_err :
        (txn : Transaction) (x : String)
        → lookup id m.active ≡ some txn
        → insert_completed io (declined io message txn) m.db ≡ err x
        → fail_transaction io id message m
          ≡ (err ("persisting failed transaction: " ++ x), put id (declined io message txn) m)
    unfolding fail_transaction
    fail_err txn x e f = ground arith
