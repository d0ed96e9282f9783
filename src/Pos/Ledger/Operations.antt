-- ===== src/Pos/Ledger/Operations.antt =====
-- The manager's operations on the active transactions, each as a step of the ledger.
use termwire.Common.{
  u64, ℕ, ◌+◌, ◌≡◌, refl, subst, sym, Bool, String, inl, inr, List, arith, Option-cases,
}
use termwire.Go.Dict.{lookup}
use termwire.Go.Time.{Time}
use termwire.Pos.Card.{CardData}
use termwire.Pos.Db.{ok, Io, Row, Db, insert_completed, row_of}
use termwire.Pos.Db.Laws.{insert_completed_ok, Outcome-cases}
use termwire.Pos.Manager.Branches.{
  complete_missing, complete_ok, complete_err, fail_missing, fail_ok, fail_err,
}
use termwire.Pos.Ledger.{Grows, Grows-refl, Grows-trans, Grows-add_row}
use termwire.Pos.Manager.{
  Manager, settled, declined, store_counter, create_transaction, update_transaction_state,
  set_card_data, set_bank_selection, set_loyalty_points, complete_transaction, fail_transaction,
}
use termwire.Pos.Transaction.{Transaction, TransactionState}

-- A step from one manager to another.
pub record Extends (m m' : Manager) : Type 0 where
  pub grows : Grows m.db.rows m'.db.rows

pub Extends-refl : (m : Manager) → Extends m m
Extends-refl m = record { grows = Grows-refl m.db.rows }

pub Extends-trans : {a b c : Manager} → Extends a b → Extends b c → Extends a c
Extends-trans {a} {b} {c} p q = record {
  grows = Grows-trans a.db.rows b.db.rows c.db.rows p.grows q.grows;
}

pub Extends-to : {a b c : Manager} → Extends a b → c ≡ b → Extends a c
Extends-to {a} p e = subst (Extends a) (sym e) p

pub Extends-same : (m m' : Manager) → m'.db ≡ m.db → Extends m m'
Extends-same m m' e = record {
  grows = subst (λ (d : Db). Grows m.db.rows d.rows) (sym e) (Grows-refl m.db.rows);
}

module _ (io : Io) (m : Manager) where
  pub create_transaction-Extends :
      (t : Time) (id : String) (amount : ℕ) (currency : String)
      → Extends m (create_transaction io t id amount currency m).1
  unfolding create_transaction
  create_transaction-Extends t id amount currency = Extends-same m _ (ground arith)

  pub update_transaction_state-Extends :
      (id : String) (s : TransactionState) → Extends m (update_transaction_state io id s m).1
  unfolding update_transaction_state
  update_transaction_state-Extends id s = Extends-same m _ (ground arith)

  pub set_card_data-Extends :
      (id : String) (card : CardData) → Extends m (set_card_data io id card m).1
  unfolding set_card_data
  set_card_data-Extends id card = Extends-same m _ (ground arith)

  pub set_bank_selection-Extends :
      (id : String) (bank : ℕ) (aid : String) (n : ℕ)
      → Extends m (set_bank_selection io id bank aid n m).1
  unfolding set_bank_selection
  set_bank_selection-Extends id bank aid n = Extends-same m _ (ground arith)

  pub set_loyalty_points-Extends :
      (id : String) (b : Bool) (points amount : ℕ)
      → Extends m (set_loyalty_points io id b points amount m).1
  unfolding set_loyalty_points
  set_loyalty_points-Extends id b points amount = Extends-same m _ (ground arith)

  pub Extends-rows :
      (m' : Manager) {rows : List Row} → m'.db.rows ≡ rows → Grows m.db.rows rows → Extends m m'
  Extends-rows m' e g = record { grows = subst (Grows m.db.rows) (sym e) g }

  inserted :
      (txn : Transaction) (db : Db) → insert_completed io txn m.db ≡ ok db → Grows m.db.rows db.rows
  inserted txn db e =
      let (_, _, same) = insert_completed_ok io txn m.db db e in
      subst (λ (d : Db). Grows m.db.rows d.rows) (sym same) (Grows-add_row (row_of txn) m.db.rows)

  store_counter-rows : (n : ℕ) (db : Db) → (store_counter io n db).rows ≡ db.rows
  store_counter-rows n db = ground arith

  pub complete_transaction-Extends :
      (id confirmation auth : String) → Extends m (complete_transaction io id confirmation auth m).1
  complete_transaction-Extends id confirmation auth = elim (Option-cases (lookup id m.active)) [
    | inl e ↦ rw (complete_missing io id m confirmation auth e) (Extends-refl m)
    | inr (txn, e) ↦
        elim (Outcome-cases (
          insert_completed io (settled io confirmation auth (u64 (m.receipt_counter + 1)) txn)
            m.db)) [
              | inl (x, f) ↦
                  rw (complete_err io id m confirmation auth txn x e f)
                    (Extends-rows _ refl (Grows-refl m.db.rows))
              | inr (db, f) ↦
                  rw (complete_ok io id m confirmation auth txn db e f)
                    (Extends-rows _ (store_counter-rows _ db) (inserted _ db f))
            ]
  ]

  pub fail_transaction-Extends :
      (id message : String) → Extends m (fail_transaction io id message m).1
  fail_transaction-Extends id message = elim (Option-cases (lookup id m.active)) [
    | inl e ↦ rw (fail_missing io id m message e) (Extends-refl m)
    | inr (txn, e) ↦ elim (Outcome-cases (insert_completed io (declined io message txn) m.db)) [
      | inl (x, f) ↦
          rw (fail_err io id m message txn x e f) (Extends-rows _ refl (Grows-refl m.db.rows))
      | inr (db, f) ↦
          rw (fail_ok io id m message txn db e f) (Extends-rows _ refl (inserted _ db f))
    ]
  ]
