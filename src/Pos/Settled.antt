-- ===== src/Pos/Settled.antt =====
-- The operations of TransactionManager on the transactions in the database. `codec` is protobuf's
-- encoding of the response that a settled transaction caches.
pub mod Rows
pub mod Void
pub mod Refund
pub mod Race
use Prim.Native.String.{String, ◌++◌}
use termwire.Common.{
  ℕ, ◌&&◌, not, ltb, ◌==◌, str_eq, if◌then◌else◌, List, Option, none, some, length,
}
use termwire.Go.Fmt.{decimal}
use termwire.Go.Time.{Time, format_rfc3339}
use termwire.Message.Codec.{Codec}
use termwire.Message.Responses.{PaymentCompletionResponse}
use termwire.Pos.Db.{
  Outcome, ok, err, Io, Row, find_row, update_rows, select_rows, scan_transaction,
}
use termwire.Pos.Manager.{Manager, completed_not_found}
use termwire.Pos.Transaction.{
  Transaction, TransactionState, payment_completed, voided, refunded, state_code,
}

-- `UPDATE transactions SET … ` on the manager's database.
abbrev pub with_rows : List Row → Manager → Manager
with_rows rows m = record m { db = record (m.db) { rows = rows } }

-- `SET state = ?, last_updated = ?`
abbrev pub restate : TransactionState → Time → Row → Row
restate state now r = record r { state = state_code state; last_updated = format_rfc3339 now }

module _ (codec : Codec PaymentCompletionResponse) where
  -- A failing query and a missing row both give nil; the query is the statement number `k`.
  unfoldable pub get_completed_transaction_by_id : Io → ℕ → String → Manager → Option Transaction
  get_completed_transaction_by_id io k id m = elim (io.fault k) [
    | some _ ↦ none
    | none ↦ elim (find_row id m.db.rows) [ none ↦ none | some r ↦ some (scan_transaction codec r) ]
  ]

  unfoldable pub set_cached_response :
      Io → String → PaymentCompletionResponse → String → Manager → Outcome (Unit {0}) × Manager
  set_cached_response io id resp marshal_error m = elim (codec.marshal resp) [
    | none ↦ (err ("marshaling cached response: " ++ marshal_error), m)
    | some blob ↦ elim (io.fault 0) [
      | some e ↦ (err e, m)
      | none ↦ (
        ok tt,
        with_rows
            (update_rows (λ r. str_eq r.id id) (λ r. record r { cached_response = blob }) m.db.rows)
            m,
      )
    ]
  ]

  -- The row once more, after its state was written.
  abbrev retrieved : Io → ℕ → String → String → Manager → Outcome Transaction × Manager
  retrieved io k what id m = elim (get_completed_transaction_by_id io k id m) [
    | none ↦ (err ("failed to retrieve " ++ what ++ " transaction " ++ id), m)
    | some txn ↦ (ok txn, m)
  ]

  unfoldable pub void_transaction : Io → String → Manager → Outcome Transaction × Manager
  void_transaction io id m =
      let test = λ (r : Row). str_eq r.id id && r.state == state_code payment_completed in
      elim (io.fault 0) [
        | some e ↦ (err ("voiding transaction: " ++ e), m)
        | none ↦
            if length (select_rows test m.db.rows) == 0
            then (err (completed_not_found id), m)
            else retrieved io 1 "voided" id
                (with_rows (update_rows test (restate voided io.now) m.db.rows) m)
      ]

  -- A refund's first statement and the tests on what it reads: the error, if there is one.
  abbrev pub refund_refusal : Io → String → ℕ → Manager → Option String
  refund_refusal io id amount m = elim (io.fault 0) [
    | some _ ↦ some (completed_not_found id)
    | none ↦ elim (find_row id m.db.rows) [
      | none ↦ some (completed_not_found id)
      | some r ↦
          if not (r.state == state_code payment_completed)
          then some (completed_not_found id)
          else if ltb r.amount_cents amount
          then some (
              "refund amount "
              ++ decimal amount
              ++ " exceeds original transaction amount "
              ++ decimal r.amount_cents)
          else none
    ]
  ]

  -- Its second statement, which does not look at the state any more, and the row once more.
  abbrev pub write_refund : Io → String → Manager → Outcome Transaction × Manager
  write_refund io id m = elim (io.fault 1) [
    | some e ↦ (err ("refunding transaction: " ++ e), m)
    | none ↦
        retrieved io 2 "refunded" id
          (with_rows (update_rows (λ r. str_eq r.id id) (restate refunded io.now) m.db.rows) m)
  ]

  unfoldable pub refund_transaction : Io → String → ℕ → Manager → Outcome Transaction × Manager
  refund_transaction io id amount m = elim (refund_refusal io id amount m) [
    | some e ↦ (err e, m)
    | none ↦ write_refund io id m
  ]
