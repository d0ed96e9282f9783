-- ===== src/Pos/Settled/Race.antt =====
-- A refund whose two statements another connection's void or refund comes between. VoidTransaction and
-- RefundTransaction do not take the manager's mutex.
use termwire.Common.{
  ℕ, ◌≤◌, ◌≡◌, ap, ◌∙◌, String, str_eq, str_eq_refl, if◌then◌else◌, none, some, arith,
}
use termwire.Message.Codec.{Codec}
use termwire.Message.Responses.{PaymentCompletionResponse}
use termwire.Pos.Db.{ok, Io, Row, find_row, scan_transaction}
use termwire.Pos.Manager.{Manager}
use termwire.Pos.Settled.{
  get_completed_transaction_by_id, void_transaction, refund_transaction, refund_refusal,
  write_refund, restate,
}
use termwire.Pos.Settled.Refund.{after_refund, refund_rows, refund_transaction_completed}
use termwire.Pos.Settled.Void.{after_void, void_transaction_completed}
use termwire.Pos.Transaction.{state_code, payment_completed, voided, refunded}

module _ (codec : Codec PaymentCompletionResponse) (io : Io) (id : String) where
  -- The second statement takes a row in whatever state.
  write_refund_ok :
      (m : Manager) (r : Row)
      → find_row id m.db.rows ≡ some r
      → io.fault 1 ≡ none
      → io.fault 2 ≡ none
      → write_refund codec io id m
        ≡ (ok (scan_transaction codec (restate refunded io.now r)), after_refund codec io id m)
  write_refund_ok m r h f g =
      unfold get_completed_transaction_by_id in
      ground (arith, refund_rows codec io id m id r h, str_eq_refl id)

  module _ (io' : Io) (m : Manager) (r : Row) (amount amount' : ℕ)
      (held : find_row id m.db.rows ≡ some r) (completed : r.state ≡ state_code payment_completed)
      (within : amount ≤ r.amount_cents) (within' : amount' ≤ r.amount_cents)
      (works : (k : ℕ) → io.fault k ≡ none) (works' : (k : ℕ) → io'.fault k ≡ none) where
    passes : refund_refusal codec io id amount m ≡ none
    passes = ground (arith, works 0)

    itself : (s : Row) → (if str_eq id id then some s else find_row id m.db.rows) ≡ some s
    itself s = ground (arith, str_eq_refl id)

    -- A transaction is completed, a refund is for no more than its amount, and no statement fails. The
    -- refund's first statement finds no reason to refuse. If another connection's void comes then, or
    -- another refund of no more than the amount, that one succeeds, and so does the refund's second
    -- statement after it: both registers are told of their success, for the one transaction, which
    -- goes from voided to refunded or is refunded twice.
    pub refund_transaction_raced :
        (refund_refusal codec io id amount m ≡ none)
        × (void_transaction codec io' id m
            ≡ (ok (scan_transaction codec (restate voided io'.now r)), after_void codec io' id m))
        × ((write_refund codec io id (after_void codec io' id m)).0
            ≡ ok (scan_transaction codec (restate refunded io.now (restate voided io'.now r))))
        × (refund_transaction codec io' id amount' m ≡ (
          ok (scan_transaction codec (restate refunded io'.now r)),
          after_refund codec io' id m,
        ))
        × ((write_refund codec io id (after_refund codec io' id m)).0
            ≡ ok (scan_transaction codec (restate refunded io.now (restate refunded io'.now r))))
    refund_transaction_raced =
        let (void, void_row) =
          void_transaction_completed codec io' id m id r held completed (works' 0) (works' 1) in
        let (refund, refund_row) =
          refund_transaction_completed codec io' id m id r amount' held completed within' (works' 0)
            (works' 1) (works' 2) in
        (
          passes,
          void,
          ap (λ x. x.0)
              (write_refund_ok (after_void codec io' id m) _ (void_row ∙ itself _) (works 1)
                (works 2)),
          refund,
          ap (λ x. x.0)
              (write_refund_ok (after_refund codec io' id m) _ (refund_row ∙ itself _) (works 1)
                (works 2)),
        )
