-- ===== src/Pos/Settled/Refund.antt =====
-- RefundTransaction: which transaction it takes, what it writes, and that it takes none a second time.
use mathlib.Core.Option
use termwire.Common.{
  ℕ, ◌≤◌, ◌≡◌, refl, String, str_eq, str_eq_refl, str_eq_iff, if◌then◌else◌, [], none, some, inl,
  inr, arith, Option-cases,
}
use termwire.Message.Codec.{Codec}
use termwire.Message.Responses.{PaymentCompletionResponse}
use termwire.Pos.Db.{ok, err, Io, Row, find_row, update_rows, select_rows, scan_transaction}
use termwire.Pos.Db.Laws.{find_row-update_rows, find_row-id}
use termwire.Pos.Manager.{Manager, completed_not_found}
use termwire.Pos.Settled.{
  get_completed_transaction_by_id, void_transaction, refund_transaction, with_rows, restate,
}
use termwire.Pos.Transaction.{Transaction, state_code, payment_completed, refunded}
use termwire.Pos.Settled.Rows.{is_completed, select_rows-update_rows, refund_refused}

module _ (codec : Codec PaymentCompletionResponse) (io : Io) (id : String) (m : Manager) where
  abbrev pub after_refund : Manager
  after_refund = with_rows (update_rows (λ r. str_eq r.id id) (restate refunded io.now) m.db.rows) m

  pub refund_rows :
      (k : String) (r : Row)
      → find_row id m.db.rows ≡ some r
      → find_row k after_refund.db.rows
        ≡ (if str_eq id k then some (restate refunded io.now r) else find_row k m.db.rows)
  refund_rows k r h = elim (Option-cases (find_row k m.db.rows)) [
    | inl e ↦ ground (arith, kept, str_eq_iff id k)
    | inr (q, e) ↦
        ground (arith, kept, find_row-id k m.db.rows q e, str_eq_iff id k, str_eq_iff q.id id)
  ]
    where
      kept :
          find_row k after_refund.db.rows
          ≡ Option.map
              (λ q. if str_eq q.id id then restate refunded io.now q else q)
              (find_row k m.db.rows)
      kept =
          find_row-update_rows (λ q. str_eq q.id id) (restate refunded io.now) m.db.rows k
            (λ q. refl)

  -- RefundTransaction takes a transaction that the database holds as completed, for an amount up to
  -- its own, if no statement fails: it gives the transaction back as refunded, and the row of each
  -- identifier is the old one, but the transaction's own, which is refunded as a whole, whatever the
  -- amount, with the time of the call.
  pub refund_transaction_completed :
      (k : String) (r : Row) (amount : ℕ)
      → find_row id m.db.rows ≡ some r
      → r.state ≡ state_code payment_completed
      → amount ≤ r.amount_cents
      → io.fault 0 ≡ none
      → io.fault 1 ≡ none
      → io.fault 2 ≡ none
      → (refund_transaction codec io id amount m
          ≡ (ok (scan_transaction codec (restate refunded io.now r)), after_refund))
        × (find_row k after_refund.db.rows
            ≡ (if str_eq id k then some (restate refunded io.now r) else find_row k m.db.rows))
  refund_transaction_completed k r amount h s le f g j = (
    (unfold refund_transaction get_completed_transaction_by_id in
        ground (arith, refund_rows id r h, str_eq_refl id)),
    refund_rows k r h,
  )

  refunded_from :
      (amount : ℕ) (t : Transaction) (m' : Manager) (r : Row)
      → refund_transaction codec io id amount m ≡ (ok t, m')
      → find_row id m.db.rows ≡ some r
      → (r.state ≡ state_code payment_completed) × (amount ≤ r.amount_cents) × (m' ≡ after_refund)
  unfolding refund_transaction
  refunded_from amount t m' r e h =
      elim (Option-cases (get_completed_transaction_by_id codec io 2 id after_refund)) [
        | inl g ↦ (ground arith, ground arith, ground arith)
        | inr (u, g) ↦ (ground arith, ground arith, ground arith)
      ]

  missing :
      (amount : ℕ) (t : Transaction) (m' : Manager)
      → refund_transaction codec io id amount m ≡ (ok t, m')
      → find_row id m.db.rows ≡ none
      → ⊥
  unfolding refund_transaction
  missing amount t m' e h = ground arith

  refund_left :
      (r : Row)
      → find_row id after_refund.db.rows ≡ some r
      → ¬ (r.state ≡ state_code payment_completed)
  refund_left r h = elim (Option-cases (find_row id m.db.rows)) [
    | inl e ↦ ground (arith, kept)
    | inr (q, e) ↦ ground (arith, refund_rows id q e, str_eq_refl id)
  ]
    where
      kept :
          find_row id after_refund.db.rows
          ≡ Option.map
              (λ q. if str_eq q.id id then restate refunded io.now q else q)
              (find_row id m.db.rows)
      kept =
          find_row-update_rows (λ q. str_eq q.id id) (restate refunded io.now) m.db.rows id
            (λ q. refl)

  refund_none_left : select_rows (is_completed id) after_refund.db.rows ≡ []
  refund_none_left =
      select_rows-update_rows (is_completed id) (λ q. str_eq q.id id) (restate refunded io.now)
        m.db.rows (λ r. ground arith)

  -- A refund that succeeds was for a completed transaction and for no more than its amount, and
  -- neither a void nor a second refund of it, of any amount, succeeds, if their first statements do
  -- not fail: both give the error that no completed transaction is found, and change nothing.
  pub refund_transaction_again :
      (amount amount' : ℕ) (t : Transaction) (m' : Manager) (io' : Io)
      → refund_transaction codec io id amount m ≡ (ok t, m')
      → io'.fault 0 ≡ none
      → ((r : Row) × (find_row id m.db.rows ≡ some r)
          × (r.state ≡ state_code payment_completed)
          × (amount ≤ r.amount_cents))
        × (refund_transaction codec io' id amount' m' ≡ (err (completed_not_found id), m'))
        × (void_transaction codec io' id m' ≡ (err (completed_not_found id), m'))
  refund_transaction_again amount amount' t m' io' e f =
      elim (Option-cases (find_row id m.db.rows)) [
        | inl h ↦ absurd (missing amount t m' e h)
        | inr (r, h) ↦
            let (completed, le, is_after) = refunded_from amount t m' r e h in
            (
              (r, h, completed, le),
              rw is_after (refund_refused codec io' id after_refund amount' refund_left),
              rw is_after (unfold void_transaction in ground (arith, refund_none_left)),
            )
      ]
