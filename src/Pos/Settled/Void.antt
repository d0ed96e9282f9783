-- ===== src/Pos/Settled/Void.antt =====
-- VoidTransaction: which transaction it takes, what it writes, and that it takes none a second time.
use mathlib.Core.Option
use termwire.Common.{
  ℕ, ◌≡◌, refl, String, str_eq, str_eq_refl, str_eq_iff, if◌then◌else◌, [], none, some, inl, inr,
  arith, Option-cases,
}
use termwire.Message.Codec.{Codec}
use termwire.Message.Responses.{PaymentCompletionResponse}
use termwire.Pos.Db.{ok, err, Io, Row, find_row, update_rows, select_rows, scan_transaction}
use termwire.Pos.Db.Laws.{find_row-update_rows, find_row-id}
use termwire.Pos.Manager.{Manager, completed_not_found}
use termwire.Pos.Settled.{
  get_completed_transaction_by_id, void_transaction, refund_transaction, with_rows, restate,
}
use termwire.Pos.Transaction.{Transaction, state_code, payment_completed, voided}
use termwire.Pos.Settled.Rows.{
  is_completed, select_rows-found, select_rows-update_rows, refund_refused,
}

module _ (codec : Codec PaymentCompletionResponse) (io : Io) (id : String) (m : Manager) where
  abbrev pub after_void : Manager
  after_void = with_rows (update_rows (is_completed id) (restate voided io.now) m.db.rows) m

  void_ok :
      (r : Row)
      → find_row id m.db.rows ≡ some r
      → r.state ≡ state_code payment_completed
      → io.fault 0 ≡ none
      → io.fault 1 ≡ none
      → find_row id after_void.db.rows ≡ some (restate voided io.now r)
      → void_transaction codec io id m
        ≡ (ok (scan_transaction codec (restate voided io.now r)), after_void)
  void_ok r h s f g e =
      unfold void_transaction get_completed_transaction_by_id in
      ground (arith, select_rows-found id m.db.rows r h s)

  void_rows :
      (k : String) (r : Row)
      → find_row id m.db.rows ≡ some r
      → r.state ≡ state_code payment_completed
      → find_row k after_void.db.rows
        ≡ (if str_eq id k then some (restate voided io.now r) else find_row k m.db.rows)
  void_rows k r h s = elim (Option-cases (find_row k m.db.rows)) [
    | inl e ↦ ground (arith, keeps k, str_eq_iff id k)
    | inr (q, e) ↦
        ground (arith, keeps k, find_row-id k m.db.rows q e, str_eq_iff id k, str_eq_iff q.id id)
  ]
    where
      keeps :
          (k : String)
          → find_row k after_void.db.rows
            ≡ Option.map
                (λ q. if is_completed id q then restate voided io.now q else q)
                (find_row k m.db.rows)
      keeps k =
          find_row-update_rows (is_completed id) (restate voided io.now) m.db.rows k (λ q. refl)

  -- VoidTransaction takes a transaction that the database holds as completed, if no statement fails:
  -- it gives the transaction back as voided, and the row of each identifier is the old one, but the
  -- transaction's own, which is voided with the time of the call.
  pub void_transaction_completed :
      (k : String) (r : Row)
      → find_row id m.db.rows ≡ some r
      → r.state ≡ state_code payment_completed
      → io.fault 0 ≡ none
      → io.fault 1 ≡ none
      → (void_transaction codec io id m
          ≡ (ok (scan_transaction codec (restate voided io.now r)), after_void))
        × (find_row k after_void.db.rows
            ≡ (if str_eq id k then some (restate voided io.now r) else find_row k m.db.rows))
  void_transaction_completed k r h s f g =
      (void_ok r h s f g (ground (arith, void_rows id r h s, str_eq_refl id)), void_rows k r h s)

  void_changed :
      (t : Transaction) (m' : Manager)
      → void_transaction codec io id m ≡ (ok t, m')
      → m' ≡ after_void
  unfolding void_transaction
  void_changed t m' e =
      elim (Option-cases (get_completed_transaction_by_id codec io 1 id after_void)) [
        | inl g ↦ ground arith
        | inr (u, g) ↦ ground arith
      ]

  none_left : select_rows (is_completed id) after_void.db.rows ≡ []
  none_left =
      select_rows-update_rows (is_completed id) (is_completed id) (restate voided io.now) m.db.rows
        (λ r. ground arith)

  left :
      (r : Row)
      → find_row id after_void.db.rows ≡ some r
      → ¬ (r.state ≡ state_code payment_completed)
  left r h = elim (Option-cases (find_row id m.db.rows)) [
    | inl e ↦ ground (arith, kept)
    | inr (q, e) ↦ ground (arith, kept, find_row-id id m.db.rows q e, str_eq_iff q.id id)
  ]
    where
      kept :
          find_row id after_void.db.rows
          ≡ Option.map
              (λ q. if is_completed id q then restate voided io.now q else q)
              (find_row id m.db.rows)
      kept = find_row-update_rows (is_completed id) (restate voided io.now) m.db.rows id (λ q. refl)

  -- After VoidTransaction has given a transaction back, neither a void nor a refund of it succeeds,
  -- if their first statements do not fail: both calls give the error that no completed transaction
  -- is found, whatever the amount, and change nothing.
  pub void_transaction_again :
      (t : Transaction) (m' : Manager) (io' : Io) (amount : ℕ)
      → void_transaction codec io id m ≡ (ok t, m')
      → io'.fault 0 ≡ none
      → (void_transaction codec io' id m' ≡ (err (completed_not_found id), m'))
        × (refund_transaction codec io' id amount m' ≡ (err (completed_not_found id), m'))
  void_transaction_again t m' io' amount e f = rw (void_changed t m' e) (
    unfold void_transaction in ground (arith, none_left),
    refund_refused codec io' id after_void amount left,
  )
