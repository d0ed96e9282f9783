-- ===== src/Pos/Handler/Approval.antt =====
-- A payment that the bank accepts: what the terminal answers, what it records, and what it answers
-- when the register asks again.
use Prim.Native.String.{String}
use termwire.Common.{ℕ, ◌+◌, u64, ◌≡◌, refl, ap, str_eq, str_eq_refl, List, ◌∷◌, none, some, arith}
use termwire.Go.Dict.{lookup, insert, erase, lookup-erase}
use termwire.Message.{payment_completion_response}
use termwire.Message.Codec.{Codec}
use termwire.Message.Requests.{
  PaymentCompletionRequest, PaymentProcessingRequest, LoyaltyPointsConfirmation,
}
use termwire.Message.Responses.{PaymentCompletionResponse}
use termwire.Pos.Db.{
  Outcome, ok, Io, Db, Row, row_of, find_row, add_row, update_rows, scan_transaction,
}
use termwire.Pos.Db.Laws.{find_row-add_row, find_row-update_rows, insert_completed_new}
use termwire.Pos.Handler.Env.{create_error_response, Env, Handler, answer, with_manager}
use termwire.Pos.Handler.Payment.{
  completion, accept_payment, cached, handle_payment_completion, handle_payment_processing,
  handle_loyalty_confirmation,
}
pub use termwire.Pos.Handler.Promise.{confirmation_code, auth_code}
use termwire.Pos.Handler.Promise.{next_receipt, GrantsPayment, HoldsCompleted}
use termwire.Pos.Manager.{
  get_transaction, not_found, Manager, settled, store_counter, complete_transaction,
}
use termwire.Pos.Manager.Branches.{complete_ok}
use termwire.Pos.Settled.{get_completed_transaction_by_id, set_cached_response, with_rows}
use termwire.Pos.Transaction.{Transaction}

-- The database forgets nothing that the response to a payment is made of.
pub completion-scan_transaction :
    (codec : Codec PaymentCompletionResponse) (confirmation auth : String) (txn : Transaction)
    → completion confirmation auth (scan_transaction codec (row_of txn))
      ≡ completion confirmation auth txn
unfolding scan_transaction row_of
completion-scan_transaction codec confirmation auth txn = ground arith

abbrev pub final : Env → Handler → Transaction → Transaction
final env h txn =
    settled (env.call 11) (confirmation_code env) (auth_code env)
      (u64 (h.manager.receipt_counter + 1)) txn

abbrev pub response : Env → Handler → Transaction → PaymentCompletionResponse
response env h txn = completion (confirmation_code env) (auth_code env) (final env h txn)

pub response-Grants :
    (env : Env) (h : Handler) (txn : Transaction)
    → GrantsPayment env (next_receipt h) txn (response env h txn)
response-Grants env h txn = record {
  has_code = refl;
  has_confirmation = refl;
  has_auth = refl;
  has_receipt = refl;
  in_currency = refl;
  has_card_amount = refl;
  has_loyalty_amount = refl;
  has_installments = refl;
  has_points = ground arith;
}

-- The row of a transaction that is settled as completed, whatever response it caches.
pub final-Holds :
    (env : Env) (h : Handler) (txn : Transaction) (blob : List ℕ)
    → HoldsCompleted env
        (next_receipt h)
        txn
        (record (row_of (final env h txn)) { cached_response = blob })
unfolding row_of
final-Holds env h txn blob = record {
  same_id = refl;
  in_state = refl;
  same_amount = refl;
  same_currency = refl;
  same_bank = refl;
  same_application = refl;
  same_installments = refl;
  same_points = refl;
  same_loyalty = refl;
  has_card_amount = refl;
  has_confirmation = refl;
  has_auth = refl;
  has_receipt = refl;
  has_reason = refl;
  same_created = refl;
  has_completed = refl;
  in_no_batch = refl;
}

rows-store_counter : (io : Io) (n : ℕ) (db : Db) → (store_counter io n db).rows ≡ db.rows
rows-store_counter io n db = ground arith

module _ (codec : Codec PaymentCompletionResponse) (env : Env) (id : String) (h : Handler) where
  pub accept_found :
      (m : Manager) (t : Transaction) (p : PaymentCompletionResponse) (m' : Manager)
      {r : Outcome (Unit {0})}
      → complete_transaction (env.call 11) id (confirmation_code env) (auth_code env) h.manager
        ≡ (r, m)
      → get_completed_transaction_by_id codec (env.call 12) 0 id m ≡ some t
      → completion (confirmation_code env) (auth_code env) t ≡ p
      → (set_cached_response codec (env.call 13) t.id p env.marshal_error m).1 ≡ m'
      → accept_payment codec env id h
        ≡ (answer env (payment_completion_response p), with_manager m' h)
  unfolding accept_payment
  accept_found m t p m' e f g k = ground arith

module _ (codec : Codec PaymentCompletionResponse) (env : Env) (h : Handler) (id : String)
    (txn : Transaction) (b : ℕ) (blob : List ℕ) (open_ : lookup id h.manager.active ≡ some txn)
    (same : txn.id ≡ id) (new : find_row id h.manager.db.rows ≡ none)
    (inserts : (env.call 11).fault 0 ≡ none) (reads : (env.call 12).fault 0 ≡ none)
    (updates : (env.call 13).fault 0 ≡ none)
    (marshals : codec.marshal (response env h txn) ≡ some (b ∷ blob)) where
  abbrev done : Manager
  done = record (h.manager) {
    active = erase id (insert id (final env h txn) h.manager.active);
    receipt_counter = u64 (h.manager.receipt_counter + 1);
    db =
        store_counter (env.call 11) (u64 (h.manager.receipt_counter + 1))
          (record (h.manager.db) { rows = add_row (row_of (final env h txn)) h.manager.db.rows });
  }

  completes :
      complete_transaction (env.call 11) id (confirmation_code env) (auth_code env) h.manager
      ≡ (ok tt, done)
  completes =
      complete_ok (env.call 11) id h.manager (confirmation_code env) (auth_code env) txn _ open_
        (insert_completed_new (env.call 11) (final env h txn) h.manager.db inserts (rw same new))

  found : find_row id done.db.rows ≡ some (row_of (final env h txn))
  unfolding row_of
  found = ground (
    arith,
    rows-store_counter (env.call 11) (u64 (h.manager.receipt_counter + 1))
        (record (h.manager.db) { rows = add_row (row_of (final env h txn)) h.manager.db.rows }),
    find_row-add_row (row_of (final env h txn)) h.manager.db.rows id (rw same new),
    str_eq_refl id,
    same,
  )

  approved : accept_payment codec env id h ≡ (
    answer env (payment_completion_response (response env h txn)),
    with_manager
        (with_rows
          (update_rows
            (λ r. str_eq r.id id)
            (λ r. record r { cached_response = b ∷ blob })
            done.db.rows)
          done)
        h,
  )
  approved =
      accept_found codec env id h done (scan_transaction codec (row_of (final env h txn)))
        (response env h txn) _ completes
        (unfold get_completed_transaction_by_id in ground (arith, found))
        (completion-scan_transaction codec (confirmation_code env) (auth_code env)
          (final env h txn))
        (unfold set_cached_response scan_transaction row_of in ground arith)

  cached_row :
      find_row id (accept_payment codec env id h).1.manager.db.rows
      ≡ some (record (row_of (final env h txn)) { cached_response = b ∷ blob })
  unfolding row_of
  cached_row = rw approved (
      ground (
        arith,
        found,
        str_eq_refl id,
        same,
        find_row-update_rows (λ r. str_eq r.id id) (λ r. record r { cached_response = b ∷ blob })
            done.db.rows id (λ r. refl),
      ))

  left_active : lookup id (accept_payment codec env id h).1.manager.active ≡ none
  left_active = rw approved (
      ground
        (arith, str_eq_refl id, lookup-erase id id (insert id (final env h txn) h.manager.active)))

  pub accept_payment_records :
      ((accept_payment codec env id h).0
        ≡ answer env (payment_completion_response (response env h txn)))
      × (find_row id (accept_payment codec env id h).1.manager.db.rows
          ≡ some (record (row_of (final env h txn)) { cached_response = b ∷ blob }))
      × (lookup id (accept_payment codec env id h).1.manager.active ≡ none)
      × ((accept_payment codec env id h).1.manager.receipt_counter
          ≡ u64 (h.manager.receipt_counter + 1))
  accept_payment_records = (
    ap (λ x. x.0) approved,
    cached_row,
    left_active,
    ap (λ x. x.1.manager.receipt_counter) approved,
  )

  -- The bank accepts a payment whose identifier is new to the database, the statements that insert,
  -- read and update its row do not fail, and the encoding of its response is not empty. Then the
  -- terminal answers with code 00, its codes, the next receipt number, the currency, the amounts and
  -- the installments of the transaction and the points that the card has left; the transaction is
  -- settled as completed in the database, in a row with its amounts, the codes and the receipt number
  -- of the answer and that encoding; it is active no longer, and the receipt counter has gone one on.
  pub accept_payment_new :
      ((p : PaymentCompletionResponse) × ((accept_payment codec env id h).0
          ≡ answer env (payment_completion_response p))
        × (codec.marshal p ≡ some (b ∷ blob))
        × GrantsPayment env (next_receipt h) txn p)
      × ((r : Row) × (find_row id (accept_payment codec env id h).1.manager.db.rows ≡ some r)
          × HoldsCompleted env (next_receipt h) txn r
          × (r.cached_response ≡ b ∷ blob))
      × (lookup id (accept_payment codec env id h).1.manager.active ≡ none)
      × ((accept_payment codec env id h).1.manager.receipt_counter
          ≡ u64 (h.manager.receipt_counter + 1))
  accept_payment_new =
      let (said, row, gone, counter) = accept_payment_records in
      (
        (response env h txn, said, marshals, response-Grants env h txn),
        (_, row, final-Holds env h txn (b ∷ blob), refl),
        gone,
        counter,
      )

  is_cached :
      (env' : Env)
      → (env'.call 3).fault 0 ≡ none
      → cached codec env' id (accept_payment codec env id h).1.manager ≡ some (response env h txn)
  unfolding cached get_completed_transaction_by_id scan_transaction
  is_cached env' reads' =
      ground (arith, cached_row, codec.unmarshal-marshal (response env h txn) (b ∷ blob) marshals)

  -- The bank has accepted a payment whose identifier is new to the database, the statements that
  -- insert, read and update its row do not fail, and the encoding of its response is not empty.
  -- Then the register that asks to process this payment once more gets the response that it got,
  -- whatever else it asks for, if the query for it does not fail, and the terminal's state stays as
  -- it is.
  pub handle_payment_processing_again :
      (env' : Env) (req : PaymentProcessingRequest)
      → req.transaction_id ≡ id
      → (env'.call 3).fault 0 ≡ none
      → handle_payment_processing codec env' req (accept_payment codec env id h).1 ≡ (
        answer env' (payment_completion_response (response env h txn)),
        (accept_payment codec env id h).1,
      )
  unfolding handle_payment_processing
  handle_payment_processing_again env' req is_id reads' = ground (arith, is_cached env' reads')

  -- The bank has accepted a payment whose identifier is new to the database, the statements that
  -- insert, read and update its row do not fail, and the encoding of its response is not empty.
  -- Then the register that confirms loyalty points for this payment gets the response that it got,
  -- whatever the points, if the query for it does not fail, and the terminal's state stays as it
  -- is.
  pub handle_loyalty_confirmation_again :
      (env' : Env) (req : LoyaltyPointsConfirmation)
      → req.transaction_id ≡ id
      → (env'.call 3).fault 0 ≡ none
      → handle_loyalty_confirmation codec env' req (accept_payment codec env id h).1 ≡ (
        answer env' (payment_completion_response (response env h txn)),
        (accept_payment codec env id h).1,
      )
  unfolding handle_loyalty_confirmation
  handle_loyalty_confirmation_again env' req is_id reads' = ground (arith, is_cached env' reads')

  -- The bank has accepted a payment whose identifier is new to the database, the statements that
  -- insert, read and update its row do not fail, and the encoding of its response is not empty. Then
  -- the register that sends its completion request once more gets error 02, not the response that it
  -- got, and the terminal's state stays as it is.
  pub handle_payment_completion_again :
      (env' : Env) (req : PaymentCompletionRequest)
      → req.transaction_id ≡ id
      → handle_payment_completion codec env' req (accept_payment codec env id h).1
        ≡ (create_error_response env' "02" (not_found id), (accept_payment codec env id h).1)
  unfolding handle_payment_completion get_transaction
  handle_payment_completion_again env' req is_id = ground (arith, left_active)
