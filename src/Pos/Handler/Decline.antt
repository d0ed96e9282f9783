-- ===== src/Pos/Handler/Decline.antt =====
-- A payment that the bank declines.
use termwire.Common.{ℕ, ◌≡◌, refl, String, str_eq_refl, List, [], none, some, arith}
use termwire.Go.Dict.{lookup, erase, lookup-erase}
use termwire.Message.Codec.{Codec}
use termwire.Message.Responses.{PaymentCompletionResponse}
use termwire.Pos.Db.{ok, Db, Row, row_of, find_row, add_row}
use termwire.Pos.Db.Laws.{find_row-add_row, insert_completed_new}
use termwire.Pos.Handler.Env.{Env, Handler, create_error_response}
use termwire.Pos.Handler.Payment.{decline_payment}
use termwire.Pos.Handler.Promise.{HoldsDeclined}
use termwire.Pos.Manager.{declined, fail_transaction}
use termwire.Pos.Manager.Branches.{fail_ok}
use termwire.Pos.Transaction.{Transaction}

-- The row of a declined transaction, whatever response it caches.
pub refusal-Holds :
    (env : Env) (txn : Transaction) (blob : List ℕ)
    → HoldsDeclined env txn
        (record (row_of (declined (env.call 11) "Payment declined by bank" txn)) {
          cached_response = blob;
        })
unfolding row_of
refusal-Holds env txn blob = record {
  same_id = refl;
  in_state = refl;
  same_amount = refl;
  same_currency = refl;
  same_bank = refl;
  same_application = refl;
  same_installments = refl;
  same_points = refl;
  same_loyalty = refl;
  has_card_amount = refl;
  has_confirmation = refl;
  has_auth = refl;
  has_receipt = refl;
  has_reason = refl;
  same_created = refl;
  has_completed = refl;
  in_no_batch = refl;
}

module _ (codec : Codec PaymentCompletionResponse) (env : Env) (h : Handler) (id : String)
    (txn : Transaction) (open_ : lookup id h.manager.active ≡ some txn) (same : txn.id ≡ id)
    (new : find_row id h.manager.db.rows ≡ none) (inserts : (env.call 11).fault 0 ≡ none) where
  abbrev pub refusal : Transaction
  refusal = declined (env.call 11) "Payment declined by bank" txn

  abbrev after : Db
  after = record (h.manager.db) { rows = add_row (row_of refusal) h.manager.db.rows }

  fails :
      fail_transaction (env.call 11) id "Payment declined by bank" h.manager
      ≡ (ok tt, record (h.manager) { active = erase id h.manager.active; db = after })
  fails =
      fail_ok (env.call 11) id h.manager "Payment declined by bank" txn after open_
        (insert_completed_new (env.call 11) refusal h.manager.db inserts (rw same new))

  pub decline_payment_records :
      ((decline_payment codec env id h).0
        ≡ create_error_response env "05" "Payment declined by issuer")
      × (find_row id (decline_payment codec env id h).1.manager.db.rows ≡ some (row_of refusal))
      × (lookup id (decline_payment codec env id h).1.manager.active ≡ none)
      × ((decline_payment codec env id h).1.manager.receipt_counter ≡ h.manager.receipt_counter)
  unfolding decline_payment row_of
  decline_payment_records = rw fails (
    refl,
    ground (
      arith,
      same,
      str_eq_refl id,
      find_row-add_row (row_of refusal) h.manager.db.rows id (rw same new),
    ),
    ground (arith, str_eq_refl id, lookup-erase id id h.manager.active),
    refl,
  )

  -- The bank declines a payment whose identifier is new to the database, and the statement that inserts
  -- its row does not fail. Then the terminal answers with error 05, the transaction is settled as
  -- failed in the database, in a row with its amounts and the reason, it is active no longer, and the
  -- receipt counter has not moved.
  pub decline_payment_new :
      ((decline_payment codec env id h).0
        ≡ create_error_response env "05" "Payment declined by issuer")
      × ((r : Row) × (find_row id (decline_payment codec env id h).1.manager.db.rows ≡ some r)
          × HoldsDeclined env txn r
          × (r.cached_response ≡ []))
      × (lookup id (decline_payment codec env id h).1.manager.active ≡ none)
      × ((decline_payment codec env id h).1.manager.receipt_counter ≡ h.manager.receipt_counter)
  unfolding row_of
  decline_payment_new =
      let (said, row, gone, counter) = decline_payment_records in
      (said, (row_of refusal, row, refusal-Holds env txn [], refl), gone, counter)
