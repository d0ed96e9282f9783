-- ===== src/Pos/Handler/Race.antt =====
-- Two requests for one payment that are both in the pause of processPayment, as after a retry over a
-- second connection: the one that ends later finds the transaction settled.
use termwire.Common.{
  ◌+◌, u64, ◌≡◌, refl, ap, ◌∙◌, String, str_eq, str_eq_refl, ℕ, List, ◌∷◌, none, some, arith,
}
use termwire.Go.Dict.{lookup}
use termwire.Message.{payment_completion_response}
use termwire.Message.Codec.{Codec}
use termwire.Message.Responses.{PaymentCompletionResponse}
use termwire.Pos.Db.{Row, find_row, update_rows, row_of, scan_transaction}
use termwire.Pos.Db.Laws.{find_row-update_rows}
use termwire.Pos.Handler.Approval.{
  confirmation_code, auth_code, final, response, accept_found, accept_payment_records,
  completion-scan_transaction,
}
use termwire.Pos.Handler.Promise.{next_receipt, GrantsPayment, HoldsDeclined}
use termwire.Pos.Handler.Decline.{refusal-Holds, decline_payment_records}
use termwire.Pos.Handler.Env.{Env, Handler, answer, with_manager, create_error_response}
use termwire.Pos.Handler.Payment.{completion, accept_payment, decline_payment}
use termwire.Pos.Manager.{declined}
use termwire.Pos.Manager.Branches.{complete_missing, fail_missing}
use termwire.Pos.Settled.{get_completed_transaction_by_id, set_cached_response, with_rows}
use termwire.Pos.Transaction.{Transaction}

module _ (codec : Codec PaymentCompletionResponse) (env : Env) (h : Handler) (id : String)
    (gone : lookup id h.manager.active ≡ none) where
  module _ (r : Row) (blob : List ℕ) (settled : find_row id h.manager.db.rows ≡ some r)
      (reads : (env.call 12).fault 0 ≡ none) (updates : (env.call 13).fault 0 ≡ none)
      (marshals : codec.marshal
          (completion (confirmation_code env) (auth_code env) (scan_transaction codec r))
        ≡ some blob) where
    abbrev second : PaymentCompletionResponse
    second = completion (confirmation_code env) (auth_code env) (scan_transaction codec r)

    answered : accept_payment codec env id h ≡ (
      answer env (payment_completion_response second),
      with_manager
          (with_rows
            (update_rows
              (λ q. str_eq q.id r.id)
              (λ q. record q { cached_response = blob })
              h.manager.db.rows)
            h.manager)
          h,
    )
    answered =
        accept_found codec env id h h.manager (scan_transaction codec r) second _
          (complete_missing (env.call 11) id h.manager (confirmation_code env) (auth_code env) gone)
          (unfold get_completed_transaction_by_id in ground arith) refl
          (unfold set_cached_response scan_transaction in ground arith)

    recorded :
        find_row id (accept_payment codec env id h).1.manager.db.rows
        ≡ some (record r { cached_response = blob })
    recorded = rw answered (
        ground (
          arith,
          str_eq_refl r.id,
          find_row-update_rows (λ q. str_eq q.id r.id) (λ q. record q { cached_response = blob })
              h.manager.db.rows id (λ q. refl),
        ))

    -- An accepted payment whose transaction was settled during the pause.
    pub accept_settled :
        ((accept_payment codec env id h).0 ≡ answer env (payment_completion_response second))
        × (find_row id (accept_payment codec env id h).1.manager.db.rows
            ≡ some (record r { cached_response = blob }))
        × ((accept_payment codec env id h).1.manager.receipt_counter ≡ h.manager.receipt_counter)
    accept_settled = (ap (λ x. x.0) answered, recorded, rw answered refl)

  -- A declined payment whose transaction was settled during the pause.
  pub decline_settled :
      decline_payment codec env id h
      ≡ (create_error_response env "05" "Payment declined by issuer", h)
  unfolding decline_payment
  decline_settled =
      rw (fail_missing (env.call 11) id h.manager "Payment declined by bank" gone) refl

-- What the response is made of does not change with the cached one.
completion-cached :
    (codec : Codec PaymentCompletionResponse) (confirmation auth : String) (txn : Transaction)
    (blob : List ℕ)
    → completion confirmation auth
        (scan_transaction codec (record (row_of txn) { cached_response = blob }))
      ≡ completion confirmation auth txn
unfolding scan_transaction row_of
completion-cached codec confirmation auth txn blob = ground arith

-- What the second of two accepted payments is answered.
abbrev pub second_response : Env → Env → Handler → Transaction → PaymentCompletionResponse
second_response env env' h txn =
    completion (confirmation_code env') (auth_code env') (final env h txn)

pub second_response-Grants :
    (env env' : Env) (h : Handler) (txn : Transaction)
    → GrantsPayment env' (next_receipt h) txn (second_response env env' h txn)
second_response-Grants env env' h txn = record {
  has_code = refl;
  has_confirmation = refl;
  has_auth = refl;
  has_receipt = refl;
  in_currency = refl;
  has_card_amount = refl;
  has_loyalty_amount = refl;
  has_installments = refl;
  has_points = ground arith;
}

module _ (codec : Codec PaymentCompletionResponse) (env env' : Env) (h : Handler) (id : String)
    (txn : Transaction) (open_ : lookup id h.manager.active ≡ some txn) (same : txn.id ≡ id)
    (new : find_row id h.manager.db.rows ≡ none) (inserts : (env.call 11).fault 0 ≡ none)
    (reads' : (env'.call 12).fault 0 ≡ none) (updates' : (env'.call 13).fault 0 ≡ none)
    (blob' : List ℕ) where
  module _ (b : ℕ) (blob : List ℕ) (reads : (env.call 12).fault 0 ≡ none)
      (updates : (env.call 13).fault 0 ≡ none)
      (marshals : codec.marshal (response env h txn) ≡ some (b ∷ blob)) where
    abbrev accepted : Handler
    accepted = (accept_payment codec env id h).1

    first :
        (find_row id accepted.manager.db.rows
          ≡ some (record (row_of (final env h txn)) { cached_response = b ∷ blob }))
        × (lookup id accepted.manager.active ≡ none)
        × (accepted.manager.receipt_counter ≡ u64 (h.manager.receipt_counter + 1))
    first =
        let (_, row, gone, counter) =
          accept_payment_records codec env h id txn b blob open_ same new inserts reads updates
            marshals in
        (row, gone, counter)

    -- Two requests for one payment are in their pauses, its identifier is new to the database, the bank
    -- accepts for the one that ends first, and no statement fails. If the bank accepts for the other
    -- one too, its answer has code 00, the one receipt number and the amounts, but a confirmation
    -- code and an authorization code of its own, which the row does not get: the row keeps those of
    -- the first answer and caches the second answer. If the bank declines for the other one, its answer
    -- is error 05 and the payment stays settled as completed.
    pub accept_payment_raced :
        codec.marshal (second_response env env' h txn) ≡ some blob'
        → ((accept_payment codec env' id accepted).0
            ≡ answer env' (payment_completion_response (second_response env env' h txn)))
          × (find_row id (accept_payment codec env' id accepted).1.manager.db.rows
              ≡ some (record (row_of (final env h txn)) { cached_response = blob' }))
          × ((accept_payment codec env' id accepted).1.manager.receipt_counter
              ≡ u64 (h.manager.receipt_counter + 1))
          × (decline_payment codec env' id accepted
              ≡ (create_error_response env' "05" "Payment declined by issuer", accepted))
    accept_payment_raced marshals' =
        let (row, gone, counter) = first in
        let same_response =
          completion-cached codec (confirmation_code env') (auth_code env') (final env h txn)
            (b ∷ blob) in
        let (reply, row', counter') =
          accept_settled codec env' accepted id gone _ blob' row reads' updates'
            (ap codec.marshal same_response ∙ marshals') in
        (
          reply ∙ ap (λ p. answer env' (payment_completion_response p)) same_response,
          row',
          counter' ∙ counter,
          decline_settled codec env' accepted id gone,
        )

  abbrev refused : Transaction
  refused = declined (env.call 11) "Payment declined by bank" txn

  abbrev declined_first : Handler
  declined_first = (decline_payment codec env id h).1

  decline_payment_records_raced :
      codec.marshal (completion (confirmation_code env') (auth_code env') refused) ≡ some blob'
      → ((accept_payment codec env' id declined_first).0
          ≡ answer env' (
              payment_completion_response
                (completion (confirmation_code env') (auth_code env') refused)))
        × (find_row id (accept_payment codec env' id declined_first).1.manager.db.rows
            ≡ some (record (row_of refused) { cached_response = blob' }))
        × ((accept_payment codec env' id declined_first).1.manager.receipt_counter
            ≡ h.manager.receipt_counter)
  decline_payment_records_raced marshals' =
      let (_, row, gone, counter) =
        decline_payment_records codec env h id txn open_ same new inserts in
      let same_response =
        completion-scan_transaction codec (confirmation_code env') (auth_code env') refused in
      let (reply, row', counter') =
        accept_settled codec env' declined_first id gone _ blob' row reads' updates'
          (ap codec.marshal same_response ∙ marshals') in
      (
        reply ∙ ap (λ p. answer env' (payment_completion_response p)) same_response,
        row',
        counter' ∙ counter,
      )

  refused_Grants :
      GrantsPayment env' txn.receipt_number txn
        (completion (confirmation_code env') (auth_code env') refused)
  refused_Grants = record {
    has_code = refl;
    has_confirmation = refl;
    has_auth = refl;
    has_receipt = refl;
    in_currency = refl;
    has_card_amount = refl;
    has_loyalty_amount = refl;
    has_installments = refl;
    has_points = ground arith;
  }

  -- Two requests for one payment are in their pauses, its identifier is new to the database, the bank
  -- declines for the one that ends first and accepts for the other one, and no statement fails. Then
  -- the second answer has code 00, codes of its own and the receipt number that the transaction had
  -- before it was settled, which is empty for a new one, while the row of the payment stays settled
  -- as failed, with the reason and none of those codes, caching that answer, and the receipt counter
  -- does not move.
  pub decline_payment_raced :
      codec.marshal (completion (confirmation_code env') (auth_code env') refused) ≡ some blob'
      → ((p : PaymentCompletionResponse) × ((accept_payment codec env' id declined_first).0
            ≡ answer env' (payment_completion_response p))
          × (codec.marshal p ≡ some blob')
          × GrantsPayment env' txn.receipt_number txn p)
        × ((r : Row) × (find_row id (accept_payment codec env' id declined_first).1.manager.db.rows
              ≡ some r)
            × HoldsDeclined env txn r
            × (r.cached_response ≡ blob'))
        × ((accept_payment codec env' id declined_first).1.manager.receipt_counter
            ≡ h.manager.receipt_counter)
  decline_payment_raced marshals' =
      let (said, row, counter) = decline_payment_records_raced marshals' in
      ((_, said, marshals', refused_Grants), (_, row, refusal-Holds env txn blob', refl), counter)
