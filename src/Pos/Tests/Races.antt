-- ===== src/Pos/Tests/Races.antt =====
-- Whole payments, and payments and refunds that meet, at concrete states.
use Prim.Native.String.{◌++◌}
use mathlib.Core.List.Memᴰ.{head, tail}
use termwire.Common.{◌≤◌, ◌≡◌, refl, [], ◌∷◌, none, some, false, arith}
use termwire.Go.Dict.{lookup}
use termwire.Go.Fmt.{decimal}
use termwire.Message.{payment_completion_response}
use termwire.Message.Requests.{CardInsertionRequest, PaymentProcessingRequest}
use termwire.Message.Responses.{PaymentCompletionResponse}
use termwire.Pos.Db.{ok, Row, row_of, find_row, scan_transaction}
use termwire.Pos.Handler.Approval.{response, confirmation_code, auth_code}
use termwire.Pos.Handler.Env.{Env, Reply, Handler, answer}
use termwire.Pos.Handler.Payment.{
  completion, accept_payment, decline_payment, handle_card_insertion, handle_payment_processing,
}
use termwire.Pos.Handler.Promise.{GrantsPayment, HoldsDeclined}
use termwire.Pos.Handler.Race.{decline_payment_raced}
use termwire.Pos.Handler.Settles.{paid_for, in_pause, handle_payment_processing_settles}
use termwire.Pos.Manager.{declined}
use termwire.Pos.Manager.Create.{Admits}
use termwire.Pos.Samples.{
  noon, smooth, env, txn, empty, waiting, same_response_refl, codec, only, is_active, is_new, sold,
  holding, found, completed,
}
use termwire.Pos.Settled.{
  void_transaction, refund_transaction, refund_refusal, write_refund, restate,
}
use termwire.Pos.Settled.Refund.{after_refund}
use termwire.Pos.Settled.Void.{after_void}
use termwire.Pos.Settled.Race.{refund_transaction_raced}
use termwire.Pos.Transaction.{state_code, payment_completed, voided, refunded}

-- The other connection, a second later and with another authorization code.
abbrev later : Env
later = record env {
  clock = λ k. record { seconds = 63900000001; zone = noon.zone };
  rand = λ k. 43;
}

abbrev failed_payment : PaymentCompletionResponse
failed_payment =
    completion (confirmation_code later) (auth_code later)
      (declined smooth "Payment declined by bank" txn)

marshals_failed : (only failed_payment).marshal failed_payment ≡ some (1 ∷ [])
marshals_failed = ground (arith, same_response_refl failed_payment)

abbrev after_decline : Handler
after_decline = (decline_payment (only failed_payment) env "TXN-1" waiting).1

decline_payment_raced_example :
    ((p : PaymentCompletionResponse) × ((accept_payment
          (only failed_payment)
          later
          "TXN-1"
          after_decline).0
        ≡ answer later (payment_completion_response p))
      × ((only failed_payment).marshal p ≡ some (1 ∷ []))
      × GrantsPayment later "" txn p)
    × ((r : Row) × (find_row "TXN-1"
            (accept_payment (only failed_payment) later "TXN-1" after_decline).1.manager.db.rows
          ≡ some r)
        × HoldsDeclined env txn r
        × (r.cached_response ≡ 1 ∷ []))
    × ((accept_payment (only failed_payment) later "TXN-1" after_decline).1.manager.receipt_counter
        ≡ 7)
decline_payment_raced_example =
    decline_payment_raced (only failed_payment) env later waiting "TXN-1" txn is_active refl is_new
      refl refl refl (1 ∷ []) marshals_failed

fits_amount : 500 ≤ sold.amount_cents
unfolding row_of
fits_amount = omega arith

refund_transaction_raced_example :
    (refund_refusal codec smooth "TXN-1" 500 (holding sold) ≡ none)
    × (void_transaction codec smooth "TXN-1" (holding sold) ≡ (
      ok (scan_transaction codec (restate voided noon sold)),
      after_void codec smooth "TXN-1" (holding sold),
    ))
    × ((write_refund codec smooth "TXN-1" (after_void codec smooth "TXN-1" (holding sold))).0
        ≡ ok (scan_transaction codec (restate refunded noon (restate voided noon sold))))
    × (refund_transaction codec smooth "TXN-1" 500 (holding sold) ≡ (
      ok (scan_transaction codec (restate refunded noon sold)),
      after_refund codec smooth "TXN-1" (holding sold),
    ))
    × ((write_refund codec smooth "TXN-1" (after_refund codec smooth "TXN-1" (holding sold))).0
        ≡ ok (scan_transaction codec (restate refunded noon (restate refunded noon sold))))
refund_transaction_raced_example =
    refund_transaction_raced codec smooth "TXN-1" smooth (holding sold) sold 500 500 found completed
      fits_amount fits_amount (λ k. refl) (λ k. refl)

abbrev open_request : CardInsertionRequest
open_request = record {
  transaction_id = "TXN-1";
  transaction_amount_cents = 1500;
  currency = "EUR";
}

abbrev pay_request : PaymentProcessingRequest
pay_request = record {
  selected_bank_id = 1;
  use_loyalty_points = false;
  transaction_id = "TXN-1";
  selected_aid = "A0000000041010";
  installment_count = 1;
}

abbrev new_terminal : Handler
new_terminal = record { manager = empty; card_reader = record { current_card = none } }

admits : Admits "TXN-1" 1500 "EUR" empty
unfolding lookup
admits = record {
  is_new = refl;
  is_positive = omega arith;
  is_allowed = omega arith;
  is_supported = tail (tail (head refl));
}

abbrev settling : PaymentCompletionResponse
settling =
    response env (in_pause env open_request new_terminal env pay_request)
      (paid_for env open_request new_terminal env pay_request)

marshals_settling : (only settling).marshal settling ≡ some (1 ∷ [])
marshals_settling = ground (arith, same_response_refl settling)

abbrev whole : Reply × Handler
whole =
    handle_payment_processing (only settling) env pay_request
      (handle_card_insertion env open_request new_terminal).1

handle_payment_processing_settles_example :
    (whole.0 ≡ answer env (payment_completion_response settling))
    × ((s : Row) × (find_row "TXN-1" whole.1.manager.db.rows ≡ some s)
        × (s.state ≡ state_code payment_completed)
        × (s.amount_cents ≡ 1500)
        × (s.currency ≡ "EUR")
        × (s.receipt_number ≡ "RCP-" ++ decimal 8)
        × (s.cached_response ≡ 1 ∷ []))
    × (lookup "TXN-1" whole.1.manager.active ≡ none)
    × (whole.1.manager.receipt_counter ≡ 8)
handle_payment_processing_settles_example =
    handle_payment_processing_settles env open_request new_terminal env pay_request (only settling)
      refl refl is_new 1 [] refl refl refl refl marshals_settling admits
