-- ===== src/Pos/Tests.antt =====
-- The terminal's theorems at concrete states.
mod Races
mod Receipts
mod Starting
mod Schedules
use termwire.Common.{
  ◌≡◌, refl, ℕ, String, str_eq, str_eq_iff, str_eq_refl, ap, ◌≤◌, ◌<◌, List, [], ◌∷◌, Bool, true,
  false, ◌&&◌, ◌==◌, none, some, if◌then◌else◌, arith, u32, ◌+◌,
}
use mathlib.Core.Logic.{◌↔◌}
use termwire.Go.Dict.{lookup, insert}
use termwire.Go.Time.{Time, utc}
use termwire.Message.{
  Message, z_report_request, void_transaction_request, payment_completion_response,
}
use termwire.Message.Codec.{Codec}
use termwire.Message.Requests.{
  PaymentCompletionRequest, PaymentProcessingRequest, LoyaltyPointsConfirmation,
}
use termwire.Message.Responses.{PaymentCompletionResponse}
use termwire.Pos.Config.{default_config}
use termwire.Pos.Db.{ok, err, Io, Row, row_of, find_row, scan_transaction}
use termwire.Pos.Handler.Approval.{
  response, final, confirmation_code, auth_code, accept_payment_new,
  handle_payment_processing_again, handle_loyalty_confirmation_again,
}
use termwire.Pos.Handler.Env.{Env, Handler, answer}
use termwire.Pos.Handler.Payment.{
  completion, accept_payment, handle_payment_processing, handle_loyalty_confirmation,
}
use termwire.Pos.Manager.{
  Manager, declined, fresh_transaction, put, create_transaction, completed_not_found,
}
use termwire.Pos.Handler.Approval.{handle_payment_completion_again}
use termwire.Go.Fmt.{decimal, digits}
use termwire.Pos.Handler.Promise.{Grants, GrantsPayment, HoldsCompleted, HoldsDeclined}
use termwire.Message.Responses.{PaymentCompletionResponse}
use termwire.Pos.Transaction.{Transaction}
use termwire.Pos.Handler.Decline.{refusal, decline_payment_new}
use termwire.Pos.Handler.Payment.{decline_payment, handle_payment_completion}
use termwire.Pos.Handler.Env.{create_error_response}
use termwire.Pos.Manager.{not_found}
use termwire.Pos.Handler.Dispatch.{handle_message}
use termwire.Pos.Handler.Retry.{accept_payment_old}
use termwire.Pos.Ledger.{Evolves}
use termwire.Pos.Ledger.Reach.{Reaches-Evolves, begins, serves}
use termwire.Pos.Manager.Create.{Admits, create_transaction-Admits, create_transaction_refuses}
use termwire.Pos.Report.{generate_x_report, generate_z_report, max_batch, is_open}
use termwire.Pos.Report.Batch.{generate_x_report-generate_z_report, generate_z_report_number}
use termwire.Pos.Report.{batch_totals}
use termwire.Pos.Report.Groups.{entry_of}
use termwire.Pos.Report.Sums.{batch_totals_lem}
use termwire.Pos.Settled.{void_transaction, refund_transaction, restate}
use termwire.Pos.Settled.Void.{after_void, void_transaction_completed, void_transaction_again}
use termwire.Pos.Settled.Refund.{
  after_refund, refund_transaction_completed, refund_transaction_again,
}
use termwire.Pos.Transaction.{Transaction, state_code, payment_completed, voided, refunded}
use termwire.Pos.Samples.{
  noon, smooth, env, txn, empty, waiting, same_response, same_response-eq, only-decodes, only,
  codec, same_response_refl, marshals, is_active, is_new, sold, lost, holding, finds, found,
  completed,
}

accept_payment_new_example :
    ((p : PaymentCompletionResponse) × ((accept_payment codec env "TXN-1" waiting).0
        ≡ answer env (payment_completion_response p))
      × (codec.marshal p ≡ some (1 ∷ []))
      × GrantsPayment env "RCP-8" txn p)
    × ((r : Row) × (find_row "TXN-1" (accept_payment codec env "TXN-1" waiting).1.manager.db.rows
          ≡ some r)
        × HoldsCompleted env "RCP-8" txn r
        × (r.cached_response ≡ 1 ∷ []))
    × (lookup "TXN-1" (accept_payment codec env "TXN-1" waiting).1.manager.active ≡ none)
    × ((accept_payment codec env "TXN-1" waiting).1.manager.receipt_counter ≡ 8)
unfolding decimal digits
accept_payment_new_example =
    accept_payment_new codec env waiting "TXN-1" txn 1 [] is_active refl is_new refl refl refl
      marshals

abbrev paid : Handler
paid = (accept_payment codec env "TXN-1" waiting).1

abbrev request : PaymentProcessingRequest
request = record {
  selected_bank_id = 1;
  use_loyalty_points = false;
  transaction_id = "TXN-1";
  selected_aid = "A0000000041010";
  installment_count = 1;
}

abbrev confirmation : LoyaltyPointsConfirmation
confirmation = record { points_to_use = 100; points_value_cents = 100; transaction_id = "TXN-1" }

handle_payment_processing_again_example :
    handle_payment_processing codec env request paid
    ≡ (answer env (payment_completion_response (response env waiting txn)), paid)
handle_payment_processing_again_example =
    handle_payment_processing_again codec env waiting "TXN-1" txn 1 [] is_active refl is_new refl
      refl refl marshals env request refl refl

abbrev completion_request : PaymentCompletionRequest
completion_request = record {
  bank_id = 0;
  card_amount_cents = 0;
  loyalty_amount_cents = 0;
  total_amount_cents = 0;
  currency = "EUR";
  transaction_id = "TXN-1";
  installment_count = 0;
}

handle_payment_completion_again_example :
    handle_payment_completion codec env completion_request paid
    ≡ (create_error_response env "02" (not_found "TXN-1"), paid)
handle_payment_completion_again_example =
    handle_payment_completion_again codec env waiting "TXN-1" txn 1 [] is_active refl is_new refl
      refl refl marshals env completion_request refl

decline_payment_new_example :
    ((decline_payment codec env "TXN-1" waiting).0
      ≡ create_error_response env "05" "Payment declined by issuer")
    × ((r : Row) × (find_row "TXN-1" (decline_payment codec env "TXN-1" waiting).1.manager.db.rows
          ≡ some r)
        × HoldsDeclined env txn r
        × (r.cached_response ≡ []))
    × (lookup "TXN-1" (decline_payment codec env "TXN-1" waiting).1.manager.active ≡ none)
    × ((decline_payment codec env "TXN-1" waiting).1.manager.receipt_counter ≡ 7)
decline_payment_new_example =
    decline_payment_new codec env waiting "TXN-1" txn is_active refl is_new refl

void_transaction_again_example :
    (void_transaction codec smooth "TXN-1" (after_void codec smooth "TXN-1" (holding sold))
      ≡ (err (completed_not_found "TXN-1"), after_void codec smooth "TXN-1" (holding sold)))
    × (refund_transaction codec smooth "TXN-1" 100 (after_void codec smooth "TXN-1" (holding sold))
        ≡ (err (completed_not_found "TXN-1"), after_void codec smooth "TXN-1" (holding sold)))
void_transaction_again_example =
    void_transaction_again codec smooth "TXN-1" (holding sold)
      (scan_transaction codec (restate voided noon sold))
      (after_void codec smooth "TXN-1" (holding sold)) smooth 100
      (void_transaction_completed codec smooth "TXN-1" (holding sold) "TXN-1" sold found completed
        refl refl).0
      refl

abbrev refunded_manager : Manager
refunded_manager = after_refund codec smooth "TXN-1" (holding sold)

fits : 500 ≤ sold.amount_cents
unfolding row_of
fits = omega arith

refund_transaction_completed_example :
    (refund_transaction codec smooth "TXN-1" 500 (holding sold)
      ≡ (ok (scan_transaction codec (restate refunded noon sold)), refunded_manager))
    × (find_row "TXN-1" refunded_manager.db.rows ≡ (
        if str_eq "TXN-1" "TXN-1"
        then some (restate refunded noon sold)
        else find_row "TXN-1" (holding sold).db.rows))
refund_transaction_completed_example =
    refund_transaction_completed codec smooth "TXN-1" (holding sold) "TXN-1" sold 500 found
      completed fits refl refl refl

refund_transaction_again_example :
    ((r : Row) × (find_row "TXN-1" (holding sold).db.rows ≡ some r)
      × (r.state ≡ state_code payment_completed)
      × (500 ≤ r.amount_cents))
    × (refund_transaction codec smooth "TXN-1" 1 refunded_manager
        ≡ (err (completed_not_found "TXN-1"), refunded_manager))
    × (void_transaction codec smooth "TXN-1" refunded_manager
        ≡ (err (completed_not_found "TXN-1"), refunded_manager))
refund_transaction_again_example =
    refund_transaction_again codec smooth "TXN-1" (holding sold) 500 1
      (scan_transaction codec (restate refunded noon sold)) refunded_manager smooth
      (refund_transaction_completed codec smooth "TXN-1" (holding sold) "TXN-1" sold 500 found
        completed fits refl refl refl).0
      refl

-- The register retries, under the same identifier, a payment that the bank declined.
abbrev retrying : Handler
retrying = record waiting {
  manager = record (waiting.manager) { db = record { rows = lost ∷ []; metadata = [] } };
}

found_lost : find_row "TXN-1" retrying.manager.db.rows ≡ some lost
unfolding row_of
found_lost = finds lost refl

accept_payment_old_example :
    ((p : PaymentCompletionResponse) × ((accept_payment codec env "TXN-1" retrying).0
        ≡ answer env (payment_completion_response p))
      × Grants env "" "EUR" 1500 0 lost.installments 0 p)
    × ((s : Row) × (find_row "TXN-1" (accept_payment codec env "TXN-1" retrying).1.manager.db.rows
          ≡ some s)
        × (s.state ≡ lost.state))
    × ((t : Transaction) × (lookup "TXN-1"
            (accept_payment codec env "TXN-1" retrying).1.manager.active
          ≡ some t)
        × (t.id ≡ "TXN-1")
        × (t.state ≡ payment_completed)
        × (t.receipt_number ≡ "RCP-8"))
unfolding row_of decimal digits
accept_payment_old_example =
    accept_payment_old codec env retrying "TXN-1" txn lost is_active refl found_lost refl

create_transaction-Admits_example :
    (create_transaction smooth noon "TXN-1" 1500 "EUR" empty ≡ (ok txn, put "TXN-1" txn empty))
    ↔ Admits "TXN-1" 1500 "EUR" empty
create_transaction-Admits_example = create_transaction-Admits smooth noon "TXN-1" 1500 "EUR" empty

generate_x_report-generate_z_report_example :
    let report = generate_x_report smooth (generate_z_report smooth (holding sold)).1 in
    (report.transaction_count ≡ 0)
    × (report.sales_totals ≡ [])
    × (report.refund_totals ≡ [])
    × (report.void_totals ≡ [])
generate_x_report-generate_z_report_example =
    generate_x_report-generate_z_report smooth smooth (holding sold) refl

batch_totals_lem_example :
    (lookup "EUR" (batch_totals smooth (holding sold).db).sales
      ≡ entry_of "EUR" (state_code payment_completed) (sold ∷ []))
    × (lookup "EUR" (batch_totals smooth (holding sold).db).refunds
        ≡ entry_of "EUR" (state_code refunded) (sold ∷ []))
    × (lookup "EUR" (batch_totals smooth (holding sold).db).voids
        ≡ entry_of "EUR" (state_code voided) (sold ∷ []))
batch_totals_lem_example = batch_totals_lem smooth (holding sold).db "EUR" refl

generate_z_report_number_example :
    let (report, after) = generate_z_report smooth (holding sold) in
    (find_row "TXN-1" after.db.rows
      ≡ some (if sold.z_report_id == 0 then record sold { z_report_id = 1 } else sold))
    × (sold.z_report_id < 1)
    × (report.z_report_number ≡ 1)
    × (report.sales_totals ≡ (generate_x_report smooth (holding sold)).sales_totals)
    × (report.refund_totals ≡ (generate_x_report smooth (holding sold)).refund_totals)
    × (report.void_totals ≡ (generate_x_report smooth (holding sold)).void_totals)
unfolding row_of max_batch
generate_z_report_number_example =
    generate_z_report_number smooth (holding sold) "TXN-1" sold refl refl found
