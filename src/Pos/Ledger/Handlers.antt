-- ===== src/Pos/Ledger/Handlers.antt =====
-- The handlers, each as a run of the manager's operations.
use termwire.Common.{inl, inr, true, arith, Option-cases}
use termwire.Message.{
  Body, card_insertion_request, payment_processing_request, loyalty_points_confirmation,
  payment_completion_request, refund_transaction_request, void_transaction_request,
  z_report_request,
}
use termwire.Message.Codec.{Codec}
use termwire.Message.Requests.{
  PaymentProcessingRequest, LoyaltyPointsConfirmation, PaymentCompletionRequest,
  RefundTransactionRequest, VoidTransactionRequest,
}
use termwire.Message.Responses.{PaymentCompletionResponse}
use termwire.Pos.Db.Laws.{Outcome-cases}
use termwire.Pos.Handler.Env.{Env, Handler}
use termwire.Pos.Handler.Payment.{
  loyalty_card, Progress, proceed, begin_processing, begin_confirmation, begin_completion, cached,
  handle_payment_processing, handle_loyalty_confirmation, handle_payment_completion,
}
use termwire.Pos.Handler.Service.{
  handle_get_version, handle_get_terminal_info, handle_get_banks, handle_x_report,
  handle_detailed_report, handle_gift_card_inquiry, handle_gift_card_charge, handle_refund,
  handle_void, handle_z_report,
}
use termwire.Pos.Handler.Dispatch.{handle_body}
use termwire.Pos.Ledger.Acts.{
  Runs, rests, acts, once, updates, selects, takes_points, voids, refunds, closes_batch, Runs-trans,
  Runs-to,
}
use termwire.Pos.Manager.{Manager, get_transaction, set_bank_selection, set_loyalty_points}
use termwire.Pos.Transaction.{loyalty_inquiry, payment_processing}
use termwire.Pos.Ledger.Payments.{Keeps, card_insertion-Keeps, proceed-Keeps}

module _ (codec : Codec PaymentCompletionResponse) where
  module _ (env : Env) (h : Handler) where
    abbrev select : PaymentProcessingRequest → Manager
    select req =
        (set_bank_selection (env.call 4) req.transaction_id req.selected_bank_id req.selected_aid
          req.installment_count h.manager).1

    abbrev points : LoyaltyPointsConfirmation → Manager
    points req =
        (set_loyalty_points (env.call 4) req.transaction_id true req.points_to_use
          req.points_value_cents h.manager).1

    chosen : (req : PaymentProcessingRequest) → Runs codec h.manager (select req)
    chosen req = once (
        selects (env.call 4) req.transaction_id req.selected_bank_id req.selected_aid
          req.installment_count)

    pub processing-Keeps :
        (req : PaymentProcessingRequest) → Keeps codec h (begin_processing codec env req h).1
    processing-Keeps req = elim (Option-cases (cached codec env req.transaction_id h.manager)) [
      | inr (r, p) ↦ Runs-to rests (unfold begin_processing in ground arith)
      | inl p ↦ elim (Outcome-cases (get_transaction req.transaction_id h.manager)) [
        | inl (e, q) ↦ Runs-to rests (unfold begin_processing in ground arith)
        | inr (txn, q) ↦ elim (Option-cases (loyalty_card codec req txn)) [
          | inl n ↦
              Runs-to (acts (chosen req) (updates (env.call 10) txn.id payment_processing))
                (unfold begin_processing in ground arith)
          | inr (c, n) ↦
              Runs-to (acts (chosen req) (updates (env.call 5) req.transaction_id loyalty_inquiry))
                (unfold begin_processing in ground arith)
        ]
      ]
    ]

    pub confirmation-Keeps :
        (req : LoyaltyPointsConfirmation) → Keeps codec h (begin_confirmation codec env req h).1
    confirmation-Keeps req = elim (Option-cases (cached codec env req.transaction_id h.manager)) [
      | inr (r, p) ↦ Runs-to rests (unfold begin_confirmation in ground arith)
      | inl p ↦ elim (Outcome-cases (get_transaction req.transaction_id h.manager)) [
        | inl (e, q) ↦ Runs-to rests (unfold begin_confirmation in ground arith)
        | inr (txn, q) ↦
            Runs-to
              (acts
                (once (
                  takes_points (env.call 4) req.transaction_id true req.points_to_use
                    req.points_value_cents))
                (updates (env.call 10) txn.id payment_processing))
              (unfold begin_confirmation in ground arith)
      ]
    ]

    pub completion-Keeps :
        (req : PaymentCompletionRequest) → Keeps codec h (begin_completion codec env req h).1
    completion-Keeps req = elim (Outcome-cases (get_transaction req.transaction_id h.manager)) [
      | inl (e, p) ↦ Runs-to rests (unfold begin_completion in ground arith)
      | inr (txn, p) ↦
          Runs-to (once (updates (env.call 10) txn.id payment_processing))
            (unfold begin_completion in ground arith)
    ]

    proceeds : (p : Progress × Handler) → Keeps codec h p.1 → Keeps codec h (proceed codec env p).1
    proceeds p r = Runs-trans r (proceed-Keeps codec env p)

    refund-Keeps :
        (req : RefundTransactionRequest) → Keeps codec h (handle_refund codec env req h).1
    refund-Keeps req =
        Runs-to (once (refunds (env.call 0) req.original_transaction_id req.refund_amount_cents))
          (unfold handle_refund in ground arith)

    void-Keeps : (req : VoidTransactionRequest) → Keeps codec h (handle_void codec env req h).1
    void-Keeps req =
        Runs-to (once (voids (env.call 0) req.original_transaction_id))
          (unfold handle_void in ground arith)

    z-Keeps : Keeps codec h (handle_z_report env h).1
    z-Keeps = Runs-to (once (closes_batch (env.call 0))) (unfold handle_z_report in ground arith)

    pub body-Keeps : (b : Body) → Keeps codec h (handle_body codec env b h).1
    unfolding handle_body handle_get_version handle_get_terminal_info handle_get_banks
        handle_x_report handle_detailed_report handle_gift_card_inquiry handle_gift_card_charge
        handle_payment_processing handle_loyalty_confirmation handle_payment_completion
    body-Keeps (card_insertion_request req) = card_insertion-Keeps codec env req h
    body-Keeps (payment_processing_request req) = proceeds _ (processing-Keeps req)
    body-Keeps (loyalty_points_confirmation req) = proceeds _ (confirmation-Keeps req)
    body-Keeps (payment_completion_request req) = proceeds _ (completion-Keeps req)
    body-Keeps (refund_transaction_request req) = refund-Keeps req
    body-Keeps (void_transaction_request req) = void-Keeps req
    body-Keeps z_report_request = z-Keeps
    body-Keeps b = rests
