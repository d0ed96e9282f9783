-- ===== src/Pos/Handler/Service.antt =====
-- The handlers of refunds, voids, reports and gift cards, and of the terminal's own data.
use Prim.Native.String.{◌++◌}
use termwire.Common.{◌/◌, sub32, if◌then◌else◌}
use termwire.Go.Fmt.{decimal, money}
use termwire.Go.Time.{Time, unix, is_zero, day_before}
use termwire.Message.{
  get_version_response, get_terminal_info_response, get_banks_response, refund_transaction_response,
  void_transaction_response, x_report_response, z_report_response, detailed_report_response,
  gift_card_inquiry_response, gift_card_charge_response,
}
use termwire.Message.Codec.{Codec}
use termwire.Message.Requests.{
  RefundTransactionRequest, VoidTransactionRequest, DetailedReportRequest, GiftCardInquiryRequest,
  GiftCardChargeRequest,
}
use termwire.Message.Responses.{PaymentCompletionResponse}
use termwire.Pos.Card.{get_banks}
use termwire.Pos.Db.{ok, err, time_or_zero}
use termwire.Pos.Handler.Env.{
  Env, intn, Handler, with_manager, Reply, answer, create_error_response,
}
use termwire.Pos.Report.{generate_x_report, generate_z_report, generate_detailed_report}
use termwire.Pos.Settled.{refund_transaction, void_transaction}

unfoldable pub handle_get_version : Env → Handler → Reply × Handler
handle_get_version env h = (
  answer env (get_version_response (record { code = "00"; version = h.manager.config.version })),
  h,
)

unfoldable pub handle_get_terminal_info : Env → Handler → Reply × Handler
handle_get_terminal_info env h = (
  answer env (
      get_terminal_info_response (record {
        code = "00";
        version = h.manager.config.version;
        serial_number = h.manager.config.serial_number;
      })),
  h,
)

unfoldable pub handle_get_banks : Env → Handler → Reply × Handler
handle_get_banks env h =
    (answer env (get_banks_response (record { code = "00"; banks = get_banks })), h)

module _ (codec : Codec PaymentCompletionResponse) where
  unfoldable pub handle_refund : Env → RefundTransactionRequest → Handler → Reply × Handler
  handle_refund env req h =
      let (result, m) =
        refund_transaction codec (env.call 0) req.original_transaction_id req.refund_amount_cents
          h.manager in
      elim result [
        | err e ↦ (create_error_response env "03" e, with_manager m h)
        | ok _ ↦ (
          answer env (
              refund_transaction_response (record {
                code = "00";
                transaction_id =
                    "RFD-" ++ req.original_transaction_id ++ "-" ++ decimal (unix (env.clock 2));
                refund_amount_cents = req.refund_amount_cents;
                confirmation_code = "RFCONF-" ++ decimal (unix (env.clock 3));
                message =
                    "Refund of "
                    ++ money req.refund_amount_cents
                    ++ " "
                    ++ req.currency
                    ++ " completed successfully";
                currency = req.currency;
              })),
          with_manager m h,
        )
      ]

  unfoldable pub handle_void : Env → VoidTransactionRequest → Handler → Reply × Handler
  handle_void env req h =
      let (result, m) = void_transaction codec (env.call 0) req.original_transaction_id h.manager in
      elim result [
        | err e ↦ (create_error_response env "04" e, with_manager m h)
        | ok txn ↦ (
          answer env (
              void_transaction_response (record {
                code = "00";
                transaction_id =
                    "VOID-" ++ req.original_transaction_id ++ "-" ++ decimal (unix (env.clock 2));
                confirmation_code = "VOIDCONF-" ++ decimal (unix (env.clock 3));
                message = "Transaction " ++ req.original_transaction_id ++ " voided successfully";
                currency = txn.currency;
              })),
          with_manager m h,
        )
      ]

  unfoldable pub handle_detailed_report : Env → DetailedReportRequest → Handler → Reply × Handler
  handle_detailed_report env req h =
      let asked_from = time_or_zero req.from_timestamp in
      let asked_to = time_or_zero req.to_timestamp in
      let from : Time = if is_zero asked_from then day_before (env.clock 2) else asked_from in
      let to : Time = if is_zero asked_to then env.clock 3 else asked_to in
      (
        answer env (
            detailed_report_response (
              generate_detailed_report codec (env.call 0) from to req.limit req.include_voids
                h.manager)),
        h,
      )

unfoldable pub handle_x_report : Env → Handler → Reply × Handler
handle_x_report env h =
    (answer env (x_report_response (generate_x_report (env.call 0) h.manager)), h)

unfoldable pub handle_z_report : Env → Handler → Reply × Handler
handle_z_report env h =
    let (report, m) = generate_z_report (env.call 0) h.manager in
    (answer env (z_report_response report), with_manager m h)

unfoldable pub handle_gift_card_inquiry : Env → GiftCardInquiryRequest → Handler → Reply × Handler
handle_gift_card_inquiry env req h =
    let balance = intn env 1 50000 in
    (
      answer env (
          gift_card_inquiry_response (record {
            code = "00";
            balance_cents = balance;
            message = "Gift card balance: " ++ money balance ++ " " ++ req.currency;
            currency = req.currency;
          })),
      h,
    )

unfoldable pub handle_gift_card_charge : Env → GiftCardChargeRequest → Handler → Reply × Handler
handle_gift_card_charge env req h =
    let new_balance = sub32 50000 req.amount_cents in
    (
      answer env (
          gift_card_charge_response (record {
            code = "00";
            new_balance_cents = new_balance;
            points_earned = req.amount_cents / 100;
            message =
                "Gift card charged successfully. New balance: "
                ++ money new_balance
                ++ " "
                ++ req.currency;
            currency = req.currency;
          })),
      h,
    )
