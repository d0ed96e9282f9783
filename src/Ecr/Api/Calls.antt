-- ===== src/Ecr/Api/Calls.antt =====
-- The calls of ecr/api.go.
use Prim.Native.String.{String}
use termwire.Common.{ℕ, Bool}
use termwire.Ecr.Client.{Client, send_message}
use termwire.Message.{
  Message, Body, card_insertion_request, detailed_report_request, get_banks_request,
  get_terminal_info_request, get_version_request, gift_card_charge_request,
  gift_card_inquiry_request, loyalty_points_confirmation, payment_processing_request,
  refund_transaction_request, void_transaction_request, x_report_request, z_report_request,
}
use termwire.Message.Codec.{Codec}
use termwire.Message.Responses.{
  CardInsertionResponse, DetailedReportResponse, GetBanksResponse, GetTerminalInfoResponse,
  GetVersionResponse, GiftCardChargeResponse, GiftCardInquiryResponse, PaymentCompletionResponse,
  RefundTransactionResponse, VoidTransactionResponse, XReportResponse, ZReportResponse,
}
use termwire.Ecr.Api.{
  Returned, Call, request, received, Processed, to_charge_gift_card, to_confirm_loyalty_points,
  to_get_banks, to_get_detailed_report, to_get_terminal_info, to_get_version, to_get_x_report,
  to_get_z_report, to_inquire_gift_card, to_insert_card, to_process_payment, to_refund_transaction,
  to_void_transaction,
}

module _ (messages : Codec Message) where
  abbrev pub ask : {A : Type 0} → (Body → Returned A) → Body → Call → Client → Returned A × Client
  ask pick b call c =
      let (answer, c') = send_message messages call.net (request call b) c in
      (received pick answer, c')

  unfoldable pub get_version : Call → Client → Returned GetVersionResponse × Client
  get_version = ask to_get_version get_version_request

  unfoldable pub get_terminal_info : Call → Client → Returned GetTerminalInfoResponse × Client
  get_terminal_info = ask to_get_terminal_info get_terminal_info_request

  unfoldable pub get_banks : Call → Client → Returned GetBanksResponse × Client
  get_banks = ask to_get_banks get_banks_request

  unfoldable pub insert_card :
      String → ℕ → String → Call → Client → Returned CardInsertionResponse × Client
  insert_card transaction_id amount currency = ask to_insert_card (
      card_insertion_request (record {
        transaction_amount_cents = amount;
        currency = currency;
        transaction_id = transaction_id;
      }))

  unfoldable pub process_payment :
      String → ℕ → String → ℕ → Bool → Call → Client → Returned Processed × Client
  process_payment transaction_id bank aid installments use_loyalty = ask to_process_payment (
      payment_processing_request (record {
        selected_bank_id = bank;
        use_loyalty_points = use_loyalty;
        transaction_id = transaction_id;
        selected_aid = aid;
        installment_count = installments;
      }))

  unfoldable pub confirm_loyalty_points :
      String → ℕ → ℕ → Call → Client → Returned PaymentCompletionResponse × Client
  confirm_loyalty_points transaction_id points value = ask to_confirm_loyalty_points (
      loyalty_points_confirmation (record {
        points_to_use = points;
        points_value_cents = value;
        transaction_id = transaction_id;
      }))

  unfoldable pub refund_transaction :
      String
      → String
      → ℕ
      → String
      → String
      → Call
      → Client
      → Returned RefundTransactionResponse × Client
  refund_transaction id confirmation amount currency reason = ask to_refund_transaction (
      refund_transaction_request (record {
        original_transaction_id = id;
        refund_amount_cents = amount;
        reason = reason;
        currency = currency;
        original_confirmation_code = confirmation;
      }))

  unfoldable pub void_transaction :
      String → String → String → String → Call → Client → Returned VoidTransactionResponse × Client
  void_transaction id confirmation currency reason = ask to_void_transaction (
      void_transaction_request (record {
        original_transaction_id = id;
        reason = reason;
        currency = currency;
        original_confirmation_code = confirmation;
      }))

  unfoldable pub get_x_report : Call → Client → Returned XReportResponse × Client
  get_x_report = ask to_get_x_report x_report_request

  unfoldable pub get_z_report : Call → Client → Returned ZReportResponse × Client
  get_z_report = ask to_get_z_report z_report_request

  unfoldable pub get_detailed_report :
      String → String → ℕ → Bool → String → Call → Client → Returned DetailedReportResponse × Client
  get_detailed_report from to limit include_voids currency = ask to_get_detailed_report (
      detailed_report_request (record {
        from_timestamp = from;
        to_timestamp = to;
        limit = limit;
        cursor = "";
        include_voids = include_voids;
        currency = currency;
      }))

  unfoldable pub inquire_gift_card :
      String → String → Call → Client → Returned GiftCardInquiryResponse × Client
  inquire_gift_card card currency =
      ask to_inquire_gift_card
        (gift_card_inquiry_request (record { card_number = card; currency = currency }))

  unfoldable pub charge_gift_card :
      String → ℕ → ℕ → String → Call → Client → Returned GiftCardChargeResponse × Client
  charge_gift_card card amount transaction_amount currency = ask to_charge_gift_card (
      gift_card_charge_request (record {
        card_number = card;
        amount_cents = amount;
        transaction_amount_cents = transaction_amount;
        currency = currency;
      }))
