-- ===== src/Ecr/Api.antt =====
-- API of ecr/api.go: one call of the client for each request, and what it makes of the response.
pub mod Calls
pub mod Voiding
pub mod Paying
mod Tests
use Prim.Native.String.{String, ◌++◌}
use termwire.Common.{ℕ, Bool, str_eq, if◌then◌else◌}
use termwire.Ecr.Client.{Client, Env, Answer, response, error, nothing, send_message}
use termwire.Go.Fmt.{decimal}
use termwire.Go.Time.{Time, format_rfc3339}
use termwire.Message.{
  Message, Body, card_insertion_request, card_insertion_response, detailed_report_request,
  detailed_report_response, get_banks_request, get_banks_response, get_terminal_info_request,
  get_terminal_info_response, get_version_request, get_version_response, gift_card_charge_request,
  gift_card_charge_response, gift_card_inquiry_request, gift_card_inquiry_response,
  loyalty_card_inquiry_response, loyalty_points_confirmation, payment_completion_response,
  payment_processing_request, refund_transaction_request, refund_transaction_response,
  void_transaction_request, void_transaction_response, x_report_request, x_report_response,
  z_report_request, z_report_response,
}
use termwire.Message.Codec.{Codec}
use termwire.Message.Responses.{
  CardInsertionResponse, DetailedReportResponse, GetBanksResponse, GetTerminalInfoResponse,
  GetVersionResponse, GiftCardChargeResponse, GiftCardInquiryResponse, LoyaltyCardInquiryResponse,
  PaymentCompletionResponse, RefundTransactionResponse, VoidTransactionResponse, XReportResponse,
  ZReportResponse,
}
use termwire.Message.TypeName.{type_name}

-- What a call returns: a response, a response with an error, or an error. SendMessage may return
-- neither, and the call then reads the body of no message, which ends the program.
pub data Returned (A : Type 0) : Type 0 where
  got : A → Returned A
  refused : A → String → Returned A
  failed : String → Returned A
  panics : Returned A

-- What a call meets: two readings of the clock, and what the client's call meets.
pub record Call : Type 0 where
  pub unix_nano : ℕ
  pub clock : Time
  pub net : Env

unfoldable pub generate_message_id : Call → String
generate_message_id call = "ECR-" ++ decimal call.unix_nano

abbrev pub request : Call → Body → Message
request call b = record {
  message_id = generate_message_id call;
  timestamp = format_rfc3339 call.clock;
  body = b;
}

abbrev pub unexpected : {A : Type 0} → Body → Returned A
unexpected b = failed ("unexpected response type: " ++ type_name b)

abbrev pub received : {A : Type 0} → (Body → Returned A) → Answer → Returned A
received pick (response msg) = pick msg.body
received pick (error e) = failed e
received pick nothing = panics

-- A response whose code is not 00 comes with an error.
abbrev pub checked : {A : Type 0} → String → String → String → A → Returned A
checked what code text r = if str_eq code "00" then got r else refused r (what ++ text)

-- ProcessPayment returns the completion or the loyalty inquiry.
pub data Processed : Type 0 where
  completed : PaymentCompletionResponse → Processed
  inquiry : LoyaltyCardInquiryResponse → Processed

abbrev pub to_get_version : Body → Returned GetVersionResponse
to_get_version (get_version_response r) = got r
to_get_version b = unexpected b

abbrev pub to_get_terminal_info : Body → Returned GetTerminalInfoResponse
to_get_terminal_info (get_terminal_info_response r) = got r
to_get_terminal_info b = unexpected b

abbrev pub to_get_banks : Body → Returned GetBanksResponse
to_get_banks (get_banks_response r) = got r
to_get_banks b = unexpected b

abbrev pub to_insert_card : Body → Returned CardInsertionResponse
to_insert_card (card_insertion_response r) = checked "card insertion failed: " r.code r.message r
to_insert_card b = unexpected b

abbrev pub to_process_payment : Body → Returned Processed
to_process_payment (loyalty_card_inquiry_response r) = got (inquiry r)
to_process_payment (payment_completion_response r) =
    checked "payment failed: " r.code r.message (completed r)
to_process_payment b = unexpected b

abbrev pub to_confirm_loyalty_points : Body → Returned PaymentCompletionResponse
to_confirm_loyalty_points (payment_completion_response r) =
    checked "payment failed: " r.code r.message r
to_confirm_loyalty_points b = unexpected b

abbrev pub to_refund_transaction : Body → Returned RefundTransactionResponse
to_refund_transaction (refund_transaction_response r) = checked "refund failed: " r.code r.message r
to_refund_transaction b = unexpected b

abbrev pub to_void_transaction : Body → Returned VoidTransactionResponse
to_void_transaction (void_transaction_response r) = checked "void failed: " r.code r.message r
to_void_transaction b = unexpected b

abbrev pub to_get_x_report : Body → Returned XReportResponse
to_get_x_report (x_report_response r) = got r
to_get_x_report b = unexpected b

abbrev pub to_get_z_report : Body → Returned ZReportResponse
to_get_z_report (z_report_response r) = got r
to_get_z_report b = unexpected b

abbrev pub to_get_detailed_report : Body → Returned DetailedReportResponse
to_get_detailed_report (detailed_report_response r) = got r
to_get_detailed_report b = unexpected b

abbrev pub to_inquire_gift_card : Body → Returned GiftCardInquiryResponse
to_inquire_gift_card (gift_card_inquiry_response r) = got r
to_inquire_gift_card b = unexpected b

abbrev pub to_charge_gift_card : Body → Returned GiftCardChargeResponse
to_charge_gift_card (gift_card_charge_response r) = got r
to_charge_gift_card b = unexpected b
