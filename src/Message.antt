-- ===== src/Message.antt =====
-- The messages of protocol/termwire.pb.go. A field of type uint32 is a number below 2 ^ 32, a
-- pointer that the code never leaves nil is the record itself.
pub mod Requests
pub mod Responses
pub mod Codec
pub mod TypeName
use termwire.Common.{String}
use termwire.Message.Requests.{
  CardInsertionRequest, PaymentProcessingRequest, LoyaltyPointsConfirmation,
  PaymentCompletionRequest, RefundTransactionRequest, VoidTransactionRequest, DetailedReportRequest,
  GiftCardInquiryRequest, GiftCardChargeRequest,
}
use termwire.Message.Responses.{
  GetVersionResponse, GetTerminalInfoResponse, GetBanksResponse, CardInsertionResponse,
  LoyaltyCardInquiryResponse, PaymentCompletionResponse, RefundTransactionResponse,
  VoidTransactionResponse, XReportResponse, ZReportResponse, DetailedReportResponse,
  GiftCardInquiryResponse, GiftCardChargeResponse, ErrorResponse,
}

-- The oneof field `body`; `unset` is a message without one.
pub data Body : Type 0 where
  unset : Body
  get_version_request : Body
  get_version_response : GetVersionResponse → Body
  get_terminal_info_request : Body
  get_terminal_info_response : GetTerminalInfoResponse → Body
  get_banks_request : Body
  get_banks_response : GetBanksResponse → Body
  card_insertion_request : CardInsertionRequest → Body
  card_insertion_response : CardInsertionResponse → Body
  payment_processing_request : PaymentProcessingRequest → Body
  loyalty_card_inquiry_response : LoyaltyCardInquiryResponse → Body
  loyalty_points_confirmation : LoyaltyPointsConfirmation → Body
  payment_completion_request : PaymentCompletionRequest → Body
  payment_completion_response : PaymentCompletionResponse → Body
  refund_transaction_request : RefundTransactionRequest → Body
  refund_transaction_response : RefundTransactionResponse → Body
  void_transaction_request : VoidTransactionRequest → Body
  void_transaction_response : VoidTransactionResponse → Body
  x_report_request : Body
  x_report_response : XReportResponse → Body
  z_report_request : Body
  z_report_response : ZReportResponse → Body
  detailed_report_request : DetailedReportRequest → Body
  detailed_report_response : DetailedReportResponse → Body
  gift_card_inquiry_request : GiftCardInquiryRequest → Body
  gift_card_inquiry_response : GiftCardInquiryResponse → Body
  gift_card_charge_request : GiftCardChargeRequest → Body
  gift_card_charge_response : GiftCardChargeResponse → Body
  error_response : ErrorResponse → Body

pub record Message : Type 0 where
  pub message_id : String
  pub timestamp : String
  pub body : Body
