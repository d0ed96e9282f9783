-- ===== src/Message/TypeName.antt =====
-- The name that `%T` prints of a message's body.
use termwire.Common.{String}
use termwire.Message.{
  Body, unset, get_version_request, get_version_response, get_terminal_info_request,
  get_terminal_info_response, get_banks_request, get_banks_response, card_insertion_request,
  card_insertion_response, payment_processing_request, loyalty_card_inquiry_response,
  loyalty_points_confirmation, payment_completion_request, payment_completion_response,
  refund_transaction_request, refund_transaction_response, void_transaction_request,
  void_transaction_response, x_report_request, x_report_response, z_report_request,
  z_report_response, detailed_report_request, detailed_report_response, gift_card_inquiry_request,
  gift_card_inquiry_response, gift_card_charge_request, gift_card_charge_response, error_response,
}

abbrev pub type_name : Body → String
type_name unset = "<nil>"
type_name get_version_request = "*protocol.Message_GetVersionRequest"
type_name (get_version_response _) = "*protocol.Message_GetVersionResponse"
type_name get_terminal_info_request = "*protocol.Message_GetTerminalInfoRequest"
type_name (get_terminal_info_response _) = "*protocol.Message_GetTerminalInfoResponse"
type_name get_banks_request = "*protocol.Message_GetBanksRequest"
type_name (get_banks_response _) = "*protocol.Message_GetBanksResponse"
type_name (card_insertion_request _) = "*protocol.Message_CardInsertionRequest"
type_name (card_insertion_response _) = "*protocol.Message_CardInsertionResponse"
type_name (payment_processing_request _) = "*protocol.Message_PaymentProcessingRequest"
type_name (loyalty_card_inquiry_response _) = "*protocol.Message_LoyaltyCardInquiryResponse"
type_name (loyalty_points_confirmation _) = "*protocol.Message_LoyaltyPointsConfirmation"
type_name (payment_completion_request _) = "*protocol.Message_PaymentCompletionRequest"
type_name (payment_completion_response _) = "*protocol.Message_PaymentCompletionResponse"
type_name (refund_transaction_request _) = "*protocol.Message_RefundTransactionRequest"
type_name (refund_transaction_response _) = "*protocol.Message_RefundTransactionResponse"
type_name (void_transaction_request _) = "*protocol.Message_VoidTransactionRequest"
type_name (void_transaction_response _) = "*protocol.Message_VoidTransactionResponse"
type_name x_report_request = "*protocol.Message_XReportRequest"
type_name (x_report_response _) = "*protocol.Message_XReportResponse"
type_name z_report_request = "*protocol.Message_ZReportRequest"
type_name (z_report_response _) = "*protocol.Message_ZReportResponse"
type_name (detailed_report_request _) = "*protocol.Message_DetailedReportRequest"
type_name (detailed_report_response _) = "*protocol.Message_DetailedReportResponse"
type_name (gift_card_inquiry_request _) = "*protocol.Message_GiftCardInquiryRequest"
type_name (gift_card_inquiry_response _) = "*protocol.Message_GiftCardInquiryResponse"
type_name (gift_card_charge_request _) = "*protocol.Message_GiftCardChargeRequest"
type_name (gift_card_charge_response _) = "*protocol.Message_GiftCardChargeResponse"
type_name (error_response _) = "*protocol.Message_ErrorResponse"
