-- ===== src/Pos/Handler/Dispatch.antt =====
-- HandleMessage.
use Prim.Native.String.{◌++◌}
use termwire.Message.{
  Message, Body, get_version_request, get_terminal_info_request, get_banks_request,
  card_insertion_request, payment_processing_request, loyalty_points_confirmation,
  payment_completion_request, refund_transaction_request, void_transaction_request,
  x_report_request, z_report_request, detailed_report_request, gift_card_inquiry_request,
  gift_card_charge_request,
}
use termwire.Message.Codec.{Codec}
use termwire.Message.TypeName.{type_name}
use termwire.Message.Responses.{PaymentCompletionResponse}
use termwire.Pos.Handler.Env.{Env, Handler, Reply, failure}
use termwire.Pos.Handler.Payment.{
  handle_card_insertion, handle_payment_processing, handle_loyalty_confirmation,
  handle_payment_completion,
}
use termwire.Pos.Handler.Service.{
  handle_get_version, handle_get_terminal_info, handle_get_banks, handle_refund, handle_void,
  handle_x_report, handle_z_report, handle_detailed_report, handle_gift_card_inquiry,
  handle_gift_card_charge,
}

module _ (codec : Codec PaymentCompletionResponse) where
  unfoldable pub handle_body : Env → Body → Handler → Reply × Handler
  handle_body env get_version_request h = handle_get_version env h
  handle_body env get_terminal_info_request h = handle_get_terminal_info env h
  handle_body env get_banks_request h = handle_get_banks env h
  handle_body env (card_insertion_request req) h = handle_card_insertion env req h
  handle_body env (payment_processing_request req) h = handle_payment_processing codec env req h
  handle_body env (loyalty_points_confirmation req) h = handle_loyalty_confirmation codec env req h
  handle_body env (payment_completion_request req) h = handle_payment_completion codec env req h
  handle_body env (refund_transaction_request req) h = handle_refund codec env req h
  handle_body env (void_transaction_request req) h = handle_void codec env req h
  handle_body env x_report_request h = handle_x_report env h
  handle_body env z_report_request h = handle_z_report env h
  handle_body env (detailed_report_request req) h = handle_detailed_report codec env req h
  handle_body env (gift_card_inquiry_request req) h = handle_gift_card_inquiry env req h
  handle_body env (gift_card_charge_request req) h = handle_gift_card_charge env req h
  handle_body env b h = (failure ("unsupported message type: " ++ type_name b), h)

  unfoldable pub handle_message : Env → Message → Handler → Reply × Handler
  handle_message env msg h = handle_body env msg.body h
