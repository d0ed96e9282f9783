-- ===== src/Message/Requests.antt =====
-- The bodies of the messages that the register sends.
use termwire.Common.{ℕ, Bool, String}

pub record CardInsertionRequest : Type 0 where
  pub transaction_amount_cents : ℕ
  pub currency : String
  pub transaction_id : String

pub record PaymentProcessingRequest : Type 0 where
  pub selected_bank_id : ℕ
  pub use_loyalty_points : Bool
  pub transaction_id : String
  pub selected_aid : String
  pub installment_count : ℕ

pub record LoyaltyPointsConfirmation : Type 0 where
  pub points_to_use : ℕ
  pub points_value_cents : ℕ
  pub transaction_id : String

pub record PaymentCompletionRequest : Type 0 where
  pub bank_id : ℕ
  pub card_amount_cents : ℕ
  pub loyalty_amount_cents : ℕ
  pub total_amount_cents : ℕ
  pub currency : String
  pub transaction_id : String
  pub installment_count : ℕ

pub record RefundTransactionRequest : Type 0 where
  pub original_transaction_id : String
  pub refund_amount_cents : ℕ
  pub reason : String
  pub currency : String
  pub original_confirmation_code : String

pub record VoidTransactionRequest : Type 0 where
  pub original_transaction_id : String
  pub reason : String
  pub currency : String
  pub original_confirmation_code : String

pub record DetailedReportRequest : Type 0 where
  pub from_timestamp : String
  pub to_timestamp : String
  pub limit : ℕ
  pub cursor : String
  pub include_voids : Bool
  pub currency : String

pub record GiftCardInquiryRequest : Type 0 where
  pub card_number : String
  pub currency : String

pub record GiftCardChargeRequest : Type 0 where
  pub card_number : String
  pub amount_cents : ℕ
  pub transaction_amount_cents : ℕ
  pub currency : String
