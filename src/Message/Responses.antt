-- ===== src/Message/Responses.antt =====
-- The bodies of the messages that the terminal sends, and the records inside them.
use termwire.Common.{ℕ, Bool, String, List}

pub data TransactionType : Type 0 where
  type_unspecified sale refund void point_inquiry point_redemption : TransactionType

pub data PaymentMethod : Type 0 where
  method_unspecified cash credit_card debit_card cheque electronic_fund_transfer other :
      PaymentMethod

pub record Bank : Type 0 where
  pub id : ℕ
  pub name : String

pub record BankApplication : Type 0 where
  pub bank_id : ℕ
  pub bank_name : String
  pub app_label : String
  pub aid : String
  pub priority : ℕ
  pub supports_loyalty : Bool

pub record CurrencyTotals : Type 0 where
  pub currency : String
  pub amount_cents : ℕ
  pub count : ℕ

pub record PaymentMethodTotals : Type 0 where
  pub method : PaymentMethod
  pub currency : String
  pub amount_cents : ℕ
  pub count : ℕ

pub record TransactionEntry : Type 0 where
  pub transaction_id : String
  pub entry_type : TransactionType
  pub amount_cents : ℕ
  pub payment_method : PaymentMethod
  pub card_last_four : String
  pub loyalty_amount_cents : ℕ
  pub confirmation_code : String
  pub receipt_number : String
  pub timestamp : String
  pub bank_id : ℕ
  pub currency : String
  pub installment_count : ℕ
  pub original_transaction_id : String

pub record GetVersionResponse : Type 0 where
  pub code : String
  pub version : String

pub record GetTerminalInfoResponse : Type 0 where
  pub code : String
  pub version : String
  pub serial_number : String

pub record GetBanksResponse : Type 0 where
  pub code : String
  pub banks : List Bank

pub record CardInsertionResponse : Type 0 where
  pub code : String
  pub card_number_masked : String
  pub card_holder_name : String
  pub available_banks : List BankApplication
  pub message : String

pub record LoyaltyCardInquiryResponse : Type 0 where
  pub code : String
  pub available_points : ℕ
  pub points_value_cents : ℕ
  pub loyalty_card_number : String
  pub message : String

pub record PaymentCompletionResponse : Type 0 where
  pub code : String
  pub confirmation_code : String
  pub receipt_number : String
  pub card_amount_cents : ℕ
  pub loyalty_amount_cents : ℕ
  pub remaining_points : ℕ
  pub message : String
  pub auth_code : String
  pub currency : String
  pub installment_count : ℕ

pub record RefundTransactionResponse : Type 0 where
  pub code : String
  pub transaction_id : String
  pub refund_amount_cents : ℕ
  pub confirmation_code : String
  pub message : String
  pub currency : String

pub record VoidTransactionResponse : Type 0 where
  pub code : String
  pub transaction_id : String
  pub confirmation_code : String
  pub message : String
  pub currency : String

pub record XReportResponse : Type 0 where
  pub code : String
  pub report_timestamp : String
  pub transaction_count : ℕ
  pub sales_totals : List CurrencyTotals
  pub refund_totals : List CurrencyTotals
  pub void_totals : List CurrencyTotals
  pub payment_method_totals : List PaymentMethodTotals
  pub message : String

pub record ZReportResponse : Type 0 where
  pub code : String
  pub report_timestamp : String
  pub transaction_count : ℕ
  pub sales_totals : List CurrencyTotals
  pub refund_totals : List CurrencyTotals
  pub void_totals : List CurrencyTotals
  pub payment_method_totals : List PaymentMethodTotals
  pub z_report_number : ℕ
  pub message : String

pub record DetailedReportResponse : Type 0 where
  pub code : String
  pub transactions : List TransactionEntry
  pub next_cursor : String
  pub message : String

pub record GiftCardInquiryResponse : Type 0 where
  pub code : String
  pub balance_cents : ℕ
  pub message : String
  pub currency : String

pub record GiftCardChargeResponse : Type 0 where
  pub code : String
  pub new_balance_cents : ℕ
  pub points_earned : ℕ
  pub message : String
  pub currency : String

pub record ErrorResponse : Type 0 where
  pub code : String
  pub message : String
