-- ===== src/Pos/Transaction.antt =====
-- TransactionState and Transaction of pos/transaction.go.
use termwire.Common.{ℕ, zero, suc, ◌+◌, Bool, String, Option}
use termwire.Go.Time.{Time}
use termwire.Message.Responses.{PaymentCompletionResponse}
use termwire.Pos.Card.{CardData}

-- `unknown n` is the number n + 9, which names no state.
pub data TransactionState : Type 0 where
  card_insertion bank_selection loyalty_inquiry loyalty_confirmation payment_processing
        payment_completed failed voided refunded :
      TransactionState
  unknown : ℕ → TransactionState

abbrev pub state_string : TransactionState → String
state_string card_insertion = "CARD_INSERTION"
state_string bank_selection = "BANK_SELECTION"
state_string loyalty_inquiry = "LOYALTY_INQUIRY"
state_string loyalty_confirmation = "LOYALTY_CONFIRMATION"
state_string payment_processing = "PAYMENT_PROCESSING"
state_string payment_completed = "PAYMENT_COMPLETED"
state_string failed = "FAILED"
state_string voided = "VOIDED"
state_string refunded = "REFUNDED"
state_string (unknown n) = "UNKNOWN"

-- `int(s)`, the number of the constant, and `TransactionState(n)`.
abbrev pub state_code : TransactionState → ℕ
state_code card_insertion = 0
state_code bank_selection = 1
state_code loyalty_inquiry = 2
state_code loyalty_confirmation = 3
state_code payment_processing = 4
state_code payment_completed = 5
state_code failed = 6
state_code voided = 7
state_code refunded = 8
state_code (unknown n) = n + 9

abbrev pub state_of : ℕ → TransactionState
state_of zero = card_insertion
state_of (suc zero) = bank_selection
state_of (suc (suc zero)) = loyalty_inquiry
state_of (suc (suc (suc zero))) = loyalty_confirmation
state_of (suc (suc (suc (suc zero)))) = payment_processing
state_of (suc (suc (suc (suc (suc zero))))) = payment_completed
state_of (suc (suc (suc (suc (suc (suc zero)))))) = failed
state_of (suc (suc (suc (suc (suc (suc (suc zero))))))) = voided
state_of (suc (suc (suc (suc (suc (suc (suc (suc zero)))))))) = refunded
state_of (suc (suc (suc (suc (suc (suc (suc (suc (suc n))))))))) = unknown n

pub record Transaction : Type 0 where
  pub id : String
  pub state : TransactionState
  pub amount_cents : ℕ
  pub currency : String
  pub card : Option CardData
  pub selected_bank_id : ℕ
  pub selected_aid : String
  pub installment_count : ℕ
  pub use_loyalty_points : Bool
  pub loyalty_amount_cents : ℕ
  pub loyalty_points_used : ℕ
  pub card_amount_cents : ℕ
  pub confirmation_code : String
  pub receipt_number : String
  pub auth_code : String
  pub error_message : String
  pub created_at : Time
  pub completed_at : Option Time
  pub last_updated : Time
  pub cached_response : Option PaymentCompletionResponse
