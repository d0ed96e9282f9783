-- ===== src/Pos/Handler/Promise.antt =====
-- What a payment of pos/handler.go comes to, column by column and field by field, apart from the code
-- that writes them.
use Prim.Native.String.{String, ◌++◌}
use termwire.Common.{ℕ, ◌+◌, u64, sub32, ◌≡◌, Option, none, some, if◌then◌else◌}
use termwire.Go.Fmt.{decimal, padded}
use termwire.Go.Time.{Time, unix, format_rfc3339}
use termwire.Message.Responses.{PaymentCompletionResponse}
use termwire.Pos.Card.{CardData}
use termwire.Pos.Db.{Row}
use termwire.Pos.Handler.Env.{Env, Handler, intn}
use termwire.Pos.Transaction.{Transaction}

abbrev pub confirmation_code : Env → String
confirmation_code env = "CONF-" ++ decimal (unix (env.clock 3))

abbrev pub auth_code : Env → String
auth_code env = "AUTH-" ++ padded 6 (intn env 5 1000000)

-- The receipt number that comes next.
abbrev pub next_receipt : Handler → String
next_receipt h = "RCP-" ++ decimal (u64 (h.manager.receipt_counter + 1))

-- The points that a card has left behind a payment with some of them.
abbrev pub points_left : Option CardData → ℕ → ℕ
points_left none points = 0
points_left (some c) points = if c.has_loyalty_card then sub32 c.loyalty_points points else 0

-- A response with code 00, by what it tells the register.
pub record Grants (env : Env) (receipt currency : String) (amount loyalty installments left : ℕ)
    (p : PaymentCompletionResponse) : Type 0 where
  pub has_code : p.code ≡ "00"
  pub has_confirmation : p.confirmation_code ≡ confirmation_code env
  pub has_auth : p.auth_code ≡ auth_code env
  pub has_receipt : p.receipt_number ≡ receipt
  pub in_currency : p.currency ≡ currency
  pub has_card_amount : p.card_amount_cents ≡ sub32 amount loyalty
  pub has_loyalty_amount : p.loyalty_amount_cents ≡ loyalty
  pub has_installments : p.installment_count ≡ installments
  pub has_points : p.remaining_points ≡ left

-- Such a response for a transaction.
abbrev pub GrantsPayment : Env → String → Transaction → PaymentCompletionResponse → Type 0
GrantsPayment env receipt txn =
    Grants env receipt txn.currency txn.amount_cents txn.loyalty_amount_cents txn.installment_count
      (points_left txn.card txn.loyalty_points_used)

-- A row that holds a transaction as settled at a time, in a state by its number.
pub record Holds (txn : Transaction) (at : Time) (state card_amount : ℕ)
    (confirmation auth receipt reason : String) (r : Row) : Type 0 where
  pub same_id : r.id ≡ txn.id
  pub in_state : r.state ≡ state
  pub same_amount : r.amount_cents ≡ txn.amount_cents
  pub same_currency : r.currency ≡ txn.currency
  pub same_bank : r.selected_bank_id ≡ txn.selected_bank_id
  pub same_application : r.selected_aid ≡ txn.selected_aid
  pub same_installments : r.installments ≡ txn.installment_count
  pub same_points : r.loyalty_points_used ≡ txn.loyalty_points_used
  pub same_loyalty : r.loyalty_amount_cents ≡ txn.loyalty_amount_cents
  pub has_card_amount : r.card_amount_cents ≡ card_amount
  pub has_confirmation : r.confirmation_code ≡ confirmation
  pub has_auth : r.auth_code ≡ auth
  pub has_receipt : r.receipt_number ≡ receipt
  pub has_reason : r.error_message ≡ reason
  pub same_created : r.created_at ≡ format_rfc3339 txn.created_at
  pub has_completed : r.completed_at ≡ format_rfc3339 at
  pub in_no_batch : r.z_report_id ≡ 0

-- The row of a completed payment, with the codes that a response grants it with.
abbrev pub HoldsCompleted : Env → String → Transaction → Row → Type 0
HoldsCompleted env receipt txn =
    Holds txn (env.call 11).now 5 (sub32 txn.amount_cents txn.loyalty_amount_cents)
      (confirmation_code env) (auth_code env) receipt txn.error_message

-- The row of a payment that the bank declined.
abbrev pub HoldsDeclined : Env → Transaction → Row → Type 0
HoldsDeclined env txn =
    Holds txn (env.call 11).now 6 txn.card_amount_cents txn.confirmation_code txn.auth_code
      txn.receipt_number "Payment declined by bank"
