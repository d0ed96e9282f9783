-- ===== src/Ecr/Receipt.antt =====
-- PrintReceipt of ecr/payment.go, as the lines that it prints.
use Prim.Native.String
use Prim.Native.String.{String}
use termwire.Common.{ℕ, zero, suc, ◌+◌, u32, ltb, if◌then◌else◌, List, [], ◌∷◌, ◌++◌}
use termwire.Ecr.Payment.{PaymentResult}
use termwire.Go.Fmt.{decimal, money}

-- `strings.Repeat`
abbrev repeated : String → ℕ → String
repeated s zero = ""
repeated s (suc n) = String.◌++◌ s (repeated s n)

abbrev pub field : String → String → String
field label text = String.◌++◌ label text

-- An amount with its currency.
abbrev pub priced : ℕ → String → String
priced cents currency = String.◌++◌ (money cents) (String.◌++◌ " " currency)

abbrev pub total_amount : PaymentResult → ℕ
total_amount r = u32 (r.card_amount_cents + r.loyalty_amount_cents)

abbrev pub loyalty_lines : PaymentResult → String → List String
loyalty_lines r currency =
    if ltb 0 r.loyalty_amount_cents
    then field "Loyalty Discount:  " (priced r.loyalty_amount_cents currency)
      ∷ field "Card Amount:       " (priced r.card_amount_cents currency)
      ∷ field "Remaining Points:  " (decimal r.remaining_points)
      ∷ []
    else []

abbrev pub success_lines : PaymentResult → String → List String
success_lines r currency =
    field "Transaction ID:    " r.transaction_id
    ∷ field "Receipt Number:    " r.receipt_number
    ∷ field "Confirmation Code: " r.confirmation_code
    ∷ field "Auth Code:         " r.auth_code
    ∷ repeated "-" 50
    ∷ field "Card Number:       " r.card_number_masked
    ∷ field "Card Holder:       " r.card_holder_name
    ∷ repeated "-" 50
    ∷ field "Total Amount:      " (priced (total_amount r) currency)
    ∷ loyalty_lines r currency

abbrev pub failure_lines : PaymentResult → List String
failure_lines r =
    "           TRANSACTION FAILED           "
    ∷ field "Error Code: " r.error_code
    ∷ field "Error Message: " r.error_message
    ∷ []

unfoldable pub print_receipt : PaymentResult → String → List String
print_receipt r currency =
    ""
    ∷ repeated "=" 50
    ∷ "                    RECEIPT                    "
    ∷ repeated "=" 50
    ∷ ((if r.success then success_lines r currency else failure_lines r)
        ++ (repeated "=" 50 ∷ "" ∷ []))
