-- ===== src/Ecr/Payment.antt =====
-- PaymentFlow of ecr/payment.go: the steps of a card payment, and its receipt. The log is left out.
pub mod Points
pub mod Results
pub mod Returns
use Prim.Native.String.{String, ◌++◌}
use termwire.Common.{
  ℕ, Bool, true, false, ltb, ◌==◌, ◌&&◌, if◌then◌else◌, List, [], ◌∷◌, Option, none, some,
}
use termwire.Ecr.Api.{Processed, Returned, got, refused, failed, panics, Call, completed, inquiry}
use termwire.Ecr.Api.Calls.{insert_card, process_payment, confirm_loyalty_points}
use termwire.Ecr.Client.{Client}
use termwire.Message.{Message}
use termwire.Message.Codec.{Codec}
use termwire.Message.Responses.{
  BankApplication, CardInsertionResponse, PaymentCompletionResponse, LoyaltyCardInquiryResponse,
}

pub record PaymentRequest : Type 0 where
  pub transaction_id : String
  pub amount_cents : ℕ
  pub currency : String
  pub bank_id : ℕ
  pub installment_count : ℕ
  pub use_loyalty : Bool
  pub loyalty_points : ℕ

pub record PaymentResult : Type 0 where
  pub success : Bool
  pub transaction_id : String
  pub confirmation_code : String
  pub auth_code : String
  pub receipt_number : String
  pub card_amount_cents : ℕ
  pub loyalty_amount_cents : ℕ
  pub remaining_points : ℕ
  pub card_number_masked : String
  pub card_holder_name : String
  pub error_message : String
  pub error_code : String

abbrev pub started : PaymentRequest → PaymentResult
started req = record {
  success = false;
  transaction_id = req.transaction_id;
  confirmation_code = "";
  auth_code = "";
  receipt_number = "";
  card_amount_cents = 0;
  loyalty_amount_cents = 0;
  remaining_points = 0;
  card_number_masked = "";
  card_holder_name = "";
  error_message = "";
  error_code = "";
}

abbrev pub with_card : CardInsertionResponse → PaymentResult → PaymentResult
with_card card result = record result {
  card_number_masked = card.card_number_masked;
  card_holder_name = card.card_holder_name;
}

abbrev pub with_error : String → String → PaymentResult → PaymentResult
with_error code text result = record result { error_message = text; error_code = code }

abbrev pub with_completion : PaymentCompletionResponse → PaymentResult → PaymentResult
with_completion p result = record result {
  success = true;
  confirmation_code = p.confirmation_code;
  auth_code = p.auth_code;
  receipt_number = p.receipt_number;
  card_amount_cents = p.card_amount_cents;
  loyalty_amount_cents = p.loyalty_amount_cents;
  remaining_points = p.remaining_points;
}

-- The flow writes the bank that it selects, and whether loyalty stays on, back into the request.
abbrev pub choose_bank : List BankApplication → PaymentRequest → PaymentRequest
choose_bank [] req = req
choose_bank (b ∷ banks) req = if req.bank_id == 0 then record req { bank_id = b.bank_id } else req

unfoldable pub selected : ℕ → List BankApplication → Option BankApplication
selected id [] = none
selected id (b ∷ banks) = if b.bank_id == id then some b else selected id banks

abbrev pub choose_application : Option BankApplication → PaymentRequest → String × PaymentRequest
choose_application none req = ("", req)
choose_application (some b) req =
    (b.aid, record req { use_loyalty = req.use_loyalty && b.supports_loyalty })

-- How many points to use, and their value in cents.
unfoldable pub points_to_use : ℕ → ℕ → ℕ → ℕ × ℕ
points_to_use wanted available amount =
    let asked = if wanted == 0 then available else wanted in
    let points = if ltb available asked then available else asked in
    if ltb amount points then (amount, amount) else (points, points)

-- The flow returns its result, and the error of the call that failed.
pub data Outcome : Type 0 where
  finished : PaymentResult → Outcome
  stopped : PaymentResult → String → Outcome
  panicked : Outcome

abbrev pub stop : String → String → String → PaymentResult → Outcome
stop code text e result = stopped (with_error code (text ++ e) result) e

abbrev pub settle : PaymentResult → Returned PaymentCompletionResponse → Outcome
settle result (got p) = finished (with_completion p result)
settle result (refused _ e) = stop "LOYALTY_ERROR" "Loyalty confirmation failed: " e result
settle result (failed e) = stop "LOYALTY_ERROR" "Loyalty confirmation failed: " e result
settle result panics = panicked

module _ (messages : Codec Message) where
  abbrev pub confirm_loyalty :
      Call → PaymentRequest → PaymentResult → LoyaltyCardInquiryResponse → Client → Outcome × Client
  confirm_loyalty call req result loyalty c =
      let (points, value) =
        points_to_use req.loyalty_points loyalty.available_points req.amount_cents in
      let (answer, c') = confirm_loyalty_points messages req.transaction_id points value call c in
      (settle result answer, c')

  -- What the flow makes of the answer to the payment.
  abbrev pub paid :
      Call → PaymentRequest → PaymentResult → Returned Processed → Client → Outcome × Client
  paid call req result (got (completed p)) c = (finished (with_completion p result), c)
  paid call req result (got (inquiry l)) c = confirm_loyalty call req result l c
  paid call req result (refused _ e) c =
      (stop "PAYMENT_ERROR" "Payment processing failed: " e result, c)
  paid call req result (failed e) c =
      (stop "PAYMENT_ERROR" "Payment processing failed: " e result, c)
  paid call req result panics c = (panicked, c)

  unfoldable pub pay :
      (ℕ → Call) → PaymentRequest → PaymentResult → String → Client → Outcome × Client
  pay calls req result aid c =
      let (answer, c') =
        process_payment messages req.transaction_id req.bank_id aid req.installment_count
          req.use_loyalty (calls 1) c in
      paid (calls 2) req result answer c'

  -- The request is a pointer of the caller's: the result has it as the flow leaves it.
  abbrev pub carded :
      (ℕ → Call)
      → PaymentRequest
      → Returned CardInsertionResponse
      → Client
      → Outcome × PaymentRequest × Client
  carded calls req (got card) c =
      let banked = choose_bank card.available_banks req in
      let (aid, req') = choose_application (selected banked.bank_id card.available_banks) banked in
      let (outcome, c') = pay calls req' (with_card card (started req)) aid c in (outcome, req', c')
  carded calls req (refused _ e) c =
      (stop "CARD_ERROR" "Card insertion failed: " e (started req), req, c)
  carded calls req (failed e) c =
      (stop "CARD_ERROR" "Card insertion failed: " e (started req), req, c)
  carded calls req panics c = (panicked, req, c)

  unfoldable pub execute_payment :
      (ℕ → Call) → PaymentRequest → Client → Outcome × PaymentRequest × Client
  execute_payment calls req c =
      let (answer, c') =
        insert_card messages req.transaction_id req.amount_cents req.currency (calls 0) c in
      carded calls req answer c'

  unfoldable pub execute_simple_payment :
      (ℕ → Call) → String → ℕ → String → Client → Outcome × PaymentRequest × Client
  execute_simple_payment calls id amount currency = execute_payment calls (record {
    transaction_id = id;
    amount_cents = amount;
    currency = currency;
    bank_id = 0;
    installment_count = 0;
    use_loyalty = false;
    loyalty_points = 0;
  })

  unfoldable pub execute_loyalty_payment :
      (ℕ → Call) → String → ℕ → String → ℕ → Client → Outcome × PaymentRequest × Client
  execute_loyalty_payment calls id amount currency points = execute_payment calls (record {
    transaction_id = id;
    amount_cents = amount;
    currency = currency;
    bank_id = 0;
    installment_count = 0;
    use_loyalty = true;
    loyalty_points = points;
  })

  unfoldable pub execute_installment_payment :
      (ℕ → Call) → String → ℕ → String → ℕ → Client → Outcome × PaymentRequest × Client
  execute_installment_payment calls id amount currency installments =
      execute_payment calls (record {
        transaction_id = id;
        amount_cents = amount;
        currency = currency;
        bank_id = 0;
        installment_count = installments;
        use_loyalty = false;
        loyalty_points = 0;
      })
