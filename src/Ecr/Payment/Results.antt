-- ===== src/Ecr/Payment/Results.antt =====
-- What ExecutePayment of ecr/payment.go may return.
use termwire.Common.{
  ◌≡◌, refl, subst, sym, Bool-cases, inl, inr, String, str_eq, str_eq_iff, Bool, true, false, ℕ,
  arith, List, [], ◌∷◌, Option, none, some, ◌∙◌,
}
use termwire.Ecr.Api.{
  Returned, got, refused, failed, panics, Call, Processed, completed, inquiry, request, received,
  to_process_payment, to_confirm_loyalty_points,
}
use termwire.Ecr.Api.Calls.{process_payment, confirm_loyalty_points}
use termwire.Ecr.Client.{Client, Answer, response, error, nothing, send_message}
use termwire.Ecr.Payment.{
  PaymentRequest, PaymentResult, Outcome, finished, stopped, panicked, carded, choose_application,
  choose_bank, selected, execute_payment, paid, pay, settle,
}
use termwire.Message.{
  Message, Body, payment_completion_response, loyalty_card_inquiry_response,
  payment_processing_request, loyalty_points_confirmation,
}
use termwire.Message.Codec.{Codec}
use termwire.Message.Responses.{BankApplication, CardInsertionResponse, PaymentCompletionResponse}

-- A request to pay, or to confirm the points of, the transaction of an identifier.
abbrev pub IsFor : String → Body → Type 0
IsFor id (payment_processing_request r) = r.transaction_id ≡ id
IsFor id (loyalty_points_confirmation r) = r.transaction_id ≡ id
IsFor id b = ⊥

-- In one of the calls, the client has asked for the transaction, and has got the message with this
-- completion, whose code is 00.
abbrev pub CameIn : Codec Message → (ℕ → Call) → String → PaymentCompletionResponse → Type 0
CameIn messages calls id p =
    (k : ℕ) × (b : Body) × IsFor id b
    × (c c' : Client) × (msg : Message) × (send_message messages (calls k).net (request (calls k) b)
          c
        ≡ (response msg, c'))
    × (msg.body ≡ payment_completion_response p)
    × (p.code ≡ "00")

-- A success has the data of a completion that came in, and an error says that nothing was paid.
abbrev TellsOf : Codec Message → (ℕ → Call) → String → Outcome → Type 0
TellsOf messages calls id (finished r) =
    (r.success ≡ true)
    × (r.transaction_id ≡ id)
    × (p : PaymentCompletionResponse) × CameIn messages calls id p
    × (r.confirmation_code ≡ p.confirmation_code)
    × (r.receipt_number ≡ p.receipt_number)
    × (r.card_amount_cents ≡ p.card_amount_cents)
    × (r.loyalty_amount_cents ≡ p.loyalty_amount_cents)
TellsOf messages calls id (stopped r e) =
    (r.success ≡ false)
    × (r.transaction_id ≡ id)
    × (r.confirmation_code ≡ "")
    × (r.card_amount_cents ≡ 0)
    × (r.loyalty_amount_cents ≡ 0)
TellsOf messages calls id panicked = Unit

abbrev pub Tells : Codec Message → (ℕ → Call) → PaymentRequest → Outcome → Type 0
Tells messages calls req = TellsOf messages calls req.transaction_id

module _ (P : PaymentCompletionResponse → Type 0) where
  abbrev IsPaid : Returned Processed → Type 0
  IsPaid (got (completed p)) = P p
  IsPaid (got (inquiry l)) = Unit
  IsPaid (refused r e) = Unit
  IsPaid (failed e) = Unit
  IsPaid panics = Unit

  abbrev IsConfirmed : Returned PaymentCompletionResponse → Type 0
  IsConfirmed (got p) = P p
  IsConfirmed (refused r e) = Unit
  IsConfirmed (failed e) = Unit
  IsConfirmed panics = Unit

  abbrev Passes : Body → Type 0
  Passes b =
      (p : PaymentCompletionResponse) → b ≡ payment_completion_response p → p.code ≡ "00" → P p

  to_process_payment-IsPaid : (b : Body) → Passes b → IsPaid (to_process_payment b)
  to_process_payment-IsPaid (payment_completion_response r) k =
      elim (Bool-cases (str_eq r.code "00")) [
        | inl e ↦ rw e (k r refl ((str_eq_iff r.code "00").0 e))
        | inr e ↦ rw e tt
      ]
  to_process_payment-IsPaid (loyalty_card_inquiry_response r) k = tt
  to_process_payment-IsPaid b k = tt

  to_confirm_loyalty_points-IsConfirmed :
      (b : Body) → Passes b → IsConfirmed (to_confirm_loyalty_points b)
  to_confirm_loyalty_points-IsConfirmed (payment_completion_response r) k =
      elim (Bool-cases (str_eq r.code "00")) [
        | inl e ↦ rw e (k r refl ((str_eq_iff r.code "00").0 e))
        | inr e ↦ rw e tt
      ]
  to_confirm_loyalty_points-IsConfirmed b k = tt

-- What the client's answer to one of the calls comes to.
module _ (messages : Codec Message) (calls : ℕ → Call) (id : String) (k : ℕ) (b : Body)
    (for_id : IsFor id b) (c : Client) where
  abbrev Sends : Answer × Client → Type 0
  Sends x = send_message messages (calls k).net (request (calls k) b) c ≡ x

  passes :
      (msg : Message) (c' : Client)
      → Sends (response msg, c')
      → Passes (CameIn messages calls id) msg.body
  passes msg c' e p same ok = (k, b, for_id, c, c', msg, e, same, ok)

  received-IsPaid :
      (x : Answer × Client)
      → Sends x
      → IsPaid (CameIn messages calls id) (received to_process_payment (x.0))
  received-IsPaid (response msg, c') e =
      to_process_payment-IsPaid (CameIn messages calls id) msg.body (passes msg c' e)
  received-IsPaid (error x, c') e = tt
  received-IsPaid (nothing, c') e = tt

  received-IsConfirmed :
      (x : Answer × Client)
      → Sends x
      → IsConfirmed (CameIn messages calls id) (received to_confirm_loyalty_points (x.0))
  received-IsConfirmed (response msg, c') e =
      to_confirm_loyalty_points-IsConfirmed (CameIn messages calls id) msg.body (passes msg c' e)
  received-IsConfirmed (error x, c') e = tt
  received-IsConfirmed (nothing, c') e = tt

-- The result so far: the card's data, and nothing paid.
abbrev IsStarted : PaymentRequest → PaymentResult → Type 0
IsStarted req r =
    (r.success ≡ false)
    × (r.transaction_id ≡ req.transaction_id)
    × (r.confirmation_code ≡ "")
    × (r.card_amount_cents ≡ 0)
    × (r.loyalty_amount_cents ≡ 0)

module _ (messages : Codec Message) (calls : ℕ → Call) where
  settle-Tells :
      (req : PaymentRequest) (r : PaymentResult) (answer : Returned PaymentCompletionResponse)
      → IsStarted req r
      → IsConfirmed (CameIn messages calls req.transaction_id) answer
      → Tells messages calls req (settle r answer)
  settle-Tells req r (got p) started_ ok = (refl, started_.1, p, ok, refl, refl, refl, refl)
  settle-Tells req r (refused _ e) started_ ok = started_
  settle-Tells req r (failed e) started_ ok = started_
  settle-Tells req r panics started_ ok = tt

  confirm_loyalty_points-IsConfirmed :
      (id : String) (points value k : ℕ) (c : Client)
      → IsConfirmed
          (CameIn messages calls id)
          (confirm_loyalty_points messages id points value (calls k) c).0
  unfolding confirm_loyalty_points
  confirm_loyalty_points-IsConfirmed id points value k c =
      received-IsConfirmed messages calls id k _ refl c _ refl

  process_payment-IsPaid :
      (id : String) (bank : ℕ) (aid : String) (installments : ℕ) (loyal : Bool) (k : ℕ) (c : Client)
      → IsPaid
          (CameIn messages calls id)
          (process_payment messages id bank aid installments loyal (calls k) c).0
  unfolding process_payment
  process_payment-IsPaid id bank aid installments loyal k c =
      received-IsPaid messages calls id k _ refl c _ refl

  paid-Tells :
      (k : ℕ) (req : PaymentRequest) (r : PaymentResult) (answer : Returned Processed) (c : Client)
      → IsStarted req r
      → IsPaid (CameIn messages calls req.transaction_id) answer
      → Tells messages calls req (paid messages (calls k) req r answer c).0
  paid-Tells k req r (got (completed p)) c started_ ok =
      (refl, started_.1, p, ok, refl, refl, refl, refl)
  paid-Tells k req r (got (inquiry l)) c started_ ok =
      settle-Tells req r _ started_ (confirm_loyalty_points-IsConfirmed _ _ _ k c)
  paid-Tells k req r (refused _ e) c started_ ok = started_
  paid-Tells k req r (failed e) c started_ ok = started_
  paid-Tells k req r panics c started_ ok = tt

  pay-Tells :
      (req : PaymentRequest) (r : PaymentResult) (aid : String) (c : Client)
      → IsStarted req r
      → Tells messages calls req (pay messages calls req r aid c).0
  unfolding pay
  pay-Tells req r aid c started_ =
      paid-Tells 2 req r _ _ started_ (process_payment-IsPaid _ _ _ _ _ 1 c)

  -- The bank and the loyalty that the flow writes into the request leave its identifier.
  choose_bank-transaction_id :
      (banks : List BankApplication) (req : PaymentRequest)
      → (choose_bank banks req).transaction_id ≡ req.transaction_id
  choose_bank-transaction_id [] req = refl
  choose_bank-transaction_id (b ∷ banks) req = ground arith

  choose_application-transaction_id :
      (bank : Option BankApplication) (req : PaymentRequest)
      → (choose_application bank req).1.transaction_id ≡ req.transaction_id
  choose_application-transaction_id none req = refl
  choose_application-transaction_id (some b) req = refl

  carded-Tells :
      (req : PaymentRequest) (answer : Returned CardInsertionResponse) (c : Client)
      → Tells messages calls req (carded messages calls req answer c).0
  carded-Tells req (got card) c =
      let banked = choose_bank card.available_banks req in
      let bank = selected banked.bank_id card.available_banks in
      let same =
        choose_application-transaction_id bank banked
        ∙ choose_bank-transaction_id card.available_banks req in
      subst (λ x. TellsOf messages calls x (carded messages calls req (got card) c).0) same
        (pay-Tells _ _ _ c (refl, sym same, refl, refl, refl))
  carded-Tells req (refused _ e) c = (refl, refl, refl, refl, refl)
  carded-Tells req (failed e) c = (refl, refl, refl, refl, refl)
  carded-Tells req panics c = tt

  -- Whatever the terminal and the connection do, a payment that ExecutePayment reports as a success
  -- has the request's transaction and the confirmation, receipt and amounts of a completion that
  -- came in with code 00: in one of the flow's calls the client asked to pay, or to confirm the
  -- points of, this transaction, and got the message with that completion. And a payment that it
  -- returns with an error is no success and reports no amount.
  pub execute_payment-Tells :
      (req : PaymentRequest) (c : Client)
      → Tells messages calls req (execute_payment messages calls req c).0
  unfolding execute_payment
  execute_payment-Tells req c = carded-Tells req _ _
