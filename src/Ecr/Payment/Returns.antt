-- ===== src/Ecr/Payment/Returns.antt =====
-- When ExecutePayment of ecr/payment.go returns at all, and when it reads the body of no message.
use termwire.Common.{◌≡◌, refl, Bool-cases, inl, inr, ap, String, str_eq, ℕ, List, some, ◌∙◌}
use termwire.Common.Int.{pos, negsuc}
use termwire.Ecr.Api.{
  Returned, got, refused, failed, panics, Call, Processed, completed, inquiry, received, checked,
  to_insert_card, to_process_payment, to_confirm_loyalty_points, request,
}
use termwire.Ecr.Api.Calls.{ask, insert_card, process_payment, confirm_loyalty_points}
use termwire.Ecr.Client.{Client, Answer, response, error, nothing, send_rounds}
use termwire.Ecr.Client.Stream.{Connection}
use termwire.Ecr.Payment.{
  PaymentRequest, PaymentResult, Outcome, finished, stopped, panicked, carded, execute_payment,
  paid, pay, settle,
}
use termwire.Ecr.Client.Returns.{IsAnswer, send_message-IsKept}
use termwire.Ecr.Client.Sending.{sends}
use termwire.Message.{
  Message, Body, payment_completion_response, loyalty_card_inquiry_response,
  card_insertion_response, card_insertion_request,
}
use termwire.Message.Codec.{Codec}
use termwire.Message.Responses.{CardInsertionResponse, PaymentCompletionResponse}

abbrev IsReturned : {A : Type 0} → Returned A → Type 0
IsReturned (got a) = Unit
IsReturned (refused a e) = Unit
IsReturned (failed e) = Unit
IsReturned panics = ⊥

abbrev pub IsOutcome : Outcome → Type 0
IsOutcome (finished r) = Unit
IsOutcome (stopped r e) = Unit
IsOutcome panicked = ⊥

-- What an answer makes of a body is never a panic.
abbrev IsPick : {A : Type 0} → (Body → Returned A) → Type 0
IsPick pick = (b : Body) → IsReturned (pick b)

received-IsReturned :
    {A : Type 0} (pick : Body → Returned A) (a : Answer)
    → IsPick pick
    → IsAnswer a
    → IsReturned (received pick a)
received-IsReturned pick (response msg) picks answers = picks msg.body
received-IsReturned pick (error e) picks answers = tt
received-IsReturned pick nothing picks answers = absurd answers

checked-IsReturned :
    {A : Type 0} (what code text : String) (r : A) → IsReturned (checked what code text r)
checked-IsReturned what code text r = elim (Bool-cases (str_eq code "00")) [
  | inl e ↦ rw e tt
  | inr e ↦ rw e tt
]

to_insert_card-IsPick : IsPick to_insert_card
to_insert_card-IsPick (card_insertion_response r) = checked-IsReturned _ r.code r.message r
to_insert_card-IsPick b = tt

to_process_payment-IsPick : IsPick to_process_payment
to_process_payment-IsPick (payment_completion_response r) =
    checked-IsReturned _ r.code r.message (completed r)
to_process_payment-IsPick (loyalty_card_inquiry_response r) = tt
to_process_payment-IsPick b = tt

to_confirm_loyalty_points-IsPick : IsPick to_confirm_loyalty_points
to_confirm_loyalty_points-IsPick (payment_completion_response r) =
    checked-IsReturned _ r.code r.message r
to_confirm_loyalty_points-IsPick b = tt

module _ (messages : Codec Message) (n : ℕ) where
  abbrev Tries : Client → Type 0
  Tries c = c.config.max_retries ≡ pos n

  -- A call that returns, and the client's configuration behind it.
  ask-IsReturned :
      {A : Type 0} (pick : Body → Returned A) (b : Body) (call : Call) (c : Client)
      → IsPick pick
      → Tries c
      → let r = ask messages pick b call c in IsReturned (r.0) × Tries (r.1)
  ask-IsReturned pick b call c picks tries =
      let (answers, kept) = send_message-IsKept messages call.net (request call b) c n tries in
      (received-IsReturned pick _ picks answers, ap (λ k. k.max_retries) kept ∙ tries)

  settle-IsOutcome :
      (r : PaymentResult) (answer : Returned PaymentCompletionResponse)
      → IsReturned answer
      → IsOutcome (settle r answer)
  settle-IsOutcome r (got p) returns = tt
  settle-IsOutcome r (refused _ e) returns = tt
  settle-IsOutcome r (failed e) returns = tt
  settle-IsOutcome r panics returns = absurd returns

  paid-IsOutcome :
      (call : Call) (req : PaymentRequest) (r : PaymentResult) (answer : Returned Processed)
      (c : Client)
      → IsReturned answer
      → Tries c
      → IsOutcome (paid messages call req r answer c).0
  paid-IsOutcome call req r (got (completed p)) c returns tries = tt
  paid-IsOutcome call req r (got (inquiry l)) c returns tries = settle-IsOutcome r _ (
      unfold confirm_loyalty_points in
      (ask-IsReturned to_confirm_loyalty_points _ call c to_confirm_loyalty_points-IsPick tries).0)
  paid-IsOutcome call req r (refused _ e) c returns tries = tt
  paid-IsOutcome call req r (failed e) c returns tries = tt
  paid-IsOutcome call req r panics c returns tries = absurd returns

  pay-IsOutcome :
      (calls : ℕ → Call) (req : PaymentRequest) (r : PaymentResult) (aid : String) (c : Client)
      → Tries c
      → IsOutcome (pay messages calls req r aid c).0
  unfolding pay process_payment
  pay-IsOutcome calls req r aid c tries =
      let (returns, kept) =
        ask-IsReturned to_process_payment _ (calls 1) c to_process_payment-IsPick tries in
      paid-IsOutcome (calls 2) req r _ _ returns kept

  carded-IsOutcome :
      (calls : ℕ → Call) (req : PaymentRequest) (answer : Returned CardInsertionResponse)
      (c : Client)
      → IsReturned answer
      → Tries c
      → IsOutcome (carded messages calls req answer c).0
  carded-IsOutcome calls req (got card) c returns tries = pay-IsOutcome calls _ _ _ c tries
  carded-IsOutcome calls req (refused _ e) c returns tries = tt
  carded-IsOutcome calls req (failed e) c returns tries = tt
  carded-IsOutcome calls req panics c returns tries = absurd returns

  -- With a maximum of retries that is not negative, ExecutePayment returns a result, with or without
  -- an error, whatever the terminal answers, however the connection fails, and also without one: it
  -- never reads the body of a message that is not there.
  pub execute_payment-IsOutcome :
      (calls : ℕ → Call) (req : PaymentRequest) (c : Client)
      → c.config.max_retries ≡ pos n
      → IsOutcome (execute_payment messages calls req c).0
  unfolding execute_payment insert_card
  execute_payment-IsOutcome calls req c tries =
      let (returns, kept) =
        ask-IsReturned to_insert_card _ (calls 0) c to_insert_card-IsPick tries in
      carded-IsOutcome calls req _ _ returns kept

-- The message of the first call.
abbrev pub asked : PaymentRequest → Body
asked req = card_insertion_request (record {
  transaction_amount_cents = req.amount_cents;
  currency = req.currency;
  transaction_id = req.transaction_id;
})

-- With a negative maximum of retries, on an open connection, ExecutePayment reads the body of no
-- message, which ends the register's program, though the message could be encoded and the connection
-- works; and nothing is written.
pub execute_payment_panics :
    (messages : Codec Message) (calls : ℕ → Call) (req : PaymentRequest) (c : Client)
    (conn : Connection) (n : ℕ) (bytes : List ℕ)
    → c.config.max_retries ≡ negsuc n
    → c.connection ≡ some conn
    → messages.marshal (request (calls 0) (asked req)) ≡ some bytes
    → let r = execute_payment messages calls req c in
      (r.0 ≡ panicked) × (r.2.connection ≡ some conn)
unfolding execute_payment insert_card send_rounds
execute_payment_panics messages calls req c conn n bytes negative open_ encodes =
    rw
      (
        sends messages (calls 0).net (request (calls 0) (asked req)) c conn bytes open_ encodes,
        negative,
      )
      (refl, refl)
