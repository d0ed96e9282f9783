-- ===== src/Pos/Schedule.antt =====
-- Requests of several connections of which some are in the pause of processPayment (pos/handler.go:229) at
-- a time. Between the pauses one handler runs alone. A panic is an answer like any other here, though it
-- ends the program.
pub mod Laws
pub mod Race
use termwire.Common.{ℕ, zero, suc, ◌+◌, ◌≡◌, refl, List, [], ◌∷◌, Option, none, some, length, arith}
use termwire.Message.{
  Message, Body, payment_processing_request, loyalty_points_confirmation,
  payment_completion_request,
}
use termwire.Message.Codec.{Codec}
use termwire.Message.Responses.{PaymentCompletionResponse}
use termwire.Pos.Handler.Dispatch.{handle_body}
use termwire.Pos.Handler.Env.{Env, Handler, Reply}
use termwire.Pos.Handler.Payment.{
  Progress, replies, pauses, begin_processing, begin_confirmation, begin_completion, finish_payment,
}
use Prim.Native.String.{String}

-- A request in its pause: the connection that it came from, and the transaction's identifier.
pub record Job : Type 0 where
  pub connection : ℕ
  pub env : Env
  pub id : String

-- The terminal, the requests in their pauses, and the replies so far with their connections, both from
-- the last one on.
pub record Terminal : Type 0 where
  pub handler : Handler
  pub paused : List Job
  pub answers : List (ℕ × Reply)

abbrev pub pick {ℓ} : {A : Type ℓ} → ℕ → List A → Option (A × List A)
pick k [] = none
pick zero (x ∷ xs) = some (x, xs)
pick (suc k) (x ∷ xs) = elim (pick k xs) [ none ↦ none | some (y, ys) ↦ some (y, x ∷ ys) ]

module _ (codec : Codec PaymentCompletionResponse) where
  -- HandleMessage up to the pause.
  unfoldable pub begin_body : Env → Body → Handler → Progress × Handler
  begin_body env (payment_processing_request req) h = begin_processing codec env req h
  begin_body env (loyalty_points_confirmation req) h = begin_confirmation codec env req h
  begin_body env (payment_completion_request req) h = begin_completion codec env req h
  begin_body env b h = let (r, h') = handle_body codec env b h in (replies r, h')

  abbrev pub admit : ℕ → Env → Progress × Handler → Terminal → Terminal
  admit c env (replies r, h) t = record t { handler = h; answers = (c, r) ∷ t.answers }
  admit c env (pauses id, h) t = record t {
    handler = h;
    paused = record { connection = c; env = env; id = id } ∷ t.paused;
  }

  -- A message of a connection.
  unfoldable pub arrive : ℕ → Env → Message → Terminal → Terminal
  arrive c env msg t = admit c env (begin_body env msg.body t.handler) t

  abbrev pub finish : Job → List Job → Terminal → Terminal
  finish job rest t =
      let (r, h) = finish_payment codec job.env job.id t.handler in
      record { handler = h; paused = rest; answers = (job.connection, r) ∷ t.answers }

  -- One of the pauses is over, if there is one of that number.
  unfoldable pub resume : ℕ → Terminal → Terminal
  resume k t = elim (pick k t.paused) [ none ↦ t | some (job, rest) ↦ finish job rest t ]

  -- What the terminal can come to, with the number of messages that arrived.
  pub data Schedules (t : Terminal) : Terminal → ℕ → Type 0 where
    quiet : Schedules t t 0
    arrives :
        (c : ℕ) (env : Env) (msg : Message) {t' : Terminal} {n : ℕ}
        → Schedules t t' n
        → Schedules t (arrive c env msg t') (suc n)
    resumes : (k : ℕ) {t' : Terminal} {n : ℕ} → Schedules t t' n → Schedules t (resume k t') n
