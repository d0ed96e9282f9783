-- ===== src/Pos/Schedule/Laws.antt =====
-- What holds of the terminal whichever pauses end first.
use termwire.Common.{ℕ, ◌≡◌, String, List, none, some, inl, inr, arith, Option-cases}
use termwire.Message.{
  Body, payment_processing_request, loyalty_points_confirmation, payment_completion_request,
}
use termwire.Message.Codec.{Codec}
use termwire.Message.Responses.{PaymentCompletionResponse}
use termwire.Pos.Db.{Row, find_row}
use termwire.Pos.Handler.Env.{Env, Handler}
use termwire.Pos.Handler.Payment.{Progress, replies, pauses}
use termwire.Pos.Ledger.{Evolves}
use termwire.Pos.Ledger.Acts.{Runs, rests, Runs-trans, Runs-Extends}
use termwire.Pos.Ledger.Handlers.{
  processing-Keeps, confirmation-Keeps, completion-Keeps, body-Keeps,
}
use termwire.Pos.Ledger.Payments.{Keeps, finish-Keeps}
use termwire.Pos.Schedule.{
  Job, Terminal, pick, begin_body, admit, arrive, finish, resume, Schedules, quiet, arrives,
  resumes,
}

module _ (codec : Codec PaymentCompletionResponse) where
  begin_body-Keeps :
      (env : Env) (b : Body) (h : Handler) → Keeps codec h (begin_body codec env b h).1
  unfolding begin_body
  begin_body-Keeps env (payment_processing_request req) h = processing-Keeps codec env h req
  begin_body-Keeps env (loyalty_points_confirmation req) h = confirmation-Keeps codec env h req
  begin_body-Keeps env (payment_completion_request req) h = completion-Keeps codec env h req
  begin_body-Keeps env b h = body-Keeps codec env h b

  admit-Keeps :
      (c : ℕ) (env : Env) (p : Progress × Handler) (t : Terminal)
      → Runs codec t.handler.manager p.1.manager
      → Keeps codec t.handler (admit codec c env p t).handler
  admit-Keeps c env (replies r, h) t k = k
  admit-Keeps c env (pauses id, h) t k = k

  resume-Keeps : (k : ℕ) (t : Terminal) → Keeps codec t.handler (resume codec k t).handler
  resume-Keeps k t = elim (Option-cases (pick k t.paused)) [
    | inl e ↦ rw (resume_none e) rests
    | inr ((job, rest), e) ↦
        rw (resume_some job rest e) (finish-Keeps codec job.env job.id t.handler)
  ]
    where
      resume_none : pick k t.paused ≡ none → resume codec k t ≡ t
      resume_none e = unfold resume in ground arith

      resume_some :
          (job : Job) (rest : List Job)
          → pick k t.paused ≡ some (job, rest)
          → resume codec k t ≡ finish codec job rest t
      resume_some job rest e = unfold resume in ground arith

  pub Schedules-Runs :
      {t t' : Terminal} {n : ℕ}
      → Schedules codec t t' n
      → Runs codec t.handler.manager t'.handler.manager
  unfolding arrive
  Schedules-Runs quiet = rests
  Schedules-Runs (arrives c env msg {t'} s) =
      Runs-trans (Schedules-Runs s)
        (admit-Keeps c env _ t' (begin_body-Keeps env msg.body t'.handler))
  Schedules-Runs (resumes k {t'} s) = Runs-trans (Schedules-Runs s) (resume-Keeps k t')

  -- However many messages of whatever connections arrive, however the pauses of their payments
  -- interleave, and whatever each of them meets, a settled transaction stays in the database: under its
  -- identifier there is a row with the same amounts, currency, codes, receipt number and creation
  -- time, whose state is the old one, or has gone from completed to voided or to refunded, and whose
  -- batch is the old one, or was given to a row that had none.
  pub Schedules-Evolves :
      (t t' : Terminal) (n : ℕ) (k : String) (r : Row)
      → Schedules codec t t' n
      → find_row k t.handler.manager.db.rows ≡ some r
      → (s : Row) × (find_row k t'.handler.manager.db.rows ≡ some s) × Evolves r s
  Schedules-Evolves t t' n k r path found = (Runs-Extends (Schedules-Runs path)).grows k r found
