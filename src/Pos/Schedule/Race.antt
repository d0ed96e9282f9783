-- ===== src/Pos/Schedule/Race.antt =====
-- Two requests to process one payment, each from a connection of its own.
use Prim.Native.String.{String}
use termwire.Common.{ℕ, ◌≡◌, refl, ap, ap₂, ◌∙◌, false, true, ltb, List, [], ◌∷◌, none, some, arith}
use termwire.Go.Dict.{lookup}
use termwire.Message.{Message, payment_processing_request, payment_completion_response}
use termwire.Message.Codec.{Codec}
use termwire.Message.Requests.{PaymentProcessingRequest}
use termwire.Message.Responses.{PaymentCompletionResponse}
use termwire.Pos.Db.{Row, find_row}
use termwire.Pos.Handler.Approval.{response, accept_payment_records, response-Grants, final-Holds}
use termwire.Pos.Handler.Promise.{next_receipt, GrantsPayment, HoldsCompleted}
use termwire.Pos.Handler.Env.{Env, Handler, intn, answer}
use termwire.Pos.Handler.Pause.{lookup-put, chosen, paying, pausing, begin_processing_pauses}
use termwire.Pos.Handler.Payment.{accept_payment, finish_payment}
use termwire.Pos.Handler.Race.{second_response, second_response-Grants, accept_payment_raced}
use termwire.Pos.Manager.{put}
use termwire.Pos.Schedule.{Job, Terminal, begin_body, arrive, resume}
use termwire.Pos.Transaction.{Transaction}

module _ (codec : Codec PaymentCompletionResponse) where
  -- A request that goes into its pause.
  arrives_paused :
      (c : ℕ) (env : Env) (msg : Message) (req : PaymentProcessingRequest) (id : String)
      (t : Terminal) (txn : Transaction)
      → msg.body ≡ payment_processing_request req
      → req.transaction_id ≡ id
      → req.use_loyalty_points ≡ false
      → lookup id t.handler.manager.active ≡ some txn
      → txn.id ≡ id
      → find_row id t.handler.manager.db.rows ≡ none
      → arrive codec c env msg t ≡ record t {
        handler = pausing env req txn id t.handler;
        paused = record { connection = c; env = env; id = id } ∷ t.paused;
      }
  arrives_paused c env msg req id t txn body same plain open_ same_id unsettled =
      unfold arrive begin_body in
      ground (
        arith,
        begin_processing_pauses codec env req id txn t.handler same plain open_ same_id unsettled,
      )

  finish_accepted :
      (env : Env) (id : String) (h : Handler)
      → ltb (intn env 4 100) 90 ≡ true
      → finish_payment codec env id h ≡ accept_payment codec env id h
  unfolding finish_payment
  finish_accepted env id h e = ground arith

-- Two messages that ask to process the same active payment, without loyalty points.
module _ (codec : Codec PaymentCompletionResponse) (c c' : ℕ) (env env' : Env) (msg msg' : Message)
    (req req' : PaymentProcessingRequest) (id : String) (t : Terminal) (txn : Transaction)
    (body : msg.body ≡ payment_processing_request req)
    (body' : msg'.body ≡ payment_processing_request req') (named : req.transaction_id ≡ id)
    (named' : req'.transaction_id ≡ id) (plain : req.use_loyalty_points ≡ false)
    (plain' : req'.use_loyalty_points ≡ false) (calm : t.paused ≡ [])
    (open_ : lookup id t.handler.manager.active ≡ some txn) (same : txn.id ≡ id)
    (new : find_row id t.handler.manager.db.rows ≡ none) where
  abbrev first_txn : Transaction
  first_txn = paying env req txn

  abbrev first_pause : Handler
  first_pause = pausing env req txn id t.handler

  -- The transaction and the terminal while both requests are in their pauses.
  abbrev shared : Transaction
  shared = paying env' req' first_txn

  abbrev paused : Handler
  paused = pausing env' req' first_txn id first_pause

  abbrev one : Job
  one = record { connection = c; env = env; id = id }

  abbrev other : Job
  other = record { connection = c'; env = env'; id = id }

  abbrev both_paused : Terminal
  both_paused = record { handler = paused; paused = other ∷ one ∷ []; answers = t.answers }

  both_arrive : arrive codec c' env' msg' (arrive codec c env msg t) ≡ both_paused
  both_arrive =
      ap (arrive codec c' env' msg')
        (arrives_paused codec c env msg req id t txn body named plain open_ same new)
      ∙ arrives_paused codec c' env' msg' req' id
          (record t { handler = first_pause; paused = one ∷ t.paused }) first_txn body' named'
          plain' (lookup-put id first_txn (put id (chosen env req txn) t.handler.manager)) same new
      ∙ ap
          (λ (jobs : List Job). record {
            handler = paused;
            paused = other ∷ one ∷ jobs;
            answers = t.answers;
          })
          calm

  module _ (accepts : ltb (intn env 4 100) 90 ≡ true)
      (accepts' : ltb (intn env' 4 100) 90 ≡ true) where
    abbrev after_first : Handler
    after_first = (accept_payment codec env id paused).1

    both_end : resume codec 0 (resume codec 1 both_paused) ≡ record {
      handler = (accept_payment codec env' id after_first).1;
      paused = [];
      answers =
          (c', (accept_payment codec env' id after_first).0)
          ∷ (c, (accept_payment codec env id paused).0)
          ∷ t.answers;
    }
    unfolding resume
    both_end =
        ap
          (λ x.
            resume codec 0
              (record { handler = x.1; paused = other ∷ []; answers = (c, x.0) ∷ t.answers }))
          (finish_accepted codec env id paused accepts)
        ∙ ap
            (λ x. record {
              handler = x.1;
              paused = [];
              answers = (c', x.0) ∷ (c, (accept_payment codec env id paused).0) ∷ t.answers;
            })
            (finish_accepted codec env' id after_first accepts')

    module _ (b : ℕ) (blob blob' : List ℕ) (inserts : (env.call 11).fault 0 ≡ none)
        (reads : (env.call 12).fault 0 ≡ none) (updates : (env.call 13).fault 0 ≡ none)
        (reads' : (env'.call 12).fault 0 ≡ none) (updates' : (env'.call 13).fault 0 ≡ none)
        (marshals : codec.marshal (response env paused shared) ≡ some (b ∷ blob))
        (marshals' : codec.marshal (second_response env env' paused shared) ≡ some blob') where
      is_shared : lookup id paused.manager.active ≡ some shared
      is_shared = lookup-put id shared (put id (chosen env' req' first_txn) first_pause.manager)

      -- Two connections ask to process one active payment without loyalty points, whose identifier is
      -- new to the database, while no other request is in its pause. The bank accepts for both, the
      -- pause of the first one ends first, no statement fails, and the encoding of the first response
      -- is not empty. Then both connections get an answer with code 00 and the amounts of the one
      -- payment and the one next receipt number, but each answer has the confirmation code and the
      -- authorization code of its own request. The row of the payment is settled as completed, keeps the
      -- codes of the first answer and caches the second one.
      pub arrive_raced :
          let end =
            resume codec 0
              (resume codec 1 (arrive codec c' env' msg' (arrive codec c env msg t))) in
          ((p p' : PaymentCompletionResponse) × (end.answers
              ≡ (c', answer env' (payment_completion_response p'))
                ∷ (c, answer env (payment_completion_response p))
                ∷ t.answers)
            × GrantsPayment env (next_receipt t.handler) shared p
            × GrantsPayment env' (next_receipt t.handler) shared p'
            × (codec.marshal p' ≡ some blob'))
          × (end.paused ≡ [])
          × ((r : Row) × (find_row id end.handler.manager.db.rows ≡ some r)
              × HoldsCompleted env (next_receipt t.handler) shared r
              × (r.cached_response ≡ blob'))
      arrive_raced =
          let (reply, _, _, _) =
            accept_payment_records codec env paused id shared b blob is_shared same new inserts
              reads updates marshals in
          let (reply', row, _, _) =
            accept_payment_raced codec env env' paused id shared is_shared same new inserts reads'
              updates' blob' b blob reads updates marshals marshals' in
          rw (ap (λ x. resume codec 0 (resume codec 1 x)) both_arrive ∙ both_end) (
            (
              response env paused shared,
              second_response env env' paused shared,
              ap₂ (λ x y. (c', x) ∷ (c, y) ∷ t.answers) reply' reply,
              response-Grants env paused shared,
              second_response-Grants env env' paused shared,
              marshals',
            ),
            refl,
            (_, row, final-Holds env paused shared blob', refl),
          )
