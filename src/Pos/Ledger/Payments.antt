-- ===== src/Pos/Ledger/Payments.antt =====
-- A card's insertion and the end of a payment, each as a run of the manager's operations.
use Prim.Native.String.{◌++◌}
use termwire.Go.Fmt.{decimal, padded}
use termwire.Go.Time.{unix}
use termwire.Common.{◌≡◌, String, inl, inr, ltb, none, some, arith, Bool-cases, Option-cases}
use termwire.Message.Codec.{Codec}
use termwire.Message.Requests.{CardInsertionRequest}
use termwire.Message.Responses.{PaymentCompletionResponse}
use termwire.Pos.Card.{CardData, simulate_card_insertion}
use termwire.Pos.Db.{Outcome, ok, err}
use termwire.Pos.Db.Laws.{Outcome-cases}
use termwire.Pos.Handler.Env.{Env, intn, Handler}
use termwire.Pos.Handler.Payment.{
  completion, handle_card_insertion, accept_payment, decline_payment, finish_payment, Progress,
  replies, pauses, proceed,
}
use termwire.Pos.Ledger.Acts.{
  Runs, rests, acts, once, creates, updates, takes_card, completes, fails, caches, Runs-to,
}
use termwire.Pos.Manager.{
  Manager, create_transaction, update_transaction_state, set_card_data, complete_transaction,
}
use termwire.Pos.Settled.{get_completed_transaction_by_id, set_cached_response}
use termwire.Pos.Transaction.{Transaction, bank_selection}

abbrev pub Keeps : Codec PaymentCompletionResponse → Handler → Handler → Type 0
Keeps codec h h' = Runs codec h.manager h'.manager

module _ (codec : Codec PaymentCompletionResponse) (env : Env) (req : CardInsertionRequest)
    (h : Handler) where
  abbrev created : Outcome Transaction × Manager
  created =
      create_transaction (env.call 0) (env.clock 2) req.transaction_id req.transaction_amount_cents
        req.currency h.manager

  abbrev card : CardData
  card =
      (simulate_card_insertion (intn env 1 1000000000000) (intn env 2 2) (intn env 3 50000)
        h.card_reader).0

  abbrev with_card : Manager
  with_card = (set_card_data (env.call 1) req.transaction_id card created.1).1

  card_insertion_err :
      (e : String) → created.0 ≡ err e → (handle_card_insertion env req h).1.manager ≡ created.1
  unfolding handle_card_insertion
  card_insertion_err e p = ground arith

  card_insertion_ok :
      (txn : Transaction)
      → created.0 ≡ ok txn
      → (handle_card_insertion env req h).1.manager
        ≡ (update_transaction_state (env.call 2) req.transaction_id bank_selection with_card).1
  unfolding handle_card_insertion
  card_insertion_ok txn p = ground arith

  pub card_insertion-Keeps : Keeps codec h (handle_card_insertion env req h).1
  card_insertion-Keeps = elim (Outcome-cases created.0) [
    | inl (e, p) ↦ Runs-to first_step (card_insertion_err e p)
    | inr (txn, p) ↦
        Runs-to
          (acts (acts first_step (takes_card (env.call 1) req.transaction_id card))
            (updates (env.call 2) req.transaction_id bank_selection))
          (card_insertion_ok txn p)
  ]
    where
      first_step : Runs codec h.manager created.1
      first_step = once (
          creates (env.call 0) (env.clock 2) req.transaction_id req.transaction_amount_cents
            req.currency)

module _ (codec : Codec PaymentCompletionResponse) where
  module _ (env : Env) (id : String) (h : Handler) where
    abbrev confirmation : String
    confirmation = "CONF-" ++ decimal (unix (env.clock 3))

    abbrev auth : String
    auth = "AUTH-" ++ padded 6 (intn env 5 1000000)

    abbrev after : Manager
    after = (complete_transaction (env.call 11) id confirmation auth h.manager).1

    accept_lost :
        get_completed_transaction_by_id codec (env.call 12) 0 id after ≡ none
        → (accept_payment codec env id h).1.manager ≡ after
    unfolding accept_payment
    accept_lost e = ground arith

    accept_found :
        (txn : Transaction)
        → get_completed_transaction_by_id codec (env.call 12) 0 id after ≡ some txn
        → (accept_payment codec env id h).1.manager
          ≡ (set_cached_response codec
              (env.call 13)
              txn.id
              (completion confirmation auth txn)
              env.marshal_error
              after).1
    unfolding accept_payment
    accept_found txn e = ground arith

    accept-Keeps : Keeps codec h (accept_payment codec env id h).1
    accept-Keeps =
        elim (Option-cases (get_completed_transaction_by_id codec (env.call 12) 0 id after)) [
          | inl e ↦ Runs-to first_step (accept_lost e)
          | inr (txn, e) ↦
              Runs-to
                (acts first_step (
                  caches (env.call 13) txn.id (completion confirmation auth txn) env.marshal_error))
                (accept_found txn e)
        ]
      where
        first_step : Runs codec h.manager after
        first_step = once (completes (env.call 11) id confirmation auth)

    decline-Keeps : Keeps codec h (decline_payment codec env id h).1
    unfolding decline_payment
    decline-Keeps = once (fails (env.call 11) id "Payment declined by bank")

    pub finish-Keeps : Keeps codec h (finish_payment codec env id h).1
    finish-Keeps = elim (Bool-cases (ltb (intn env 4 100) 90)) [
      | inl e ↦ Runs-to accept-Keeps (unfold finish_payment in ground arith)
      | inr e ↦ Runs-to decline-Keeps (unfold finish_payment in ground arith)
    ]

  -- What a handler does behind the pause.
  pub proceed-Keeps : (env : Env) (p : Progress × Handler) → Keeps codec p.1 (proceed codec env p).1
  proceed-Keeps env (replies r, h) = rests
  proceed-Keeps env (pauses id, h) = finish-Keeps env id h
