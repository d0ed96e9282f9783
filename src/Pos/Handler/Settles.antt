-- ===== src/Pos/Handler/Settles.antt =====
-- A payment from the card to the database: the requests that a register sends for it, one after the other.
use Prim.Native.String.{String, ◌++◌}
use termwire.Common.{
  ℕ, ◌+◌, u64, ltb, ◌≡◌, refl, ap, ◌∙◌, true, false, List, ◌∷◌, none, some, arith,
}
use termwire.Go.Dict.{lookup}
use termwire.Go.Fmt.{decimal}
use termwire.Message.{payment_completion_response}
use termwire.Message.Codec.{Codec}
use termwire.Message.Requests.{CardInsertionRequest, PaymentProcessingRequest}
use termwire.Message.Responses.{PaymentCompletionResponse}
use termwire.Pos.Card.{CardData, CardReader, simulate_card_insertion}
use termwire.Pos.Db.{ok, Row, find_row, row_of}
use termwire.Pos.Handler.Approval.{final, response, accept_payment_records}
use termwire.Pos.Handler.Env.{Env, intn, Handler, Reply, answer}
use termwire.Pos.Handler.Pause.{lookup-put, chosen, paying, pausing, begin_processing_pauses}
use termwire.Pos.Handler.Payment.{
  proceed, accept_payment, finish_payment, handle_card_insertion, handle_payment_processing,
}
use termwire.Pos.Manager.{
  create_transaction, fresh_transaction, put, set_card_data, update_transaction_state,
}
use termwire.Pos.Manager.Create.{Admits, create_transaction-Admits}
use termwire.Pos.Transaction.{Transaction, bank_selection, payment_completed, state_code}

module _ (env : Env) (req : CardInsertionRequest) (h : Handler) where
  abbrev id : String
  id = req.transaction_id

  abbrev read_card : CardData × CardReader
  read_card =
      simulate_card_insertion (intn env 1 1000000000000) (intn env 2 2) (intn env 3 50000)
        h.card_reader

  abbrev opened : Transaction
  opened = fresh_transaction (env.call 0) (env.clock 2) id req.transaction_amount_cents req.currency

  abbrev with_its_card : Transaction
  with_its_card = record opened { card = some read_card.0; last_updated = (env.call 1).now }

  -- The transaction and the terminal behind a card's insertion.
  abbrev pub presented : Transaction
  presented = record with_its_card { state = bank_selection; last_updated = (env.call 2).now }

  abbrev pub inserted : Handler
  inserted = record {
    manager = put id presented (put id with_its_card (put id opened h.manager));
    card_reader = read_card.1;
  }

  inserts :
      create_transaction
          (env.call 0)
          (env.clock 2)
          id
          req.transaction_amount_cents
          req.currency
          h.manager
        ≡ (ok opened, put id opened h.manager)
      → (handle_card_insertion env req h).1 ≡ inserted
  inserts e =
      unfold handle_card_insertion set_card_data update_transaction_state in
      ground (
        arith,
        lookup-put id opened h.manager,
        lookup-put id with_its_card (put id opened h.manager),
      )

  module _ (env' : Env) (req' : PaymentProcessingRequest) where
    -- The transaction and the terminal in the pause of the payment.
    abbrev pub paid_for : Transaction
    paid_for = paying env' req' presented

    abbrev pub in_pause : Handler
    in_pause = pausing env' req' presented id inserted

    module _ (codec : Codec PaymentCompletionResponse) (same : req'.transaction_id ≡ id)
        (plain : req'.use_loyalty_points ≡ false)
        (unsettled : find_row id h.manager.db.rows ≡ none) where
      processes :
          handle_payment_processing codec env' req' inserted ≡ finish_payment codec env' id in_pause
      unfolding handle_payment_processing
      processes = ap (proceed codec env') (
          begin_processing_pauses codec env' req' id presented inserted same plain
            (lookup-put id presented (put id with_its_card (put id opened h.manager))) refl
            unsettled)

      -- The transaction that the database holds in the end.
      abbrev pub sold : Transaction
      sold = final env' in_pause paid_for

      module _ (b : ℕ) (blob : List ℕ) (accepts : ltb (intn env' 4 100) 90 ≡ true)
          (inserts_row : (env'.call 11).fault 0 ≡ none) (reads : (env'.call 12).fault 0 ≡ none)
          (updates : (env'.call 13).fault 0 ≡ none)
          (marshals : codec.marshal (response env' in_pause paid_for) ≡ some (b ∷ blob)) where
        abbrev result : Reply × Handler
        result = handle_payment_processing codec env' req' (handle_card_insertion env req h).1

        accepted :
            Admits id req.transaction_amount_cents req.currency h.manager
            → result ≡ accept_payment codec env' id in_pause
        accepted admits =
            let created =
              (create_transaction-Admits (env.call 0) (env.clock 2) id req.transaction_amount_cents
                  req.currency h.manager).1
                admits in
            ap (handle_payment_processing codec env' req') (inserts created)
            ∙ processes
            ∙ unfold finish_payment in ground arith

        -- The register inserts a card for a transaction that CreateTransaction admits and asks to process
        -- it, without loyalty points. If its identifier is new to the database too, the bank accepts,
        -- the statements that insert, read and update the row do not fail and the encoding of the
        -- response is not empty, then the payment comes to its end: the answer has code 00, the database
        -- holds a completed transaction of the requested amount and currency with the next receipt
        -- number and that encoding, it is active no longer, and the receipt counter has gone one on.
        pub handle_payment_processing_settles :
            Admits id req.transaction_amount_cents req.currency h.manager
            → (result.0
                ≡ answer env' (payment_completion_response (response env' in_pause paid_for)))
              × ((s : Row) × (find_row id result.1.manager.db.rows ≡ some s)
                  × (s.state ≡ state_code payment_completed)
                  × (s.amount_cents ≡ req.transaction_amount_cents)
                  × (s.currency ≡ req.currency)
                  × (s.receipt_number ≡ "RCP-" ++ decimal (u64 (h.manager.receipt_counter + 1)))
                  × (s.cached_response ≡ b ∷ blob))
              × (lookup id result.1.manager.active ≡ none)
              × (result.1.manager.receipt_counter ≡ u64 (h.manager.receipt_counter + 1))
        unfolding row_of
        handle_payment_processing_settles admits = rw (accepted admits) (
            let (reply, row, gone, counter) =
              accept_payment_records codec env' in_pause id paid_for b blob
                (lookup-put id paid_for (put id (chosen env' req' presented) inserted.manager)) refl
                unsettled inserts_row reads updates marshals in
            (
              reply,
              (
                record (row_of sold) { cached_response = b ∷ blob },
                row,
                refl,
                refl,
                refl,
                refl,
                refl,
              ),
              gone,
              counter,
            ))
