-- ===== src/Pos/Handler/Payment.antt =====
-- The handlers of the payment flow.
use Prim.Native.String
use Prim.Native.String.{String, ◌++◌}
use termwire.Common.{sub32, true, ◌&&◌, ltb, leb, if◌then◌else◌, Option, none, some}
use termwire.Go.Fmt.{decimal, padded, money, last_four}
use termwire.Go.Time.{unix}
use termwire.Message.{
  card_insertion_response, loyalty_card_inquiry_response, payment_completion_response,
}
use termwire.Message.Codec.{Codec}
use termwire.Message.Requests.{
  CardInsertionRequest, PaymentProcessingRequest, LoyaltyPointsConfirmation,
  PaymentCompletionRequest,
}
use termwire.Message.Responses.{PaymentCompletionResponse}
use termwire.Pos.Card.{CardData, simulate_card_insertion}
use termwire.Pos.Db.{ok, err}
use termwire.Pos.Handler.Env.{
  Env, intn, Handler, with_manager, Reply, panic, answer, create_error_response,
}
use termwire.Pos.Manager.{
  Manager, create_transaction, get_transaction, update_transaction_state, set_card_data,
  set_bank_selection, set_loyalty_points, complete_transaction, fail_transaction,
}
use termwire.Pos.Settled.{get_completed_transaction_by_id, set_cached_response}
use termwire.Pos.Transaction.{Transaction, bank_selection, loyalty_inquiry, payment_processing}

unfoldable pub handle_card_insertion : Env → CardInsertionRequest → Handler → Reply × Handler
handle_card_insertion env req h =
    let (created, m0) =
      create_transaction (env.call 0) (env.clock 2) req.transaction_id req.transaction_amount_cents
        req.currency h.manager in
    elim created [
      | err e ↦ (create_error_response env "01" e, with_manager m0 h)
      | ok _ ↦
          let (card, reader) =
            simulate_card_insertion (intn env 1 1000000000000) (intn env 2 2) (intn env 3 50000)
              h.card_reader in
          let (_, m1) = set_card_data (env.call 1) req.transaction_id card m0 in
          let (_, m2) =
            update_transaction_state (env.call 2) req.transaction_id bank_selection m1 in
          (
            answer env (
                card_insertion_response (record {
                  code = "00";
                  card_number_masked = card.masked_number;
                  card_holder_name = card.holder_name;
                  available_banks = card.available_banks;
                  message = "Card read successfully. Please select bank.";
                })),
            record { manager = m2; card_reader = reader },
          )
    ]

-- The response to a payment, from the transaction as the database gives it back.
abbrev pub completion : String → String → Transaction → PaymentCompletionResponse
completion confirmation auth txn = record {
  code = "00";
  confirmation_code = confirmation;
  receipt_number = txn.receipt_number;
  card_amount_cents = sub32 txn.amount_cents txn.loyalty_amount_cents;
  loyalty_amount_cents = txn.loyalty_amount_cents;
  remaining_points = elim (txn.card) [
    | none ↦ 0
    | some c ↦ if c.has_loyalty_card then sub32 c.loyalty_points txn.loyalty_points_used else 0
  ];
  message = "Payment completed successfully";
  auth_code = auth;
  currency = txn.currency;
  installment_count = txn.installment_count;
}

-- What a request comes to before the pause of processPayment: an answer, or the pause, for the
-- transaction of an identifier.
pub data Progress : Type 0 where
  replies : Reply → Progress
  pauses : String → Progress

module _ (codec : Codec PaymentCompletionResponse) where
  abbrev respond : Env → String → String → Handler → Transaction → Reply × Handler
  respond env confirmation auth h txn =
      let response = completion confirmation auth txn in
      let (_, m) =
        set_cached_response codec (env.call 13) txn.id response env.marshal_error h.manager in
      (answer env (payment_completion_response response), with_manager m h)

  -- processPayment behind its pause of a second, in which other connections may run: the branch of
  -- a payment that the bank accepts, the other one, and the draw between them.
  unfoldable pub accept_payment : Env → String → Handler → Reply × Handler
  accept_payment env id h =
      let confirmation = "CONF-" ++ decimal (unix (env.clock 3)) in
      let auth = "AUTH-" ++ padded 6 (intn env 5 1000000) in
      let (_, m) = complete_transaction (env.call 11) id confirmation auth h.manager in
      elim (get_completed_transaction_by_id codec (env.call 12) 0 id m) [
        | none ↦ (panic, with_manager m h)
        | some txn ↦ respond env confirmation auth (with_manager m h) txn
      ]

  unfoldable pub decline_payment : Env → String → Handler → Reply × Handler
  decline_payment env id h =
      let (_, m) = fail_transaction (env.call 11) id "Payment declined by bank" h.manager in
      (create_error_response env "05" "Payment declined by issuer", with_manager m h)

  unfoldable pub finish_payment : Env → String → Handler → Reply × Handler
  finish_payment env id h =
      if ltb (intn env 4 100) 90 then accept_payment env id h else decline_payment env id h

  -- processPayment up to its pause. The transaction's own identifier is the key under which it is
  -- found.
  abbrev pub begin_payment : Env → Transaction → Handler → Progress × Handler
  begin_payment env txn h =
      let (_, m) = update_transaction_state (env.call 10) txn.id payment_processing h.manager in
      (pauses txn.id, with_manager m h)

  -- A handler that is done, or goes on behind the pause.
  abbrev pub proceed : Env → Progress × Handler → Reply × Handler
  proceed env (replies r, h) = (r, h)
  proceed env (pauses id, h) = finish_payment env id h

  unfoldable pub process_payment : Env → Transaction → Handler → Reply × Handler
  process_payment env txn h = proceed env (begin_payment env txn h)

  -- The response cached by an earlier payment of the same identifier.
  unfoldable pub cached : Env → String → Manager → Option PaymentCompletionResponse
  cached env id m = elim (get_completed_transaction_by_id codec (env.call 3) 0 id m) [
    | none ↦ none
    | some txn ↦ txn.cached_response
  ]

  abbrev inquiry : Env → CardData → Transaction → Reply
  inquiry env card txn =
      if leb 4 (String.len card.masked_number)
      then answer env (
          loyalty_card_inquiry_response (record {
            code = "00";
            available_points = card.loyalty_points;
            points_value_cents = card.points_value_cents;
            loyalty_card_number = "LOY-" ++ last_four card.masked_number;
            message =
                "You have "
                ++ decimal card.loyalty_points
                ++ " loyalty points available (worth "
                ++ money card.points_value_cents
                ++ " "
                ++ txn.currency
                ++ ")";
          }))
      else panic

  -- The card, if the register asks for loyalty points and it has them.
  abbrev pub loyalty_card : PaymentProcessingRequest → Transaction → Option CardData
  loyalty_card req txn = elim (txn.card) [
    | none ↦ none
    | some card ↦ if req.use_loyalty_points && card.has_loyalty_card then some card else none
  ]

  unfoldable pub begin_processing : Env → PaymentProcessingRequest → Handler → Progress × Handler
  begin_processing env req h = elim (cached env req.transaction_id h.manager) [
    | some response ↦ (replies (answer env (payment_completion_response response)), h)
    | none ↦ elim (get_transaction req.transaction_id h.manager) [
      | err e ↦ (replies (create_error_response env "02" e), h)
      | ok txn ↦
          let (_, m) =
            set_bank_selection (env.call 4) req.transaction_id req.selected_bank_id req.selected_aid
              req.installment_count h.manager in
          elim (loyalty_card req txn) [
            | none ↦ begin_payment env txn (with_manager m h)
            | some card ↦
                let (_, m') =
                  update_transaction_state (env.call 5) req.transaction_id loyalty_inquiry m in
                (replies (inquiry env card txn), with_manager m' h)
          ]
    ]
  ]

  unfoldable pub begin_confirmation : Env → LoyaltyPointsConfirmation → Handler → Progress × Handler
  begin_confirmation env req h = elim (cached env req.transaction_id h.manager) [
    | some response ↦ (replies (answer env (payment_completion_response response)), h)
    | none ↦ elim (get_transaction req.transaction_id h.manager) [
      | err e ↦ (replies (create_error_response env "02" e), h)
      | ok txn ↦
          let (_, m) =
            set_loyalty_points (env.call 4) req.transaction_id true req.points_to_use
              req.points_value_cents h.manager in
          begin_payment env txn (with_manager m h)
    ]
  ]

  unfoldable pub begin_completion : Env → PaymentCompletionRequest → Handler → Progress × Handler
  begin_completion env req h = elim (get_transaction req.transaction_id h.manager) [
    | err e ↦ (replies (create_error_response env "02" e), h)
    | ok txn ↦ begin_payment env txn h
  ]

  unfoldable pub handle_payment_processing :
      Env → PaymentProcessingRequest → Handler → Reply × Handler
  unfolding begin_processing
  handle_payment_processing env req h = proceed env (begin_processing env req h)

  unfoldable pub handle_loyalty_confirmation :
      Env → LoyaltyPointsConfirmation → Handler → Reply × Handler
  unfolding begin_confirmation
  handle_loyalty_confirmation env req h = proceed env (begin_confirmation env req h)

  unfoldable pub handle_payment_completion :
      Env → PaymentCompletionRequest → Handler → Reply × Handler
  unfolding begin_completion
  handle_payment_completion env req h = proceed env (begin_completion env req h)
