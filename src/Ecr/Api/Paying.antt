-- ===== src/Ecr/Api/Paying.antt =====
-- ProcessPayment of ecr/api.go, through the wire, the server and the terminal's database.
use termwire.Common.{
  ℕ, suc, ◌+◌, ◌^◌, ◌<◌, u16, ◌≡◌, refl, ap, ◌∙◌, String, str_eq_refl, true, false, ltb, List, [],
  ◌∷◌, ◌++◌, none, some, length, IsBytes, arith,
}
use termwire.Ecr.Api.{got, Call, request, received, to_process_payment, completed}
use termwire.Ecr.Api.Calls as Calls
use termwire.Ecr.Client.{Client, Answer, response, rounds, send_message}
use termwire.Ecr.Client.Exchange.{send_message-handle_frame}
use termwire.Ecr.Client.Stream.{Connection}
use termwire.Frame.{new_frame, serialize, frame_type_data}
use termwire.Frame.Reader as Reader
use termwire.Frame.Reader.{IoError, read_frame}
use termwire.Go.Dict.{lookup}
use termwire.Go.Time.{format_rfc3339}
use termwire.Message.{Message, payment_processing_request, payment_completion_response}
use termwire.Message.Codec.{Codec}
use termwire.Message.Requests.{PaymentProcessingRequest}
use termwire.Message.Responses.{PaymentCompletionResponse}
use termwire.Pos.Db.{Row, find_row, row_of}
use termwire.Pos.Handler.Approval as Approval
use termwire.Pos.Handler.Approval.{final, accept_payment_records, response-Grants, final-Holds}
use termwire.Pos.Handler.Promise.{next_receipt, GrantsPayment, HoldsCompleted}
use termwire.Pos.Handler.Dispatch.{handle_message, handle_body}
use termwire.Pos.Handler.Env.{Handler, Reply, reply, intn, generate_message_id}
use termwire.Pos.Handler.Pause.{lookup-put, chosen, paying, pausing, begin_processing_pauses}
use termwire.Pos.Handler.Payment.{
  accept_payment, finish_payment, proceed, handle_payment_processing,
}
use termwire.Pos.Manager.{put}
use termwire.Pos.Server.{Io, done, handle_frame}
use termwire.Pos.Server.Connection as Server
use termwire.Pos.Transaction.{Transaction}

-- The request of the call, without loyalty points.
abbrev pub payment : String → ℕ → String → ℕ → PaymentProcessingRequest
payment id bank aid installments = record {
  selected_bank_id = bank;
  use_loyalty_points = false;
  transaction_id = id;
  selected_aid = aid;
  installment_count = installments;
}

abbrev pub asked : Call → PaymentProcessingRequest → Message
asked call req = request call (payment_processing_request req)

-- The transaction and the terminal in the pause of the payment, and behind it.
abbrev pub held : Io → PaymentProcessingRequest → Transaction → Transaction
held io req txn = paying io.env req txn

abbrev pub pause : Io → PaymentProcessingRequest → Transaction → Handler → Handler
pause io req txn h = pausing io.env req txn req.transaction_id h

abbrev pub paid_after :
    Codec PaymentCompletionResponse
    → Io
    → PaymentProcessingRequest
    → Transaction
    → Handler
    → Handler
paid_after responses io req txn h =
    (accept_payment responses io.env req.transaction_id (pause io req txn h)).1

abbrev pub granted :
    Io → PaymentProcessingRequest → Transaction → Handler → PaymentCompletionResponse
granted io req txn h = Approval.response io.env (pause io req txn h) (held io req txn)

abbrev pub answer : Io → PaymentProcessingRequest → Transaction → Handler → Message
answer io req txn h = record {
  message_id = generate_message_id io.env;
  timestamp = format_rfc3339 (io.env.clock 1);
  body = payment_completion_response (granted io req txn h);
}

module _ (messages : Codec Message) (responses : Codec PaymentCompletionResponse) (io : Io)
    (ending : IoError) (call : Call) (c : Client) (conn : Connection) (s : Server.Client)
    (h : Handler) (txn : Transaction) (id aid : String) (bank installments : ℕ) where
  abbrev req : PaymentProcessingRequest
  req = payment id bank aid installments

  picked :
      received to_process_payment (response (answer io req txn h))
      ≡ got (completed (granted io req txn h))
  picked = ground (arith, str_eq_refl "00")

  returned :
      (c' : Client)
      → send_message messages call.net (asked call req) c ≡ (response (answer io req txn h), c')
      → Calls.process_payment messages id bank aid installments false call c
        ≡ (got (completed (granted io req txn h)), c')
  returned c' e =
      unfold Calls.process_payment in
      (ap (λ (x : Answer × Client). (received to_process_payment (x.0), x.1)) e
        ∙ ap (λ x. (x, c')) picked)

  module _ (b : ℕ) (blob : List ℕ) (open_ : lookup id h.manager.active ≡ some txn)
      (same : txn.id ≡ id) (new : find_row id h.manager.db.rows ≡ none)
      (accepts : ltb (intn io.env 4 100) 90 ≡ true) (inserts : (io.env.call 11).fault 0 ≡ none)
      (reads : (io.env.call 12).fault 0 ≡ none) (updates : (io.env.call 13).fault 0 ≡ none)
      (marshals : responses.marshal (granted io req txn h) ≡ some (b ∷ blob)) where
    settles :
        ((accept_payment responses io.env id (pause io req txn h)).0 ≡ reply (answer io req txn h))
        × (find_row id (paid_after responses io req txn h).manager.db.rows
            ≡ some (record (row_of (final io.env (pause io req txn h) (held io req txn))) {
              cached_response = b ∷ blob;
            }))
    settles =
        let (said, row, _, _) =
          accept_payment_records responses io.env (pause io req txn h) id (held io req txn) b blob
            (lookup-put id (held io req txn) (put id (chosen io.env req txn) h.manager)) same new
            inserts reads updates marshals in
        (said, row)

    handled :
        handle_message responses io.env (asked call req) h
        ≡ (reply (answer io req txn h), paid_after responses io req txn h)
    unfolding handle_message handle_body handle_payment_processing finish_payment
    handled =
        ap (proceed responses io.env)
          (begin_processing_pauses responses io.env req id txn h refl refl open_ same new)
        ∙ ground arith
        ∙ ap (λ (x : Reply). (x, paid_after responses io req txn h)) (settles.0)

    -- The register calls ProcessPayment without loyalty points on an open, quiet connection, for a
    -- transaction that is active in the terminal and new to its database. Nothing fails in the call's
    -- first round or in the server's write, both messages encode to less than 2 ^ 16 bytes; the bank
    -- accepts, the statements that insert, read and update the row do not fail, and the encoding of the
    -- cached response is not empty; and the bytes that arrive are those of a frame with the server's
    -- next sequence number and the encoding of the answer. Then the server reads the register's frame
    -- from the bytes that the call writes, goes on, and writes the very bytes that arrive; the
    -- register gets the response of that answer, with one frame written and nothing left unread; the
    -- response has code 00, the next receipt number and the amounts of the transaction, and the
    -- database holds the transaction as completed with them and with that encoding.
    pub process_payment-handle_frame :
        (bytes out : List ℕ) (n : ℕ)
        → c.connection ≡ some conn
        → rounds c.config.max_retries ≡ suc n
        → conn.broken ≡ none
        → conn.unread ≡ []
        → (call.net.attempt 0).write_deadline_error ≡ none
        → (call.net.attempt 0).write_error ≡ none
        → (call.net.attempt 0).read_deadline_error ≡ none
        → (call.net.attempt 0).arrives
          ≡ serialize (new_frame frame_type_data (u16 (s.sequence + 1)) out)
        → io.write_error ≡ none
        → io.flush_error ≡ none
        → messages.marshal (asked call req) ≡ some bytes
        → length bytes < 2 ^ 16
        → IsBytes bytes
        → messages.marshal (answer io req txn h) ≡ some out
        → length out < 2 ^ 16
        → IsBytes out
        → let sent = new_frame frame_type_data (u16 (c.sequence + 1)) bytes in
          let sends_back = new_frame frame_type_data (u16 (s.sequence + 1)) out in
          (read_frame ending (serialize sent) ≡ (Reader.ok sent, []))
          × (handle_frame messages responses io sent s h ≡ (
            done,
            Server.write (serialize sends_back) (Server.next_sequence s),
            paid_after responses io req txn h,
          ))
          × (Calls.process_payment messages id bank aid installments false call c ≡ (
            got (completed (granted io req txn h)),
            record c {
              connection =
                  some (record conn { written = conn.written ++ serialize sent; unread = [] });
              sequence = u16 (c.sequence + 1);
            },
          ))
          × GrantsPayment io.env (next_receipt h) (held io req txn) (granted io req txn h)
          × ((r : Row) × (find_row id (paid_after responses io req txn h).manager.db.rows ≡ some r)
              × HoldsCompleted io.env (next_receipt h) (held io req txn) r
              × (r.cached_response ≡ b ∷ blob))
    unfolding new_frame
    process_payment-handle_frame bytes out n open_c runs fine quiet dw w dr arrives iw ifl enc lb ib
          encodes lo io_ =
        let (reads, served, returns) =
          send_message-handle_frame messages responses call.net io ending (asked call req)
            (answer io req txn h) c conn s h (paid_after responses io req txn h) bytes out n open_c
            runs fine quiet dw w dr arrives iw ifl enc lb ib handled encodes lo io_ in
        (
          reads,
          served,
          returned _ returns,
          response-Grants io.env (pause io req txn h) (held io req txn),
          (
            _,
            settles.1,
            final-Holds io.env (pause io req txn h) (held io req txn) (b ∷ blob),
            refl,
          ),
        )
