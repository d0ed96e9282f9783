-- ===== src/Ecr/Api/Voiding.antt =====
-- VoidTransaction of ecr/api.go, through the wire, the server and the terminal's database.
use Prim.Native.String
use termwire.Common.{
  ℕ, suc, ◌+◌, ◌^◌, ◌<◌, u16, ◌≡◌, ap, ◌∙◌, String, str_eq_refl, if◌then◌else◌, List, [], ◌++◌,
  none, some, length, IsBytes, arith,
}
use termwire.Ecr.Api.{got, Call, request, received, to_void_transaction}
use termwire.Ecr.Api.Calls as Calls
use termwire.Ecr.Client.{Client, Answer, response, rounds, send_message}
use termwire.Ecr.Client.Exchange.{send_message-handle_frame}
use termwire.Ecr.Client.Stream.{Connection}
use termwire.Frame.{new_frame, serialize, frame_type_data}
use termwire.Frame.Reader as Reader
use termwire.Frame.Reader.{IoError, read_frame}
use termwire.Go.Fmt.{decimal}
use termwire.Go.Time.{unix, format_rfc3339}
use termwire.Message.{Message, void_transaction_request, void_transaction_response}
use termwire.Message.Codec.{Codec}
use termwire.Message.Responses.{PaymentCompletionResponse, VoidTransactionResponse}
use termwire.Pos.Db.{Row, find_row, scan_transaction}
use termwire.Pos.Handler.Dispatch.{handle_message, handle_body}
use termwire.Pos.Handler.Env.{Handler, reply, with_manager, generate_message_id}
use termwire.Pos.Handler.Service.{handle_void}
use termwire.Pos.Server.{Io, done, handle_frame}
use termwire.Pos.Server.Connection as Server
use termwire.Pos.Settled.{restate}
use termwire.Pos.Settled.Void.{after_void, void_transaction_completed}
use termwire.Pos.Transaction.{state_code, payment_completed, voided}

module _ (messages : Codec Message) (responses : Codec PaymentCompletionResponse) (io : Io)
    (ending : IoError) (call : Call) (c : Client) (conn : Connection) (s : Server.Client)
    (h : Handler) (r : Row) (id confirmation currency reason : String) where
  abbrev pub asked : Message
  asked = request call (
      void_transaction_request (record {
        original_transaction_id = id;
        reason = reason;
        currency = currency;
        original_confirmation_code = confirmation;
      }))

  abbrev pub accepted : VoidTransactionResponse
  accepted = record {
    code = "00";
    transaction_id =
        String.◌++◌ "VOID-" (String.◌++◌ id (String.◌++◌ "-" (decimal (unix (io.env.clock 2)))));
    confirmation_code = String.◌++◌ "VOIDCONF-" (decimal (unix (io.env.clock 3)));
    message = String.◌++◌ "Transaction " (String.◌++◌ id " voided successfully");
    currency = r.currency;
  }

  abbrev pub answer : Message
  answer = record {
    message_id = generate_message_id io.env;
    timestamp = format_rfc3339 (io.env.clock 1);
    body = void_transaction_response accepted;
  }

  abbrev pub voided_after : Handler
  voided_after = with_manager (after_void responses (io.env.call 0) id h.manager) h

  handled :
      find_row id h.manager.db.rows ≡ some r
      → r.state ≡ state_code payment_completed
      → (io.env.call 0).fault 0 ≡ none
      → (io.env.call 0).fault 1 ≡ none
      → handle_message responses io.env asked h ≡ (reply answer, voided_after)
  handled found is_completed f g =
      unfold handle_message handle_body handle_void scan_transaction in
      ground (
        arith,
        (void_transaction_completed responses (io.env.call 0) id h.manager id r found is_completed f
            g).0,
      )

  picked : received to_void_transaction (response answer) ≡ got accepted
  picked = ground (arith, str_eq_refl "00")

  returned :
      (c' : Client)
      → send_message messages call.net asked c ≡ (response answer, c')
      → Calls.void_transaction messages id confirmation currency reason call c ≡ (got accepted, c')
  returned c' e =
      unfold Calls.void_transaction in
      (ap (λ (x : Answer × Client). (received to_void_transaction (x.0), x.1)) e
        ∙ ap (λ x. (x, c')) picked)

  -- The register calls VoidTransaction on an open, quiet connection, for a transaction that the terminal's
  -- database holds as completed; nothing fails in the call's first round, in the server's write or
  -- in the database, both messages encode to less than 2 ^ 16 bytes, and the bytes that arrive are
  -- those of a frame with the server's next sequence number and the encoding of the response with code
  -- 00 that names the transaction. Then the server reads the register's frame from the bytes that the
  -- call writes, goes on, and writes the very bytes that arrive; the register gets that response, with
  -- one frame written and nothing left unread; and the transaction's row is voided with the time of
  -- the call.
  pub void_transaction-handle_frame :
      (bytes out : List ℕ) (n : ℕ)
      → c.connection ≡ some conn
      → rounds c.config.max_retries ≡ suc n
      → conn.broken ≡ none
      → conn.unread ≡ []
      → (call.net.attempt 0).write_deadline_error ≡ none
      → (call.net.attempt 0).write_error ≡ none
      → (call.net.attempt 0).read_deadline_error ≡ none
      → (call.net.attempt 0).arrives
        ≡ serialize (new_frame frame_type_data (u16 (s.sequence + 1)) out)
      → io.write_error ≡ none
      → io.flush_error ≡ none
      → messages.marshal asked ≡ some bytes
      → length bytes < 2 ^ 16
      → IsBytes bytes
      → messages.marshal answer ≡ some out
      → length out < 2 ^ 16
      → IsBytes out
      → find_row id h.manager.db.rows ≡ some r
      → r.state ≡ state_code payment_completed
      → (io.env.call 0).fault 0 ≡ none
      → (io.env.call 0).fault 1 ≡ none
      → let sent = new_frame frame_type_data (u16 (c.sequence + 1)) bytes in
        let sends_back = new_frame frame_type_data (u16 (s.sequence + 1)) out in
        (read_frame ending (serialize sent) ≡ (Reader.ok sent, []))
        × (handle_frame messages responses io sent s h
            ≡ (done, Server.write (serialize sends_back) (Server.next_sequence s), voided_after))
        × (Calls.void_transaction messages id confirmation currency reason call c ≡ (
          got accepted,
          record c {
            connection =
                some (record conn { written = conn.written ++ serialize sent; unread = [] });
            sequence = u16 (c.sequence + 1);
          },
        ))
        × (find_row id voided_after.manager.db.rows
            ≡ some (record r { state = 7; last_updated = format_rfc3339 (io.env.call 0).now }))
  unfolding new_frame
  void_transaction-handle_frame bytes out n open_ runs b quiet dw w dr arrives iw ifl enc lb ib
        encodes lo io_ found is_completed f g =
      let (reads, served, returns) =
        send_message-handle_frame messages responses call.net io ending asked answer c conn s h
          voided_after bytes out n open_ runs b quiet dw w dr arrives iw ifl enc lb ib
          (handled found is_completed f g) encodes lo io_ in
      (
        reads,
        served,
        returned _ returns,
        (void_transaction_completed responses (io.env.call 0) id h.manager id r found is_completed f
              g).1
            ∙ ap
                (λ t.
                  if t
                  then some (restate voided (io.env.call 0).now r)
                  else find_row id h.manager.db.rows)
                (str_eq_refl id),
      )
