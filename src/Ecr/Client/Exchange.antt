-- ===== src/Ecr/Client/Exchange.antt =====
-- A call of the register's SendMessage and the server of the terminal at the other end of the wire.
use termwire.Common.{
  ℕ, suc, ◌+◌, ◌^◌, ◌<◌, u16, ◌≡◌, refl, sym, subst, ◌∙◌, List, [], ◌++◌, append-nil, none, some,
  length, IsBytes, arith,
}
use termwire.Ecr.Client.{Client, Env, response, decoded, rounds, send_message}
use termwire.Ecr.Client.Stream.{Connection}
use termwire.Frame.{Frame, new_frame, serialize, frame_type_data}
use termwire.Frame.Reader as Reader
use termwire.Frame.Reader.{IoError, read_frame}
use termwire.Frame.RoundTrip.{read_frame-new_frame}
use termwire.Message.{Message}
use termwire.Message.Codec.{Codec}
use termwire.Message.Responses.{PaymentCompletionResponse}
use termwire.Pos.Handler.Dispatch.{handle_message}
use termwire.Pos.Handler.Env.{Handler, reply}
use termwire.Pos.Server.{Io, done, handle_frame}
use termwire.Pos.Server.Connection as Connection
use termwire.Pos.Server.Exchange.{handle_frame_data}
use termwire.Ecr.Client.Answers.{send_message_reads}

module _ (messages : Codec Message) (responses : Codec PaymentCompletionResponse) (env : Env)
    (io : Io) (ending : IoError) (msg answer : Message) (c : Client) (conn : Connection)
    (s : Connection.Client) (h h' : Handler) (bytes out : List ℕ) (n : ℕ) where
  abbrev request : Frame
  request = new_frame frame_type_data (u16 (c.sequence + 1)) bytes

  abbrev answered : Frame
  answered = new_frame frame_type_data (u16 (s.sequence + 1)) out

  -- A register with an open, quiet connection sends a message that the terminal answers, nothing
  -- fails in the call's first round, it has a round, and both encodings have less than 2 ^ 16 bytes.
  -- Then the server reads the register's frame from the bytes written, handles the message, and writes
  -- one frame; and when the bytes of that frame arrive, SendMessage returns the very answer, with
  -- nothing left unread.
  pub send_message-handle_frame :
      c.connection ≡ some conn
      → rounds c.config.max_retries ≡ suc n
      → conn.broken ≡ none
      → conn.unread ≡ []
      → (env.attempt 0).write_deadline_error ≡ none
      → (env.attempt 0).write_error ≡ none
      → (env.attempt 0).read_deadline_error ≡ none
      → (env.attempt 0).arrives ≡ serialize answered
      → io.write_error ≡ none
      → io.flush_error ≡ none
      → messages.marshal msg ≡ some bytes
      → length bytes < 2 ^ 16
      → IsBytes bytes
      → handle_message responses io.env msg h ≡ (reply answer, h')
      → messages.marshal answer ≡ some out
      → length out < 2 ^ 16
      → IsBytes out
      → (read_frame ending (serialize request) ≡ (Reader.ok request, []))
        × (handle_frame messages responses io request s h
            ≡ (done, Connection.write (serialize answered) (Connection.next_sequence s), h'))
        × (send_message messages env msg c ≡ (
          response answer,
          record c {
            connection =
                some (record conn { written = conn.written ++ serialize request; unread = [] });
            sequence = u16 (c.sequence + 1);
          },
        ))
  unfolding new_frame
  send_message-handle_frame open_ runs b quiet dw w dr arrives iw ifl enc lb ib handled encodes lo
        io_ =
      let (served, reads, decodes) =
        handle_frame_data messages responses io (env.attempt 0).ending [] request s h iw ifl msg
          answer h' out refl (messages.unmarshal-marshal msg bytes enc) handled encodes lo io_ in
      (
        subst (λ x. read_frame ending x ≡ (Reader.ok request, [])) (append-nil (serialize request))
            (read_frame-new_frame ending [] bytes frame_type_data (u16 (c.sequence + 1))
              (omega arith) (omega arith) (omega arith) lb ib),
        served,
        send_message_reads messages env msg c conn bytes n open_ enc runs answered [] dw w dr b
              (rw (quiet, arrives, sym (append-nil (serialize answered))) reads)
            ∙ rw (decoded, decodes) refl,
      )
