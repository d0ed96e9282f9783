-- ===== src/Pos/Server.antt =====
-- The server of pos/server.go: what one frame of a client does to the client's connection and to the
-- terminal. Each connection runs alone between its frames; logging and deadlines are left out.
pub mod Connection
pub mod Exchange
pub mod Safety
pub mod Samples
pub mod Lifecycle
pub mod Session
pub mod Table
mod Tests
use Prim.Native.String.{String, ◌++◌}
use termwire.Common.{ℕ, ◌+◌, ◌==◌, if◌then◌else◌, List, [], take, Option, none, some}
use termwire.Frame.{
  Frame, new_frame, serialize, frame_type_ping, frame_type_pong, frame_type_data, frame_type_close,
}
use termwire.Go.Fmt.{decimal}
use termwire.Go.Time.{unix, format_rfc3339}
use termwire.Message.{Message, error_response}
use termwire.Message.Codec.{Codec}
use termwire.Message.Responses.{PaymentCompletionResponse}
use termwire.Pos.Handler.Dispatch.{handle_message}
use termwire.Pos.Handler.Env.{Env, Handler, Reply, reply, failure, panic}
use termwire.Pos.Server.Connection.{Client, write, next_sequence}

-- What the handling of a frame ends in: nil, io.EOF or another error, which both close the connection,
-- or a panic, which ends the program.
pub data Ending : Type 0 where
  done eof panics : Ending
  failed : String → Ending

-- What a frame meets from outside: the message handler's environment, the errors of the buffered
-- writer's Write and Flush, if they fail, with the number of bytes that went out before that, and the
-- texts of protobuf's errors.
pub record Io : Type 0 where
  pub env : Env
  pub write_error : Option String
  pub flush_error : Option String
  pub flushed : ℕ
  pub unmarshal_error : String
  pub marshal_error : String

unfoldable pub send_frame : Io → Frame → Client → Ending × Client
send_frame io frame c =
    let bytes = serialize frame in
    elim (io.write_error) [
      | some e ↦ (failed ("failed to write frame: " ++ e), write (take io.flushed bytes) c)
      | none ↦ elim (io.flush_error) [
        | some e ↦ (failed ("failed to flush writer: " ++ e), write (take io.flushed bytes) c)
        | none ↦ (done, write bytes c)
      ]
    ]

unfoldable pub handle_ping : Io → Frame → Client → Ending × Client
handle_ping io frame c = send_frame io (new_frame frame_type_pong frame.sequence []) c

module _ (messages : Codec Message) (responses : Codec PaymentCompletionResponse) where
  abbrev pub error_message : Io → String → Message
  error_message io text = record {
    message_id = "ERR-" ++ decimal (unix (io.env.clock 20));
    timestamp = format_rfc3339 (io.env.clock 21);
    body = error_response (record { code = "99"; message = text });
  }

  -- The error keeps the sequence number of the frame that it answers.
  unfoldable pub send_error_response : Io → ℕ → String → Client → Ending × Client
  send_error_response io sequence text c = elim (messages.marshal (error_message io text)) [
    | none ↦ (failed io.marshal_error, c)
    | some data_ ↦ send_frame io (new_frame frame_type_data sequence data_) c
  ]

  unfoldable pub send_response : Io → Message → Client → Ending × Client
  send_response io response c = elim (messages.marshal response) [
    | none ↦ (failed ("failed to marshal response: " ++ io.marshal_error), c)
    | some data_ ↦
        let c' = next_sequence c in send_frame io (new_frame frame_type_data c'.sequence data_) c'
  ]

  unfoldable pub respond : Io → Frame → Client → Reply → Ending × Client
  respond io frame c (reply response) = send_response io response c
  respond io frame c (failure text) = send_error_response io frame.sequence text c
  respond io frame c panic = (panics, c)

  unfoldable pub handle_data : Io → Frame → Client → Handler → Ending × Client × Handler
  handle_data io frame c h = elim (messages.unmarshal frame.payload) [
    | none ↦ (failed ("failed to unmarshal message: " ++ io.unmarshal_error), c, h)
    | some msg ↦
        let (answer, h') = handle_message responses io.env msg h in
        let (ending, c') = respond io frame c answer in (ending, c', h')
  ]

  unfoldable pub handle_frame : Io → Frame → Client → Handler → Ending × Client × Handler
  handle_frame io frame c h =
      if frame.frame_type == frame_type_ping
      then (let (ending, c') = handle_ping io frame c in (ending, c', h))
      else if frame.frame_type == frame_type_data
      then handle_data io frame c h
      else if frame.frame_type == frame_type_close
      then (eof, c, h)
      else (failed ("unknown frame type: " ++ decimal frame.frame_type), c, h)
