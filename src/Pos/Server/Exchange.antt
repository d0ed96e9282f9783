-- ===== src/Pos/Server/Exchange.antt =====
-- A frame of a client and the frame that answers it, as the client's own reader reads it.
use termwire.Common.{ℕ, ◌+◌, ◌^◌, ◌<◌, u16, ◌≡◌, List, [], ◌++◌, none, some, arith, length, IsBytes}
use termwire.Frame.{Frame, new_frame, serialize, frame_type_ping, frame_type_pong, frame_type_data}
use termwire.Frame.Reader as Reader
use termwire.Frame.Reader.{IoError, read_frame}
use termwire.Frame.RoundTrip.{read_frame-new_frame}
use termwire.Message.{Message}
use termwire.Message.Codec.{Codec}
use termwire.Message.Responses.{PaymentCompletionResponse}
use termwire.Pos.Handler.Dispatch.{handle_message}
use termwire.Pos.Handler.Env.{Handler, reply}
use termwire.Pos.Server.{
  Io, done, send_frame, handle_ping, send_response, respond, handle_data, handle_frame,
}
use termwire.Pos.Server.Connection.{Client, write, next_sequence}

module _ (messages : Codec Message) (responses : Codec PaymentCompletionResponse) (io : Io)
    (ending : IoError) (rest : List ℕ) (frame : Frame) (c : Client) (h : Handler)
    (writes : io.write_error ≡ none) (flushes : io.flush_error ≡ none) where
  -- A PING is answered, if the write does not fail: the client's reader reads a PONG with the sequence
  -- number of the PING and no payload, and neither the terminal nor the server's own sequence number
  -- has changed.
  pub handle_frame_ping :
      frame.frame_type ≡ frame_type_ping
      → frame.sequence < 2 ^ 16
      → let pong = new_frame frame_type_pong frame.sequence [] in
        (handle_frame messages responses io frame c h ≡ (done, write (serialize pong) c, h))
        × (read_frame ending (serialize pong ++ rest) ≡ (Reader.ok pong, rest))
  unfolding handle_frame handle_ping send_frame
  handle_frame_ping is_ping fits = (
    ground arith,
    read_frame-new_frame ending rest [] frame_type_pong frame.sequence (omega arith) (omega arith)
        fits (omega arith) tt,
  )

  -- A DATA frame with a message that the terminal answers is answered by one frame, if the write does
  -- not fail and the answer's encoding has less than 2 ^ 16 bytes: the client's reader reads it as a
  -- DATA frame with the server's next sequence number, whose payload decodes to the answer, and the
  -- terminal is as the message handler left it.
  pub handle_frame_data :
      (msg response : Message) (h' : Handler) (bytes : List ℕ)
      → frame.frame_type ≡ frame_type_data
      → messages.unmarshal frame.payload ≡ some msg
      → handle_message responses io.env msg h ≡ (reply response, h')
      → messages.marshal response ≡ some bytes
      → length bytes < 2 ^ 16
      → IsBytes bytes
      → let answer = new_frame frame_type_data (u16 (c.sequence + 1)) bytes in
        (handle_frame messages responses io frame c h
          ≡ (done, write (serialize answer) (next_sequence c), h'))
        × (read_frame ending (serialize answer ++ rest) ≡ (Reader.ok answer, rest))
        × (messages.unmarshal bytes ≡ some response)
  unfolding handle_frame handle_data respond send_response send_frame
  handle_frame_data msg response h' bytes is_data decodes handled encodes fits are_bytes = (
    ground arith,
    read_frame-new_frame ending rest bytes frame_type_data (u16 (c.sequence + 1)) (omega arith)
        (omega arith) (omega arith) fits are_bytes,
    messages.unmarshal-marshal response bytes encodes,
  )
