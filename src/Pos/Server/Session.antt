-- ===== src/Pos/Server/Session.antt =====
-- handleClientMessages of pos/server.go: the loop of one connection over the bytes that its client sends.
-- The times at which frames come are left out; `ending` is the error behind the last byte, which is a
-- timeout if the read deadline passes. A round that reads a frame takes a byte at least, so the loop
-- runs on as much fuel as there are bytes, and one more.
pub mod Laws
use Prim.Native.String.{String}
use termwire.Common.{ℕ, zero, suc, ◌+◌, Bool, if◌then◌else◌, List, [], ◌∷◌}
use termwire.Frame.{Frame}
use termwire.Frame.Reader.{IoError, Error, Result, ok, err, io, read_frame}
use termwire.Message.{Message}
use termwire.Message.Codec.{Codec}
use termwire.Message.Responses.{PaymentCompletionResponse}
use termwire.Pos.Handler.Env.{Handler}
use termwire.Pos.Server.{Io, Ending, done, eof, panics, failed, handle_frame}
use termwire.Pos.Server.Connection.{Client}

-- What ends the loop: the server's shutdown, the error of a read, a CLOSE frame, the error of a frame,
-- or a panic; and `unfinished` stands for a loop that has used up its fuel.
pub data Stop : Type 0 where
  shut_down closed crashed unfinished : Stop
  unreadable : Error → Stop
  refused : String → Stop

-- What a round of the loop meets: whether the server shuts down, and what the frame meets.
pub record Round : Type 0 where
  pub stops : Bool
  pub io : Io

abbrev pub Session : Type 0
Session = Stop × Client × Handler

abbrev pub after_frame : (Client → Handler → Session) → Ending × Client × Handler → Session
after_frame next (done, c, h) = next c h
after_frame next (eof, c, h) = (closed, c, h)
after_frame next (panics, c, h) = (crashed, c, h)
after_frame next (failed e, c, h) = (refused e, c, h)

abbrev pub after_read :
    (Frame → List ℕ → Session) → Client → Handler → Result Frame × List ℕ → Session
after_read next c h (ok f, rest) = next f rest
after_read next c h (err e, rest) = (unreadable e, c, h)

module _ (messages : Codec Message) (responses : Codec PaymentCompletionResponse)
    (round : ℕ → Round) (ending : IoError) where
  unfoldable pub handle_client_messages : ℕ → ℕ → List ℕ → Client → Handler → Session
  handle_client_messages zero k s c h = (unfinished, c, h)
  handle_client_messages (suc n) k s c h =
      let next = λ (f : Frame) (rest : List ℕ).
        after_frame (handle_client_messages n (k + 1) rest)
          (handle_frame messages responses (round k).io f c h) in
      if (round k).stops then (shut_down, c, h) else after_read next c h (read_frame ending s)

  -- The same loop over the frames themselves.
  unfoldable pub serve_frames : ℕ → List Frame → Client → Handler → Session
  serve_frames k [] c h =
      if (round k).stops then (shut_down, c, h) else (unreadable (io ending), c, h)
  serve_frames k (f ∷ frames) c h =
      if (round k).stops
      then (shut_down, c, h)
      else after_frame (serve_frames (k + 1) frames)
          (handle_frame messages responses (round k).io f c h)
