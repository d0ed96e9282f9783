-- ===== src/Pos/Server/Safety.antt =====
-- Whatever frame a client sends, the terminal's state stays among those that messages reach.
use termwire.Common.{
  ◌≡◌, subst, ◌==◌, ==→eq, ==→ne, none, some, inl, inr, arith, Option-cases, Bool-cases,
}
use termwire.Frame.{Frame, frame_type_data}
use termwire.Message.{Message}
use termwire.Message.Codec.{Codec}
use termwire.Message.Responses.{PaymentCompletionResponse}
use termwire.Pos.Handler.Dispatch.{handle_message}
use termwire.Pos.Handler.Env.{Handler}
use termwire.Pos.Ledger.Reach.{Reaches, begins, serves}
use termwire.Pos.Server.{Io, handle_data, handle_frame}
use termwire.Pos.Server.Connection.{Client}

module _ (messages : Codec Message) (responses : Codec PaymentCompletionResponse) (io : Io)
    (frame : Frame) (c : Client) (h : Handler) where
  abbrev after_data : Handler
  after_data = (handle_data messages responses io frame c h).2

  abbrev after : Handler
  after = (handle_frame messages responses io frame c h).2

  unread : messages.unmarshal frame.payload ≡ none → h ≡ after_data
  unread e = unfold handle_data in ground arith

  handled :
      (msg : Message)
      → messages.unmarshal frame.payload ≡ some msg
      → (handle_message responses io.env msg h).1 ≡ after_data
  handled msg e = unfold handle_data in ground arith

  handle_data-Reaches : Reaches responses h after_data
  handle_data-Reaches = elim (Option-cases (messages.unmarshal frame.payload)) [
    | inl e ↦ subst (Reaches responses h) (unread e) begins
    | inr (msg, e) ↦ subst (Reaches responses h) (handled msg e) (serves io.env msg begins)
  ]

  is_data : frame.frame_type ≡ frame_type_data → after_data ≡ after
  is_data e = unfold handle_frame in ground arith

  is_other : ¬ (frame.frame_type ≡ frame_type_data) → h ≡ after
  is_other e = unfold handle_frame in ground arith

  -- Whatever frame a client sends, and whatever fails on the way, the terminal is in a state that it
  -- reaches from its own by serving messages.
  pub handle_frame-Reaches : Reaches responses h (handle_frame messages responses io frame c h).2
  handle_frame-Reaches = elim (Bool-cases (frame.frame_type == frame_type_data)) [
    | inl e ↦
        subst (Reaches responses h) (is_data (==→eq frame.frame_type frame_type_data e))
          handle_data-Reaches
    | inr e ↦
        subst (Reaches responses h) (is_other (==→ne frame.frame_type frame_type_data e)) begins
  ]
