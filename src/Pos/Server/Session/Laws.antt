-- ===== src/Pos/Server/Session/Laws.antt =====
-- The loop of a connection ends, serves the frames that the client sends, and leaves the terminal in a
-- state that messages reach.
use termwire.Common.{
  ◌^◌, ◌≤◌, IsBytes, ℕ, zero, suc, ◌+◌, ◌<◌, ◌≡◌, refl, ◌∙◌, true, false, List, [], ◌∷◌, ◌++◌, All,
  length, arith, Bool-cases, inl, inr,
}
use termwire.Frame.{new_frame, Frame, serialize, is_valid}
use termwire.Frame.Progress.{read_frame_less}
use termwire.Frame.Reader.{IoError, Result, ok, err, io, read_frame, skip_to_stx}
use termwire.Frame.RoundTrip.{new_frame-IsFrame, new_frame-is_valid, IsFrame, read_frame-serialize}
use termwire.Message.{Message}
use termwire.Message.Codec.{Codec}
use termwire.Message.Responses.{PaymentCompletionResponse}
use termwire.Pos.Handler.Env.{Handler}
use termwire.Pos.Ledger.Reach.{Reaches, Reaches-trans, begins}
use termwire.Pos.Server.{Ending, done, eof, panics, failed, handle_frame}
use termwire.Pos.Server.Connection.{Client}
use termwire.Pos.Server.Safety.{handle_frame-Reaches}
use termwire.Pos.Server.Session.{
  Stop, shut_down, closed, crashed, unfinished, unreadable, refused, Round, Session, after_frame,
  after_read, handle_client_messages, serve_frames,
}

abbrev pub IsStopped : Stop → Type 0
IsStopped shut_down = Unit
IsStopped closed = Unit
IsStopped crashed = Unit
IsStopped unfinished = ⊥
IsStopped (unreadable e) = Unit
IsStopped (refused e) = Unit

after_frame-IsStopped :
    (next : Client → Handler → Session) (r : Ending × Client × Handler)
    → ((c : Client) (h : Handler) → IsStopped (next c h).0)
    → IsStopped (after_frame next r).0
after_frame-IsStopped next (done, c, h) stops = stops c h
after_frame-IsStopped next (eof, c, h) stops = tt
after_frame-IsStopped next (panics, c, h) stops = tt
after_frame-IsStopped next (failed e, c, h) stops = tt

after_frame-cong :
    (a b : Client → Handler → Session) (r : Ending × Client × Handler)
    → ((c : Client) (h : Handler) → a c h ≡ b c h)
    → after_frame a r ≡ after_frame b r
after_frame-cong a b (done, c, h) same = same c h
after_frame-cong a b (eof, c, h) same = refl
after_frame-cong a b (panics, c, h) same = refl
after_frame-cong a b (failed e, c, h) same = refl

read_frame_end : (ending : IoError) → read_frame ending [] ≡ (err (io ending), [])
unfolding read_frame skip_to_stx
read_frame_end ending = refl

after_read-IsStopped :
    (next : Frame → List ℕ → Session) (c : Client) (h : Handler) (r : Result Frame × List ℕ)
    → ((f : Frame) (rest : List ℕ) → r ≡ (ok f, rest) → IsStopped (next f rest).0)
    → IsStopped (after_read next c h r).0
after_read-IsStopped next c h (ok f, rest) stops = stops f rest refl
after_read-IsStopped next c h (err e, rest) stops = tt

less : (n : ℕ) (s rest : List ℕ) → length s < suc n → length rest < length s → length rest < n
less n s rest lt shorter = omega arith

-- A frame that the reader delivers: one of Go's widths that is valid.
abbrev pub Delivers : Frame → Type 0
Delivers f = IsFrame f × (is_valid f ≡ true)

pub new_frame-Delivers :
    (t q : ℕ) (p : List ℕ)
    → 1 ≤ t
    → t ≤ 4
    → q < 2 ^ 16
    → length p < 2 ^ 16
    → IsBytes p
    → Delivers (new_frame t q p)
new_frame-Delivers t q p lo hi hq hl hp =
    (new_frame-IsFrame t q p lo hi hq hl hp, new_frame-is_valid t q p lo hi)

abbrev pub stream : List Frame → List ℕ
stream [] = []
stream (f ∷ fs) = serialize f ++ stream fs

module _ (messages : Codec Message) (responses : Codec PaymentCompletionResponse)
    (round : ℕ → Round) (ending : IoError) where
  abbrev loop : ℕ → ℕ → List ℕ → Client → Handler → Session
  loop = handle_client_messages messages responses round ending

  abbrev next : ℕ → ℕ → Client → Handler → Frame → List ℕ → Session
  next n k c h f rest =
      after_frame (loop n (k + 1) rest) (handle_frame messages responses (round k).io f c h)

  stopped :
      (n k : ℕ) (s : List ℕ) (c : Client) (h : Handler)
      → (round k).stops ≡ true
      → loop (suc n) k s c h ≡ (shut_down, c, h)
  stopped n k s c h e = unfold handle_client_messages in rw e refl

  runs :
      (n k : ℕ) (s : List ℕ) (c : Client) (h : Handler)
      → (round k).stops ≡ false
      → loop (suc n) k s c h ≡ after_read (next n k c h) c h (read_frame ending s)
  runs n k s c h e = unfold handle_client_messages in rw e refl

  -- The loop of a connection ends, whatever its client sends and whatever its frames meet, on as much
  -- fuel as there are bytes, and one more.
  pub handle_client_messages-IsStopped :
      (n k : ℕ) (s : List ℕ) (c : Client) (h : Handler)
      → length s < n
      → IsStopped (handle_client_messages messages responses round ending n k s c h).0
  handle_client_messages-IsStopped zero k s c h lt = absurd (omega arith)
  handle_client_messages-IsStopped (suc n) k s c h lt = elim (Bool-cases ((round k).stops)) [
    | inl e ↦ rw (stopped n k s c h e) tt
    | inr e ↦ rw (runs n k s c h e) (
        after_read-IsStopped (next n k c h) c h (read_frame ending s) (λ f rest q.
          after_frame-IsStopped _ _ (λ c' h'.
            handle_client_messages-IsStopped n (k + 1) rest c' h'
              (less n s rest lt (read_frame_less ending s rest f q)))))
  ]

  abbrev frames : ℕ → List Frame → Client → Handler → Session
  frames = serve_frames messages responses round ending

  delivered :
      (f : Frame) (s : List ℕ) → Delivers f → read_frame ending (serialize f ++ s) ≡ (ok f, s)
  delivered f s (fits, valid) = read_frame-serialize ending [] s f tt fits ∙ rw valid refl

  -- A client sends any valid frames of Go's widths, one behind the other. Then the loop over the bytes
  -- does to the connection and to the terminal what serving the frames in turn does, up to the first
  -- one that ends it, and it stops for the same reason; fuel of one more than the frames is enough.
  pub handle_client_messages-serve_frames :
      (n k : ℕ) (fs : List Frame) (c : Client) (h : Handler)
      → All Delivers fs
      → length fs < n
      → handle_client_messages messages responses round ending n k (stream fs) c h
        ≡ serve_frames messages responses round ending k fs c h
  handle_client_messages-serve_frames zero k fs c h valid lt = absurd (omega arith)
  handle_client_messages-serve_frames (suc n) k [] c h valid lt =
      elim (Bool-cases ((round k).stops)) [
        | inl e ↦ stopped n k _ c h e ∙ unfold serve_frames in rw e refl
        | inr e ↦ runs n k _ c h e ∙ rw (read_frame_end ending) (unfold serve_frames in rw e refl)
      ]
  handle_client_messages-serve_frames (suc n) k (f ∷ fs) c h valid lt =
      elim (Bool-cases ((round k).stops)) [
        | inl e ↦ stopped n k _ c h e ∙ unfold serve_frames in rw e refl
        | inr e ↦
            runs n k _ c h e
            ∙ rw (delivered f (stream fs) (valid.0)) (
                after_frame-cong _ _ (handle_frame messages responses (round k).io f c h) (λ c' h'.
                  handle_client_messages-serve_frames n (k + 1) fs c' h' (valid.1) (omega arith))
                ∙ unfold serve_frames in rw e refl)
      ]

  after_frame-Reaches :
      (next : Client → Handler → Session) (h : Handler) (r : Ending × Client × Handler)
      → Reaches responses h r.2
      → ((c : Client) (h' : Handler) → Reaches responses h' (next c h').2)
      → Reaches responses h (after_frame next r).2
  after_frame-Reaches next h (done, c, h') r reaches = Reaches-trans responses r (reaches c h')
  after_frame-Reaches next h (eof, c, h') r reaches = r
  after_frame-Reaches next h (panics, c, h') r reaches = r
  after_frame-Reaches next h (failed e, c, h') r reaches = r

  after_read-Reaches :
      (next : Frame → List ℕ → Session) (c : Client) (h : Handler) (r : Result Frame × List ℕ)
      → ((f : Frame) (rest : List ℕ) → Reaches responses h (next f rest).2)
      → Reaches responses h (after_read next c h r).2
  after_read-Reaches next c h (ok f, rest) reaches = reaches f rest
  after_read-Reaches next c h (err e, rest) reaches = begins

  -- Whatever bytes a client sends in a whole session, the terminal ends in a state that it reaches from
  -- the first one by serving messages.
  pub handle_client_messages-Reaches :
      (n k : ℕ) (s : List ℕ) (c : Client) (h : Handler)
      → Reaches responses h (handle_client_messages messages responses round ending n k s c h).2
  handle_client_messages-Reaches zero k s c h = unfold handle_client_messages in begins
  handle_client_messages-Reaches (suc n) k s c h = elim (Bool-cases ((round k).stops)) [
    | inl e ↦ rw (stopped n k s c h e) begins
    | inr e ↦ rw (runs n k s c h e) (
        after_read-Reaches (next n k c h) c h (read_frame ending s) (λ f rest.
          after_frame-Reaches _ h _ (handle_frame-Reaches messages responses (round k).io f c h)
            (λ c' h'. handle_client_messages-Reaches n (k + 1) rest c' h')))
  ]
