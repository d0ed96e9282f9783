-- ===== src/Ecr/Client/Rounds.antt =====
-- What one round of SendMessage does, and what its loop does to the connection.
use Prim.Native.String
use termwire.Common.{
  ℕ, zero, suc, ◌+◌, ◌≡◌, refl, ◌∙◌, String, List, [], ◌++◌, Option, none, some, take, arith,
  Option-cases, inl, inr,
}
use termwire.Ecr.Client.{error, decoded, send_rounds}
use termwire.Ecr.Client.Stream.{Connection, Attempt, write_frame, read_response}
use termwire.Frame.{Frame, serialize}
use termwire.Frame.Reader as Reader
use termwire.Frame.Reader.{read_frame}
use termwire.Go.Outcome.{err, ok}
use termwire.Message.{Message}
use termwire.Message.Codec.{Codec}

-- Whole copies of some bytes, one behind the other.
abbrev pub copies : ℕ → List ℕ → List ℕ
copies zero bytes = []
copies (suc n) bytes = bytes ++ copies n bytes

abbrev pub failed_write : String → String
failed_write = String.◌++◌ "failed to send frame: "

abbrev pub failed_read : String → String
failed_read = String.◌++◌ "failed to read response: "

pub write_frame_ok :
    (a : Attempt) (f : Frame) (conn : Connection)
    → a.write_deadline_error ≡ none
    → a.write_error ≡ none
    → conn.broken ≡ none
    → write_frame a f conn ≡ (none, record conn { written = conn.written ++ serialize f })
unfolding write_frame
write_frame_ok a f conn d w b = ground arith

pub write_frame_broken :
    (a : Attempt) (f : Frame) (conn : Connection) (e : String)
    → conn.broken ≡ some e
    → (x : String) × (write_frame a f conn ≡ (some x, conn))
unfolding write_frame
write_frame_broken a f conn e b = elim (Option-cases (a.write_deadline_error)) [
  | inl d ↦ (e, ground arith)
  | inr (x, d) ↦ (x, ground arith)
]

pub write_frame_fails :
    (a : Attempt) (f : Frame) (conn : Connection) (e : String)
    → a.write_deadline_error ≡ none
    → a.write_error ≡ some e
    → conn.broken ≡ none
    → write_frame a f conn ≡ (
      some e,
      record conn { written = conn.written ++ take a.flushed (serialize f); broken = some e },
    )
unfolding write_frame
write_frame_fails a f conn e d w b = ground arith

pub read_response_ok :
    (a : Attempt) (conn : Connection) (f : Frame) (rest : List ℕ)
    → a.read_deadline_error ≡ none
    → read_frame a.ending (conn.unread ++ a.arrives) ≡ (Reader.ok f, rest)
    → read_response a conn ≡ (ok f, record conn { unread = rest })
unfolding read_response
read_response_ok a conn f rest d e = ground arith

pub read_response-written :
    (a : Attempt) (conn : Connection)
    → ((read_response a conn).1.written ≡ conn.written)
      × ((read_response a conn).1.broken ≡ conn.broken)
unfolding read_response
read_response-written a conn = elim (Option-cases (a.read_deadline_error)) [
  | inl d ↦ (ground arith, ground arith)
  | inr (x, d) ↦ (ground arith, ground arith)
]

module _ (messages : Codec Message) (env : ℕ → Attempt) (text : String) (frame : Frame) where
  pub send_rounds_write_fails :
      (n k : ℕ) (last : Option String) (conn conn' : Connection) (e : String)
      → write_frame (env k) frame conn ≡ (some e, conn')
      → send_rounds messages env text frame (suc n) k last conn
        ≡ send_rounds messages env text frame n (k + 1) (some (failed_write e)) conn'
  unfolding send_rounds
  send_rounds_write_fails n k last conn conn' e w = ground arith

  pub send_rounds_read_fails :
      (n k : ℕ) (last : Option String) (conn sent conn' : Connection) (e : String)
      → write_frame (env k) frame conn ≡ (none, sent)
      → read_response (env k) sent ≡ (err e, conn')
      → send_rounds messages env text frame (suc n) k last conn
        ≡ send_rounds messages env text frame n (k + 1) (some (failed_read e)) conn'
  unfolding send_rounds
  send_rounds_read_fails n k last conn sent conn' e w r = ground arith

  pub send_rounds_reads :
      (n k : ℕ) (last : Option String) (conn sent conn' : Connection) (f : Frame)
      → write_frame (env k) frame conn ≡ (none, sent)
      → read_response (env k) sent ≡ (ok f, conn')
      → send_rounds messages env text frame (suc n) k last conn
        ≡ (decoded messages text f.payload, conn')
  unfolding send_rounds
  send_rounds_reads n k last conn sent conn' f w r = ground arith

  -- A writer that has failed fails every round.
  pub send_rounds_broken :
      (n k : ℕ) (x : String) (conn : Connection) (e : String)
      → conn.broken ≡ some e
      → (y : String) × (send_rounds messages env text frame n k (some x) conn ≡ (error y, conn))
  unfolding send_rounds
  send_rounds_broken zero k x conn e b = (x, refl)
  send_rounds_broken (suc n) k x conn e b =
      let (y, w) = write_frame_broken (env k) frame conn e b in
      let (z, ih) = send_rounds_broken n (k + 1) (failed_write y) conn e b in
      (z, send_rounds_write_fails n k (some x) conn conn y w ∙ ih)
