-- ===== src/Ecr/Client/Stream.antt =====
-- A connection of the register: the bytes written to it, the bytes that its buffered reader has not
-- handed out, and the error that its buffered writer has met. A bufio.Writer that has failed once
-- takes no more data, and every later Write and Flush returns the same error.
use termwire.Common.{ℕ, List, [], ◌++◌, Option, none, some, String, take}
use termwire.Frame.{Frame, serialize}
use termwire.Frame.Reader.{IoError, Result, read_frame}
use termwire.Frame.Reader as Reader
use termwire.Frame.ErrorText.{error_text}
use termwire.Go.Outcome.{Outcome, ok, err}

pub record Connection : Type 0 where
  pub written : List ℕ
  pub unread : List ℕ
  pub broken : Option String

abbrev pub fresh_connection : Connection
fresh_connection = record { written = []; unread = []; broken = none }

-- What one round of a call meets: the errors of setting the deadlines, the error of the write with the
-- number of bytes that went out before it, and the bytes that arrive for the read, with what the
-- connection gives behind them and the texts of its errors.
pub record Attempt : Type 0 where
  pub write_deadline_error : Option String
  pub write_error : Option String
  pub flushed : ℕ
  pub read_deadline_error : Option String
  pub arrives : List ℕ
  pub ending : IoError
  pub io_text : IoError → String

-- The Write and the Flush of the buffered writer.
abbrev pub put_bytes : Attempt → List ℕ → Connection → Option String × Connection
put_bytes a bytes c = elim (c.broken) [
  | some e ↦ (some e, c)
  | none ↦ elim (a.write_error) [
    | some e ↦ (some e, record c { written = c.written ++ take a.flushed bytes; broken = some e })
    | none ↦ (none, record c { written = c.written ++ bytes })
  ]
]

unfoldable pub write_frame : Attempt → Frame → Connection → Option String × Connection
write_frame a frame c = elim (a.write_deadline_error) [
  | some e ↦ (some e, c)
  | none ↦ put_bytes a (serialize frame) c
]

-- ReadFrame's result, with the text of its error.
abbrev pub outcome : (IoError → String) → Result Frame → Outcome Frame
outcome text (Reader.ok f) = ok f
outcome text (Reader.err e) = err (error_text text e)

unfoldable pub read_response : Attempt → Connection → Outcome Frame × Connection
read_response a c = elim (a.read_deadline_error) [
  | some e ↦ (err e, c)
  | none ↦
      let (result, rest) = read_frame a.ending (c.unread ++ a.arrives) in
      (outcome a.io_text result, record c { unread = rest })
]
