-- ===== src/Pos/Handler/Env.antt =====
-- The state of MessageHandler, what a call takes from outside, and the replies. Logging is left
-- out: it does not touch the state.
use Prim.Native.String.{String, ◌++◌}
use termwire.Common.{ℕ, ◌%◌}
use termwire.Go.Fmt.{decimal}
use termwire.Go.Time.{Time, unix, format_rfc3339}
use termwire.Message.{Message, Body, error_response}
use termwire.Pos.Card.{CardReader}
use termwire.Pos.Db.{Io}
use termwire.Pos.Manager.{Manager}

-- Each call site of `time.Now` and of `rand.Intn`, and each operation of the manager, has a number
-- of its own on every path, and with it a value that nothing else is tied to.
pub record Env : Type 0 where
  pub clock : ℕ → Time
  pub rand : ℕ → ℕ
  pub call : ℕ → Io
  pub marshal_error : String

-- `rand.Intn(n)` at the site `k`.
abbrev pub intn : Env → ℕ → ℕ → ℕ
intn env k n = env.rand k % n

-- The configuration is the manager's.
pub record Handler : Type 0 where
  pub manager : Manager
  pub card_reader : CardReader

abbrev pub with_manager : Manager → Handler → Handler
with_manager m h = record h { manager = m }

-- HandleMessage returns a message or an error, or a nil pointer or a bad slice bound ends the
-- program.
pub data Reply : Type 0 where
  reply : Message → Reply
  failure : String → Reply
  panic : Reply

unfoldable pub generate_message_id : Env → String
generate_message_id env =
    "MSG-" ++ decimal (unix (env.clock 0)) ++ "-" ++ decimal (intn env 0 10000)

abbrev pub answer : Env → Body → Reply
answer env b = reply (record {
  message_id = generate_message_id env;
  timestamp = format_rfc3339 (env.clock 1);
  body = b;
})

abbrev pub create_error_response : Env → String → String → Reply
create_error_response env code text =
    answer env (error_response (record { code = code; message = text }))
