-- ===== src/Pos/Ledger/Reach.antt =====
-- The states that the terminal reaches by serving messages, and what becomes of a settled transaction.
use termwire.Common.{◌≡◌, String, some}
use termwire.Message.{Message}
use termwire.Message.Codec.{Codec}
use termwire.Message.Responses.{PaymentCompletionResponse}
use termwire.Pos.Db.{Row, find_row}
use termwire.Pos.Ledger.{Evolves}
use termwire.Pos.Handler.Env.{Env, Handler}
use termwire.Pos.Handler.Dispatch.{handle_message}
use termwire.Pos.Ledger.Acts.{Runs, rests, Runs-trans, Runs-Extends}
use termwire.Pos.Ledger.Payments.{Keeps}
use termwire.Pos.Ledger.Handlers.{body-Keeps}

module _ (codec : Codec PaymentCompletionResponse) where
  -- The states that the terminal can reach: one message after the other, each with whatever clock,
  -- random numbers and failing statements it meets.
  pub data Reaches (h : Handler) : Handler → Type 0 where
    begins : Reaches h h
    serves :
        (env : Env) (msg : Message) {h' : Handler}
        → Reaches h h'
        → Reaches h (handle_message codec env msg h').1

  pub Reaches-trans : {a b c : Handler} → Reaches a b → Reaches b c → Reaches a c
  Reaches-trans r begins = r
  Reaches-trans r (serves env msg s) = serves env msg (Reaches-trans r s)

  handle_message-Keeps :
      (env : Env) (msg : Message) (h : Handler) → Keeps codec h (handle_message codec env msg h).1
  unfolding handle_message
  handle_message-Keeps env msg h = body-Keeps codec env h msg.body

  pub Reaches-Runs : {h h' : Handler} → Reaches h h' → Runs codec h.manager h'.manager
  Reaches-Runs {h} begins = rests
  Reaches-Runs (serves env msg {h'} r) =
      Runs-trans (Reaches-Runs r) (handle_message-Keeps env msg h')

  -- However many messages the terminal serves, and whatever each of them meets, a settled transaction
  -- stays in the database: under its identifier there is a row with the same amounts, currency, codes,
  -- receipt number and creation time, whose state is the old one, or has gone from completed to
  -- voided or to refunded, and whose batch is the old one, or was given to a row that had none.
  pub Reaches-Evolves :
      (h h' : Handler) (k : String) (r : Row)
      → Reaches h h'
      → find_row k h.manager.db.rows ≡ some r
      → (s : Row) × (find_row k h'.manager.db.rows ≡ some s) × Evolves r s
  Reaches-Evolves h h' k r path found = (Runs-Extends (Reaches-Runs path)).grows k r found
