-- ===== src/Ecr/Tests.antt =====
-- The register's theorems at a terminal in its first state, and at connections that fail.
use termwire.Common.{ℕ, ◌+◌, ◌≡◌, refl, true, String, List, [], ◌∷◌, ◌++◌, none, some, take, arith}
use termwire.Common.Int.{negsuc}
use termwire.Ecr.Api.{Call, request, generate_message_id}
use termwire.Ecr.Client.{Client, Dial, Env, response, error, decoded, send_message}
use termwire.Ecr.Client.Answers.{send_message_stale, send_message_write_fails}
use termwire.Ecr.Client.Exchange.{send_message-handle_frame}
use termwire.Ecr.Client.Sending.{IsRepeated, send_message-written}
use termwire.Ecr.Client.Stream.{Connection, Attempt, fresh_connection}
use termwire.Ecr.Config.{default_config}
use termwire.Ecr.Payment.{
  PaymentRequest, panicked, execute_payment, started, points_to_use, with_completion,
}
use termwire.Ecr.Payment.Points.{completion-points_to_use}
use termwire.Ecr.Payment.Results.{Tells, execute_payment-Tells}
use termwire.Ecr.Payment.Returns.{
  asked, IsOutcome, execute_payment-IsOutcome, execute_payment_panics,
}
use termwire.Ecr.Receipt.{total_amount}
use termwire.Frame.{Frame, new_frame, serialize, frame_type_data}
use termwire.Frame.Reader as Reader
use termwire.Frame.Reader.{IoError, eof, timeout, read_frame}
use termwire.Go.Fmt.{decimal, digits}
use termwire.Pos.Card.{CardData}
use termwire.Pos.Handler.Payment.{completion}
use termwire.Pos.Manager.{fresh_transaction}
use termwire.Pos.Transaction.{Transaction}
use termwire.Pos.Server.Connection as Connection
use termwire.Pos.Server.{done, handle_frame}
use termwire.Pos.Server.Samples.{
  env, noon, io, shop, question, answer, purchase, messages, responses, answered, encodes,
  encodes_question, encodes_purchase,
}

-- A round in which nothing fails, and some bytes arrive.
abbrev quiet : List ℕ → Attempt
quiet bytes = record {
  write_deadline_error = none;
  write_error = none;
  flushed = 0;
  read_deadline_error = none;
  arrives = bytes;
  ending = timeout;
  io_text = λ _. "timeout";
}

-- A round whose write fails behind three bytes.
abbrev torn : Attempt
torn = record {
  write_deadline_error = none;
  write_error = some "broken pipe";
  flushed = 3;
  read_deadline_error = none;
  arrives = [];
  ending = timeout;
  io_text = λ _. "timeout";
}

abbrev meets : Attempt → Env
meets a = record { attempt = λ _. a; marshal_error = ""; unmarshal_error = "" }

abbrev till : Client
till = record { config = default_config; connection = some fresh_connection; sequence = 65534 }

abbrev server : Connection.Client
server = record { sequence = 3; written = [] }

abbrev the_answer : Frame
the_answer = new_frame frame_type_data 4 (7 ∷ [])

send_message-handle_frame_example :
    let asks = new_frame frame_type_data 65535 [] in
    (read_frame eof (serialize asks) ≡ (Reader.ok asks, []))
    × (handle_frame messages responses io asks server shop
        ≡ (done, Connection.write (serialize the_answer) (Connection.next_sequence server), shop))
    × (send_message messages (meets (quiet (serialize the_answer))) question till ≡ (
      response answer,
      record till {
        connection = some (record fresh_connection { written = [] ++ serialize asks });
        sequence = 65535;
      },
    ))
send_message-handle_frame_example =
    send_message-handle_frame messages responses (meets (quiet (serialize the_answer))) io eof
      question answer till fresh_connection server shop shop [] (7 ∷ []) 3 refl refl refl refl refl
      refl refl refl refl refl encodes_question (omega arith) tt answered encodes (omega arith)
      (omega arith, tt)

-- A late answer of an earlier call, unread, while the register asks something else.
abbrev late : Connection
late = record { written = []; unread = serialize the_answer ++ []; broken = none }

abbrev till_late : Client
till_late = record till { connection = some late }

send_message_stale_example :
    (conn' : Connection) × (send_message messages (meets (quiet (1 ∷ []))) question till_late
      ≡ (decoded messages "" (7 ∷ []), record till { connection = some conn'; sequence = 65535 }))
    × (conn'.unread ≡ 1 ∷ [])
unfolding new_frame
send_message_stale_example =
    send_message_stale messages (meets (quiet (1 ∷ []))) question till_late late [] 3 refl
      encodes_question refl frame_type_data 4 (7 ∷ []) [] refl refl refl refl refl (omega arith)
      (omega arith) (omega arith) (omega arith) (omega arith, tt)

send_message-written_example :
    let c' = (send_message messages (meets torn) question till).1 in
    (conn' : Connection) × (c'.connection ≡ some conn')
    × IsRepeated 4 (serialize (new_frame frame_type_data 65535 [])) [] conn'.written
    × (c'.sequence ≡ 65535)
send_message-written_example =
    send_message-written messages (meets torn) question till fresh_connection [] refl
      encodes_question

abbrev torn_connection : Connection
torn_connection = record fresh_connection {
  written = [] ++ take 3 (serialize (new_frame frame_type_data 65535 []));
  broken = some "broken pipe";
}

send_message_write_fails_example :
    let next = record till { connection = some torn_connection; sequence = 65535 } in
    (y : String) × (z : String) × (send_message messages (meets torn) question till
      ≡ (error y, next))
    × (send_message messages (meets (quiet [])) purchase next
        ≡ (error z, record next { sequence = 0 }))
send_message_write_fails_example =
    send_message_write_fails messages (meets torn) question till fresh_connection [] 3 refl
      encodes_question refl "broken pipe" (meets (quiet [])) purchase (8 ∷ []) refl refl refl
      encodes_purchase

abbrev dial : Dial
dial = record {
  ca_error = none;
  ca_parses = true;
  certificate_error = none;
  dial_error = λ _. none;
}

abbrev idle : Client
idle = record till { connection = none }

abbrev calls : ℕ → Call
calls k = record { unix_nano = 5; clock = noon; net = meets torn }

abbrev shopping : PaymentRequest
shopping = record {
  transaction_id = "T-1";
  amount_cents = 1000;
  currency = "TRY";
  bank_id = 0;
  installment_count = 0;
  use_loyalty = true;
  loyalty_points = 0;
}

execute_payment-Tells_example :
    Tells messages calls shopping (execute_payment messages calls shopping till).0
execute_payment-Tells_example = execute_payment-Tells messages calls shopping till

execute_payment-IsOutcome_example : IsOutcome (execute_payment messages calls shopping till).0
execute_payment-IsOutcome_example = execute_payment-IsOutcome messages 3 calls shopping till refl

abbrev hasty : Client
hasty = record till { config = record default_config { max_retries = negsuc 0 } }

-- The message of the first call is the one that the samples encode.
first_message : messages.marshal (request (calls 0) (asked shopping)) ≡ some (8 ∷ [])
unfolding generate_message_id decimal digits
first_message = encodes_purchase

execute_payment_panics_example :
    let r = execute_payment messages calls shopping hasty in
    (r.0 ≡ panicked) × (r.2.connection ≡ some fresh_connection)
execute_payment_panics_example =
    execute_payment_panics messages calls shopping hasty fresh_connection 0 (8 ∷ []) refl refl
      first_message

abbrev card : CardData
card = record {
  card_number = "4111111111111111";
  masked_number = "411111******1111";
  holder_name = "CARD HOLDER";
  expiry_date = "12/30";
  cvv = "123";
  available_banks = [];
  has_loyalty_card = true;
  loyalty_points = 5000;
  points_value_cents = 5000;
}

-- A payment of 10.00 by 300 points and a card.
abbrev shared_payment : Transaction
shared_payment = record (fresh_transaction (env.call 0) noon "T-1" 1000 "TRY") {
  card = some card;
  loyalty_points_used = 300;
  loyalty_amount_cents = 300;
}

completion-points_to_use_example :
    let r = completion "CONF-1" "AUTH-1" shared_payment in
    (r.card_amount_cents + r.loyalty_amount_cents ≡ 1000)
    × (r.remaining_points + 300 ≡ 5000)
    × (total_amount (with_completion r (started shopping)) ≡ 1000)
completion-points_to_use_example =
    completion-points_to_use shared_payment card 300 refl refl (omega arith) (omega arith) "CONF-1"
      "AUTH-1" (started shopping) (unfold points_to_use in refl) (unfold points_to_use in refl)
