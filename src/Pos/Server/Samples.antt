-- ===== src/Pos/Server/Samples.antt =====
-- A terminal in its first state, three messages with an encoding, and what nothing fails in.
use termwire.Common.{
  ℕ, ◌&&◌, ◌==◌, Bool, ◌≡◌, refl, String, str_eq, str_eq_iff, str_eq_refl, if◌then◌else◌, List, [],
  ◌∷◌, Option, none, some, arith,
}
use termwire.Go.Time.{Time, utc, format_rfc3339}
use termwire.Message.{
  Message, Body, get_version_request, get_version_response, card_insertion_request,
}
use termwire.Message.Codec.{Codec}
use termwire.Message.Requests.{CardInsertionRequest}
use termwire.Message.Responses.{GetVersionResponse, PaymentCompletionResponse}
use termwire.Pos.Config.{default_config}
use termwire.Pos.Handler.Dispatch.{handle_message, handle_body}
use termwire.Pos.Handler.Service.{handle_get_version}
use termwire.Pos.Handler.Env.{Env, Handler, reply, generate_message_id}
use termwire.Pos.Server.{Io}
use termwire.Pos.Server.Connection.{Client}

abbrev pub noon : Time
noon = record { seconds = 63900000000; zone = utc }

abbrev pub env : Env
env = record {
  clock = λ _. noon;
  rand = λ _. 42;
  call = λ _. record { now = noon; fault = λ _. none; unique_error = "" };
  marshal_error = "";
}

abbrev pub io : Io
io = record {
  env = env;
  write_error = none;
  flush_error = none;
  flushed = 0;
  unmarshal_error = "";
  marshal_error = "";
}

abbrev pub shop : Handler
shop = record {
  manager = record {
    active = [];
    receipt_counter = 1000;
    config = default_config;
    db = record { rows = []; metadata = [] };
  };
  card_reader = record { current_card = none };
}

abbrev pub client : Client
client = record { sequence = 65535; written = [] }

abbrev pub question : Message
question = record { message_id = "MSG-1"; timestamp = ""; body = get_version_request }

abbrev pub version : GetVersionResponse
version = record { code = "00"; version = "1.0.0" }

abbrev pub answer : Message
answer = record {
  message_id = generate_message_id env;
  timestamp = format_rfc3339 noon;
  body = get_version_response version;
}

-- The register's first message of a payment of 10.00.
abbrev pub payment : CardInsertionRequest
payment = record { transaction_amount_cents = 1000; currency = "TRY"; transaction_id = "T-1" }

abbrev pub purchase : Message
purchase = record {
  message_id = "ECR-5";
  timestamp = format_rfc3339 noon;
  body = card_insertion_request payment;
}

-- An encoding of these three messages only.
abbrev same_header : Message → Message → Bool
same_header p q = str_eq p.message_id q.message_id && str_eq p.timestamp q.timestamp

abbrev same_version : GetVersionResponse → Bool
same_version r = str_eq version.code r.code && str_eq version.version r.version

abbrev same_payment : CardInsertionRequest → Bool
same_payment r =
    (payment.transaction_amount_cents == r.transaction_amount_cents)
    && str_eq payment.currency r.currency
    && str_eq payment.transaction_id r.transaction_id

abbrev marshal : Message → Option (List ℕ)
marshal q = elim (q.body) [
  | get_version_request ↦ if same_header question q then some [] else none
  | get_version_response r ↦ if same_header answer q && same_version r then some (7 ∷ []) else none
  | card_insertion_request r ↦
      if same_header purchase q && same_payment r then some (8 ∷ []) else none
  | _ ↦ none
]

abbrev unmarshal : List ℕ → Option Message
unmarshal [] = some question
unmarshal (b ∷ bytes) = if b == 7 then some answer else some purchase

pub decodes :
    (i t : String) (b : Body) (bytes : List ℕ)
    → marshal (record { message_id = i; timestamp = t; body = b }) ≡ some bytes
    → unmarshal bytes ≡ some (record { message_id = i; timestamp = t; body = b })
decodes i t get_version_request bytes e =
    ground (arith, str_eq_iff question.message_id i, str_eq_iff question.timestamp t)
decodes i t (get_version_response r) bytes e = ground (
  arith,
  str_eq_iff answer.message_id i,
  str_eq_iff answer.timestamp t,
  str_eq_iff version.code r.code,
  str_eq_iff version.version r.version,
)
decodes i t (card_insertion_request r) bytes e = ground (
  arith,
  str_eq_iff purchase.message_id i,
  str_eq_iff purchase.timestamp t,
  str_eq_iff payment.currency r.currency,
  str_eq_iff payment.transaction_id r.transaction_id,
)
decodes i t b bytes e = cc

abbrev pub messages : Codec Message
messages = record {
  marshal = marshal;
  unmarshal = unmarshal;
  unmarshal-marshal = λ q bytes. decodes q.message_id q.timestamp q.body bytes;
}

abbrev nothing : {A : Type 0} → Option A
nothing = none

pub never :
    (r : PaymentCompletionResponse) (bytes : List ℕ)
    → nothing {A = List ℕ} ≡ some bytes
    → nothing {A = PaymentCompletionResponse} ≡ some r
never r bytes e = cc

abbrev pub responses : Codec PaymentCompletionResponse
responses = record { marshal = λ _. none; unmarshal = λ _. none; unmarshal-marshal = never }

pub answered : handle_message responses env question shop ≡ (reply answer, shop)
unfolding handle_message handle_body handle_get_version
answered = refl

pub encodes : messages.marshal answer ≡ some (7 ∷ [])
encodes = ground (
  arith,
  str_eq_refl answer.message_id,
  str_eq_refl answer.timestamp,
  str_eq_refl version.code,
  str_eq_refl version.version,
)

pub encodes_question : messages.marshal question ≡ some []
encodes_question = ground (arith, str_eq_refl question.message_id, str_eq_refl question.timestamp)

pub encodes_purchase : messages.marshal purchase ≡ some (8 ∷ [])
encodes_purchase = ground (
  arith,
  str_eq_refl purchase.message_id,
  str_eq_refl purchase.timestamp,
  str_eq_refl payment.currency,
  str_eq_refl payment.transaction_id,
)
