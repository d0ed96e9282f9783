-- ===== src/Ecr/Api/Tests.antt =====
-- A void through the whole stack, of a payment of 15.00 that the terminal's database holds.
mod Paying
use termwire.Common.{
  ℕ, ◌&&◌, Bool, ◌≡◌, refl, String, str_eq, str_eq_iff, str_eq_refl, if◌then◌else◌, List, [], ◌∷◌,
  Option, none, some, arith,
}
use termwire.Ecr.Api.{Call, got}
use termwire.Ecr.Api as Api
use termwire.Go.Fmt.{decimal, digits}
use termwire.Ecr.Api.Calls as Calls
use termwire.Ecr.Api.Voiding.{accepted, answer, asked, voided_after, void_transaction-handle_frame}
use termwire.Ecr.Client.{Client}
use termwire.Ecr.Client.Stream.{fresh_connection}
use termwire.Ecr.Config.{default_config}
use termwire.Frame.{new_frame, serialize, frame_type_data}
use termwire.Frame.Reader as Reader
use termwire.Frame.Reader.{eof, timeout, read_frame}
use termwire.Go.Time.{format_rfc3339, unix}
use termwire.Message.{Message, Body, void_transaction_request, void_transaction_response}
use termwire.Message.Codec.{Codec}
use termwire.Message.Requests.{VoidTransactionRequest}
use termwire.Message.Responses.{VoidTransactionResponse}
use termwire.Pos.Db.{Row, find_row, row_of, scan_transaction}
use termwire.Pos.Handler.Env.{Handler, generate_message_id}
use termwire.Pos.Manager.{fresh_transaction, settled}
use termwire.Pos.Server.{done, handle_frame}
use termwire.Pos.Server.Connection as Server
use termwire.Pos.Server.Samples.{env, io, noon, shop, responses}
use termwire.Pos.Settled.{restate}
use termwire.Pos.Transaction.{state_code, payment_completed, voided}

abbrev sold : Row
sold = row_of (
    settled (env.call 0) "CONF-1" "AUTH-1" 1001
      (fresh_transaction (env.call 0) noon "T-1" 1500 "EUR"))

abbrev selling : Handler
selling = record shop {
  manager = record (shop.manager) { db = record { rows = sold ∷ []; metadata = [] } };
}

abbrev req : VoidTransactionRequest
req = record {
  original_transaction_id = "T-1";
  reason = "wrong amount";
  currency = "EUR";
  original_confirmation_code = "CONF-1";
}

abbrev res : VoidTransactionResponse
res = record {
  code = "00";
  transaction_id = "VOID-T-1-1764403200";
  confirmation_code = "VOIDCONF-1764403200";
  message = "Transaction T-1 voided successfully";
  currency = "EUR";
}

abbrev same_header : String → Message → Bool
same_header id q = str_eq id q.message_id && str_eq (format_rfc3339 noon) q.timestamp

abbrev same_request : VoidTransactionRequest → Bool
same_request r =
    str_eq req.original_transaction_id r.original_transaction_id
    && str_eq req.reason r.reason
    && str_eq req.currency r.currency
    && str_eq req.original_confirmation_code r.original_confirmation_code

abbrev same_response : VoidTransactionResponse → Bool
same_response r =
    str_eq res.code r.code
    && str_eq res.transaction_id r.transaction_id
    && str_eq res.confirmation_code r.confirmation_code
    && str_eq res.message r.message
    && str_eq res.currency r.currency

abbrev asking : Message
asking = record {
  message_id = "ECR-5";
  timestamp = format_rfc3339 noon;
  body = void_transaction_request req;
}

abbrev answering : Message
answering = record {
  message_id = generate_message_id env;
  timestamp = format_rfc3339 noon;
  body = void_transaction_response res;
}

abbrev marshal : Message → Option (List ℕ)
marshal q = elim (q.body) [
  | void_transaction_request r ↦
      if same_header "ECR-5" q && same_request r then some (1 ∷ []) else none
  | void_transaction_response r ↦
      if same_header (generate_message_id env) q && same_response r then some [] else none
  | _ ↦ none
]

abbrev unmarshal : List ℕ → Option Message
unmarshal [] = some answering
unmarshal (b ∷ bytes) = some asking

decodes :
    (i t : String) (b : Body) (bytes : List ℕ)
    → marshal (record { message_id = i; timestamp = t; body = b }) ≡ some bytes
    → unmarshal bytes ≡ some (record { message_id = i; timestamp = t; body = b })
decodes i t (void_transaction_request r) bytes e = ground (
  arith,
  str_eq_iff asking.message_id i,
  str_eq_iff asking.timestamp t,
  str_eq_iff req.original_transaction_id r.original_transaction_id,
  str_eq_iff req.reason r.reason,
  str_eq_iff req.currency r.currency,
  str_eq_iff req.original_confirmation_code r.original_confirmation_code,
)
decodes i t (void_transaction_response r) bytes e = ground (
  arith,
  str_eq_iff answering.message_id i,
  str_eq_iff answering.timestamp t,
  str_eq_iff res.code r.code,
  str_eq_iff res.transaction_id r.transaction_id,
  str_eq_iff res.confirmation_code r.confirmation_code,
  str_eq_iff res.message r.message,
  str_eq_iff res.currency r.currency,
)
decodes i t b bytes e = cc

abbrev messages : Codec Message
messages = record {
  marshal = marshal;
  unmarshal = unmarshal;
  unmarshal-marshal = λ q bytes. decodes q.message_id q.timestamp q.body bytes;
}

encodes_asking : messages.marshal asking ≡ some (1 ∷ [])
encodes_asking = ground (
  arith,
  str_eq_refl asking.message_id,
  str_eq_refl asking.timestamp,
  str_eq_refl req.original_transaction_id,
  str_eq_refl req.reason,
  str_eq_refl req.currency,
  str_eq_refl req.original_confirmation_code,
)

encodes_answering : messages.marshal answering ≡ some []
encodes_answering = ground (
  arith,
  str_eq_refl answering.message_id,
  str_eq_refl answering.timestamp,
  str_eq_refl res.code,
  str_eq_refl res.transaction_id,
  str_eq_refl res.confirmation_code,
  str_eq_refl res.message,
  str_eq_refl res.currency,
)

abbrev reply_bytes : List ℕ
reply_bytes = serialize (new_frame frame_type_data 1 [])

abbrev call : Call
call = record {
  unix_nano = 5;
  clock = noon;
  net = record {
    attempt = λ _. record {
      write_deadline_error = none;
      write_error = none;
      flushed = 0;
      read_deadline_error = none;
      arrives = reply_bytes;
      ending = timeout;
      io_text = λ _. "";
    };
    marshal_error = "";
    unmarshal_error = "";
  };
}

abbrev till : Client
till = record { config = default_config; connection = some fresh_connection; sequence = 0 }

abbrev line : Server.Client
line = record { sequence = 0; written = [] }

found : find_row "T-1" selling.manager.db.rows ≡ some sold
unfolding find_row row_of
found = ground (arith, str_eq_refl "T-1")

completed : sold.state ≡ state_code payment_completed
unfolding row_of
completed = refl

-- The messages of the theorem are the two that the encoding knows.
asks :
    messages.marshal (
      asked messages responses io eof call till fresh_connection line selling sold "T-1" "CONF-1"
        "EUR" "wrong amount")
    ≡ some (1 ∷ [])
unfolding Api.generate_message_id decimal digits
asks = encodes_asking

answers :
    messages.marshal (
      answer messages responses io eof call till fresh_connection line selling sold "T-1" "CONF-1"
        "EUR" "wrong amount")
    ≡ some []
unfolding decimal digits unix scan_transaction row_of
answers = encodes_answering

void_transaction-handle_frame_example :
    let sent = new_frame frame_type_data 1 (1 ∷ []) in
    let after =
      voided_after messages responses io eof call till fresh_connection line selling sold "T-1"
        "CONF-1" "EUR" "wrong amount" in
    let sends_back = new_frame frame_type_data 1 [] in
    (read_frame eof (serialize sent) ≡ (Reader.ok sent, []))
    × (handle_frame messages responses io sent line selling
        ≡ (done, Server.write (serialize sends_back) (Server.next_sequence line), after))
    × (Calls.void_transaction messages "T-1" "CONF-1" "EUR" "wrong amount" call till ≡ (
      got (
          accepted messages responses io eof call till fresh_connection line selling sold "T-1"
            "CONF-1" "EUR" "wrong amount"),
      record till {
        connection = some (record fresh_connection { written = serialize sent; unread = [] });
        sequence = 1;
      },
    ))
    × (find_row "T-1" after.manager.db.rows
        ≡ some (record sold { state = 7; last_updated = format_rfc3339 noon }))
void_transaction-handle_frame_example =
    void_transaction-handle_frame messages responses io eof call till fresh_connection line selling
      sold "T-1" "CONF-1" "EUR" "wrong amount" (1 ∷ []) [] 3 refl refl refl refl refl refl refl refl
      refl refl asks (omega arith) (omega arith, tt) answers (omega arith) tt found completed refl
      refl
