-- ===== src/Ecr/Api/Tests/Paying.antt =====
-- A payment of 15.00 through the whole stack.
use termwire.Common.{
  ℕ, ◌&&◌, ◌==◌, Bool, ◌≡◌, refl, not, String, str_eq, str_eq_iff, str_eq_refl, if◌then◌else◌, List,
  [], ◌∷◌, Option, none, some, arith, false,
}
use termwire.Ecr.Api.{got, completed}
use termwire.Ecr.Api.Calls as Calls
use termwire.Ecr.Api.Paying.{
  payment, asked, held, paid_after, granted, answer, process_payment-handle_frame,
}
use termwire.Ecr.Api.Tests.{call, till, line}
use termwire.Ecr.Client.Stream.{fresh_connection}
use termwire.Frame.{new_frame, serialize, frame_type_data}
use termwire.Frame.Reader as Reader
use termwire.Frame.Reader.{eof, read_frame}
use termwire.Go.Dict.{lookup, insert}
use termwire.Message.{Message, Body, payment_processing_request, payment_completion_response}
use termwire.Message.Codec.{Codec}
use termwire.Message.Requests.{PaymentProcessingRequest}
use termwire.Message.Responses.{PaymentCompletionResponse}
use termwire.Pos.Db.{Row, find_row}
use termwire.Pos.Handler.Env.{Handler}
use termwire.Pos.Manager.{fresh_transaction, put}
use termwire.Pos.Samples.{same_response, same_response-eq, same_response_refl, only}
use termwire.Pos.Server.{done, handle_frame}
use termwire.Pos.Server.Connection as Server
use termwire.Pos.Handler.Promise.{next_receipt, GrantsPayment, HoldsCompleted}
use termwire.Pos.Server.Samples.{env, io, noon, shop}
use termwire.Pos.Transaction.{Transaction}

abbrev txn : Transaction
txn = fresh_transaction (env.call 0) noon "T-1" 1500 "EUR"

abbrev buying : Handler
buying = record shop { manager = put "T-1" txn shop.manager }

abbrev req : PaymentProcessingRequest
req = payment "T-1" 1 "A0000000041010" 1

abbrev asking : Message
asking = asked call req

abbrev granted_now : PaymentCompletionResponse
granted_now = granted io req txn buying

abbrev answering : Message
answering = answer io req txn buying

abbrev same_header : Message → Message → Bool
same_header p q = str_eq p.message_id q.message_id && str_eq p.timestamp q.timestamp

abbrev same_request : PaymentProcessingRequest → Bool
same_request r =
    str_eq req.transaction_id r.transaction_id
    && str_eq req.selected_aid r.selected_aid
    && not r.use_loyalty_points
    && req.selected_bank_id == r.selected_bank_id
    && req.installment_count == r.installment_count

abbrev marshal : Message → Option (List ℕ)
marshal q = elim (q.body) [
  | payment_processing_request r ↦
      if same_header asking q && same_request r then some (1 ∷ []) else none
  | payment_completion_response r ↦
      if same_header answering q && same_response granted_now r then some [] else none
  | _ ↦ none
]

abbrev unmarshal : List ℕ → Option Message
unmarshal [] = some answering
unmarshal (b ∷ bytes) = some asking

decodes :
    (i t : String) (b : Body) (bytes : List ℕ)
    → marshal (record { message_id = i; timestamp = t; body = b }) ≡ some bytes
    → unmarshal bytes ≡ some (record { message_id = i; timestamp = t; body = b })
decodes i t (payment_processing_request r) bytes e = ground (
  arith,
  str_eq_iff asking.message_id i,
  str_eq_iff asking.timestamp t,
  str_eq_iff req.transaction_id r.transaction_id,
  str_eq_iff req.selected_aid r.selected_aid,
)
decodes i t (payment_completion_response r) bytes e = ground (
  arith,
  str_eq_iff answering.message_id i,
  str_eq_iff answering.timestamp t,
  same_response-eq granted_now r,
)
decodes i t b bytes e = cc

abbrev messages : Codec Message
messages = record {
  marshal = marshal;
  unmarshal = unmarshal;
  unmarshal-marshal = λ q bytes. decodes q.message_id q.timestamp q.body bytes;
}

asks : messages.marshal asking ≡ some (1 ∷ [])
asks = ground (
  arith,
  str_eq_refl asking.message_id,
  str_eq_refl asking.timestamp,
  str_eq_refl req.transaction_id,
  str_eq_refl req.selected_aid,
)

answers : messages.marshal answering ≡ some []
answers = ground (
  arith,
  str_eq_refl answering.message_id,
  str_eq_refl answering.timestamp,
  same_response_refl granted_now,
)

caches : (only granted_now).marshal granted_now ≡ some (1 ∷ [])
caches = ground (arith, same_response_refl granted_now)

opened : lookup "T-1" buying.manager.active ≡ some txn
unfolding lookup insert
opened = ground (arith, str_eq_refl "T-1")

is_new : find_row "T-1" buying.manager.db.rows ≡ none
unfolding find_row
is_new = refl

process_payment-handle_frame_example :
    let sent = new_frame frame_type_data 1 (1 ∷ []) in
    let after = paid_after (only granted_now) io req txn buying in
    let sends_back = new_frame frame_type_data 1 [] in
    (read_frame eof (serialize sent) ≡ (Reader.ok sent, []))
    × (handle_frame messages (only granted_now) io sent line buying
        ≡ (done, Server.write (serialize sends_back) (Server.next_sequence line), after))
    × (Calls.process_payment messages "T-1" 1 "A0000000041010" 1 false call till ≡ (
      got (completed granted_now),
      record till {
        connection = some (record fresh_connection { written = serialize sent; unread = [] });
        sequence = 1;
      },
    ))
    × GrantsPayment env (next_receipt buying) (held io req txn) granted_now
    × ((r : Row) × (find_row "T-1" after.manager.db.rows ≡ some r)
        × HoldsCompleted env (next_receipt buying) (held io req txn) r
        × (r.cached_response ≡ 1 ∷ []))
process_payment-handle_frame_example =
    process_payment-handle_frame messages (only granted_now) io eof call till fresh_connection line
      buying txn "T-1" "A0000000041010" 1 1 1 [] opened refl is_new refl refl refl refl caches
      (1 ∷ []) [] 3 refl refl refl refl refl refl refl refl refl refl asks (omega arith)
      (omega arith, tt) answers (omega arith) tt
