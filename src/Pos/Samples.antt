-- ===== src/Pos/Samples.antt =====
-- A terminal with one payment, and the states that it comes to.
use termwire.Common.{
  Option, ◌≡◌, refl, ℕ, str_eq, str_eq_iff, str_eq_refl, ap, List, [], ◌∷◌, Bool, true, ◌&&◌, ◌==◌,
  none, some, if◌then◌else◌, arith,
}
use termwire.Go.Dict.{lookup, insert}
use termwire.Go.Time.{Time, utc}
use termwire.Message.Codec.{Codec}
use termwire.Message.Responses.{PaymentCompletionResponse}
use termwire.Pos.Config.{default_config}
use termwire.Pos.Db.{Io, Row, row_of, find_row}
use termwire.Pos.Handler.Approval.{response, final}
use termwire.Pos.Handler.Env.{Env, Handler}
use termwire.Pos.Manager.{Manager, declined, fresh_transaction, put}
use termwire.Pos.Transaction.{Transaction, state_code, payment_completed}

abbrev pub noon : Time
noon = record { seconds = 63900000000; zone = utc }

abbrev pub smooth : Io
smooth = record {
  now = noon;
  fault = λ k. none;
  unique_error = "UNIQUE constraint failed: transactions.id";
}

abbrev pub env : Env
env = record { clock = λ k. noon; rand = λ k. 42; call = λ k. smooth; marshal_error = "" }

abbrev pub txn : Transaction
txn = fresh_transaction smooth noon "TXN-1" 1500 "EUR"

abbrev pub empty : Manager
empty = record {
  active = [];
  receipt_counter = 7;
  config = default_config;
  db = record { rows = []; metadata = [] };
}

abbrev pub waiting : Handler
waiting = record { manager = put "TXN-1" txn empty; card_reader = record { current_card = none } }

-- The encoding of one response, by a byte.
abbrev pub same_response : PaymentCompletionResponse → PaymentCompletionResponse → Bool
same_response p q =
    str_eq p.code q.code
    && str_eq p.confirmation_code q.confirmation_code
    && str_eq p.receipt_number q.receipt_number
    && p.card_amount_cents == q.card_amount_cents
    && p.loyalty_amount_cents == q.loyalty_amount_cents
    && p.remaining_points == q.remaining_points
    && str_eq p.message q.message
    && str_eq p.auth_code q.auth_code
    && str_eq p.currency q.currency
    && p.installment_count == q.installment_count

pub same_response-eq : (p q : PaymentCompletionResponse) → same_response p q ≡ true → p ≡ q
same_response-eq p q e = ground (
  arith,
  str_eq_iff p.code q.code,
  str_eq_iff p.confirmation_code q.confirmation_code,
  str_eq_iff p.receipt_number q.receipt_number,
  str_eq_iff p.message q.message,
  str_eq_iff p.auth_code q.auth_code,
  str_eq_iff p.currency q.currency,
)

pub only-decodes :
    (p q : PaymentCompletionResponse) (b : List ℕ)
    → (if same_response p q then some (1 ∷ []) else none) ≡ some b
    → some p ≡ some q
only-decodes p q b e = ground (arith, same_response-eq p q)

abbrev pub only : PaymentCompletionResponse → Codec PaymentCompletionResponse
only p = record {
  marshal = λ q. if same_response p q then some (1 ∷ []) else none;
  unmarshal = λ _. some p;
  unmarshal-marshal = only-decodes p;
}

-- The encoding of two responses, by a byte each.
abbrev pub marshal_either :
    PaymentCompletionResponse
    → PaymentCompletionResponse
    → PaymentCompletionResponse
    → Option (List ℕ)
marshal_either p q r =
    if same_response p r then some (1 ∷ []) else if same_response q r then some (2 ∷ []) else none

abbrev pub unmarshal_either :
    PaymentCompletionResponse
    → PaymentCompletionResponse
    → List ℕ
    → Option PaymentCompletionResponse
unmarshal_either p q [] = none
unmarshal_either p q (x ∷ _) = if x == 1 then some p else some q

pub either_decodes :
    (p q r : PaymentCompletionResponse) (b : List ℕ)
    → marshal_either p q r ≡ some b
    → unmarshal_either p q b ≡ some r
either_decodes p q r [] e = ground (arith, same_response-eq p r, same_response-eq q r)
either_decodes p q r (x ∷ b) e = ground (arith, same_response-eq p r, same_response-eq q r)

abbrev pub either :
    PaymentCompletionResponse → PaymentCompletionResponse → Codec PaymentCompletionResponse
either p q = record {
  marshal = marshal_either p q;
  unmarshal = unmarshal_either p q;
  unmarshal-marshal = either_decodes p q;
}

-- The response that the terminal of these tests gives, and its encoding.
abbrev pub codec : Codec PaymentCompletionResponse
codec = only (response env waiting txn)

pub same_response_refl : (p : PaymentCompletionResponse) → same_response p p ≡ true
same_response_refl p = ground (
  arith,
  str_eq_refl p.code,
  str_eq_refl p.confirmation_code,
  str_eq_refl p.receipt_number,
  str_eq_refl p.message,
  str_eq_refl p.auth_code,
  str_eq_refl p.currency,
)

pub marshals : codec.marshal (response env waiting txn) ≡ some (1 ∷ [])
marshals =
    ap (λ b. if b then some (1 ∷ []) else none) (same_response_refl (response env waiting txn))

pub is_active : lookup "TXN-1" waiting.manager.active ≡ some txn
unfolding lookup insert
is_active = ground (arith, str_eq_refl "TXN-1")

pub is_new : find_row "TXN-1" waiting.manager.db.rows ≡ none
unfolding find_row
is_new = refl

-- A transaction settled as completed, one that failed, and the terminal with one of them.
abbrev pub sold : Row
sold = row_of (final env waiting txn)

abbrev pub lost : Row
lost = row_of (declined smooth "Payment declined by bank" txn)

abbrev pub holding : Row → Manager
holding r = record empty { db = record { rows = r ∷ []; metadata = [] } }

pub finds : (r : Row) → r.id ≡ "TXN-1" → find_row "TXN-1" (holding r).db.rows ≡ some r
unfolding find_row
finds r e = ground (arith, str_eq_iff r.id "TXN-1")

pub found : find_row "TXN-1" (holding sold).db.rows ≡ some sold
unfolding row_of
found = finds sold refl

pub completed : sold.state ≡ state_code payment_completed
unfolding row_of
completed = refl
