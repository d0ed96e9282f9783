-- ===== src/Pos/Db.antt =====
-- The SQLite database of pos/db.go and the statements of pos/transaction.go over it. The rows
-- stand in the order of their insertion. The engine is not in the repository: that a statement may
-- fail, and with which text, is an argument of each operation, and a failed statement changes
-- nothing. Text is compared byte by byte, as SQLite's BINARY collation does.
pub mod Laws
use Prim.Native.String
use Prim.Native.String.{String, ◌++◌}
use termwire.Common.{
  ℕ, Bool, true, false, ◌==◌, leb, str_eq, if◌then◌else◌, List, [], ◌∷◌, Option, none, some,
}
pub use termwire.Go.Outcome.{Outcome, ok, err}
use termwire.Go.Dict.{Dict}
use termwire.Go.Time.{Time, zero_time, format_rfc3339, parse_rfc3339}
use termwire.Go.Fmt.{last_four}
use termwire.Message.Codec.{Codec}
use termwire.Message.Responses.{PaymentCompletionResponse}
use termwire.Pos.Transaction.{Transaction, state_code, state_of}

-- What an operation takes from outside: the reading of the clock, and for each of its statements
-- whether it fails, with the text of the error.
pub record Io : Type 0 where
  pub now : Time
  pub fault : ℕ → Option String
  pub unique_error : String

-- The columns of the table `transactions`; NULL in `cached_response` is the empty blob.
pub record Row : Type 0 where
  pub id : String
  pub state : ℕ
  pub amount_cents : ℕ
  pub currency : String
  pub card_holder_name : String
  pub card_last_four : String
  pub card_has_loyalty : ℕ
  pub card_loyalty_points : ℕ
  pub selected_bank_id : ℕ
  pub selected_aid : String
  pub installments : ℕ
  pub use_loyalty_points : ℕ
  pub loyalty_points_used : ℕ
  pub loyalty_amount_cents : ℕ
  pub card_amount_cents : ℕ
  pub confirmation_code : String
  pub receipt_number : String
  pub auth_code : String
  pub error_message : String
  pub created_at : String
  pub completed_at : String
  pub last_updated : String
  pub cached_response : List ℕ
  pub z_report_id : ℕ

-- The two tables; `metadata` maps keys to values.
pub record Db : Type 0 where
  pub rows : List Row
  pub metadata : Dict String

abbrev pub as_int : Bool → ℕ
as_int true = 1
as_int false = 0

-- `SELECT … WHERE id = ?`, at most one row since `id` is the primary key.
unfoldable pub find_row : String → List Row → Option Row
find_row k [] = none
find_row k (r ∷ rows) = if str_eq r.id k then some r else find_row k rows

-- `UPDATE … WHERE`: the rows that pass the test are changed.
unfoldable pub update_rows : (Row → Bool) → (Row → Row) → List Row → List Row
update_rows test change [] = []
update_rows test change (r ∷ rows) = (if test r then change r else r) ∷ update_rows test change rows

-- The rows that a statement affects or selects.
unfoldable pub select_rows : (Row → Bool) → List Row → List Row
select_rows test [] = []
select_rows test (r ∷ rows) = let rest = select_rows test rows in if test r then r ∷ rest else rest

unfoldable pub add_row : Row → List Row → List Row
add_row r [] = r ∷ []
add_row r (s ∷ rows) = s ∷ add_row r rows

-- The values that insertCompleted writes; the columns it leaves out have their defaults.
unfoldable pub row_of : Transaction → Row
row_of txn = record {
  id = txn.id;
  state = state_code txn.state;
  amount_cents = txn.amount_cents;
  currency = txn.currency;
  card_holder_name = elim (txn.card) [ none ↦ "" | some c ↦ c.holder_name ];
  card_last_four = elim (txn.card) [
    | none ↦ ""
    | some c ↦ if leb 4 (String.len c.card_number) then last_four c.card_number else ""
  ];
  card_has_loyalty = elim (txn.card) [ none ↦ 0 | some c ↦ as_int c.has_loyalty_card ];
  card_loyalty_points = elim (txn.card) [ none ↦ 0 | some c ↦ c.loyalty_points ];
  selected_bank_id = txn.selected_bank_id;
  selected_aid = txn.selected_aid;
  installments = txn.installment_count;
  use_loyalty_points = as_int txn.use_loyalty_points;
  loyalty_points_used = txn.loyalty_points_used;
  loyalty_amount_cents = txn.loyalty_amount_cents;
  card_amount_cents = txn.card_amount_cents;
  confirmation_code = txn.confirmation_code;
  receipt_number = txn.receipt_number;
  auth_code = txn.auth_code;
  error_message = txn.error_message;
  created_at = format_rfc3339 txn.created_at;
  completed_at = elim (txn.completed_at) [ none ↦ "" | some t ↦ format_rfc3339 t ];
  last_updated = format_rfc3339 txn.last_updated;
  cached_response = [];
  z_report_id = 0;
}

-- The insertion fails on an identifier that the table holds.
unfoldable pub insert_completed : Io → Transaction → Db → Outcome Db
insert_completed io txn db = elim (io.fault 0) [
  | some e ↦ err e
  | none ↦ elim (find_row txn.id db.rows) [
    | some _ ↦ err io.unique_error
    | none ↦ ok (record db { rows = add_row (row_of txn) db.rows })
  ]
]

abbrev pub time_or_zero : String → Time
time_or_zero s = elim (parse_rfc3339 s) [ some t ↦ t | none ↦ zero_time ]

abbrev parse_completed : String → Option Time
parse_completed s = if str_eq s "" then none else parse_rfc3339 s

abbrev decode_cached : Codec PaymentCompletionResponse → List ℕ → Option PaymentCompletionResponse
decode_cached codec [] = none
decode_cached codec (b ∷ blob) = codec.unmarshal (b ∷ blob)

-- The transaction that scanTransaction rebuilds from the columns that it selects.
unfoldable pub scan_transaction : Codec PaymentCompletionResponse → Row → Transaction
scan_transaction codec r = record {
  id = r.id;
  state = state_of r.state;
  amount_cents = r.amount_cents;
  currency = r.currency;
  card = some (record {
    card_number = r.card_last_four;
    masked_number = "";
    holder_name = r.card_holder_name;
    expiry_date = "";
    cvv = "";
    available_banks = [];
    has_loyalty_card = if r.card_has_loyalty == 0 then false else true;
    loyalty_points = r.card_loyalty_points;
    points_value_cents = 0;
  });
  selected_bank_id = r.selected_bank_id;
  selected_aid = r.selected_aid;
  installment_count = r.installments;
  use_loyalty_points = if r.use_loyalty_points == 0 then false else true;
  loyalty_amount_cents = r.loyalty_amount_cents;
  loyalty_points_used = r.loyalty_points_used;
  card_amount_cents = r.card_amount_cents;
  confirmation_code = r.confirmation_code;
  receipt_number = r.receipt_number;
  auth_code = r.auth_code;
  error_message = r.error_message;
  created_at = time_or_zero r.created_at;
  completed_at = parse_completed r.completed_at;
  last_updated = time_or_zero r.last_updated;
  cached_response = decode_cached codec r.cached_response;
}
