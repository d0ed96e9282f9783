-- ===== src/Pos/Manager.antt =====
-- TransactionManager of pos/transaction.go: active transactions in memory, settled ones in the
-- database. An operation under the manager's mutex is one function from state to state. The map
-- holds pointers, so that a write to a transaction is a write to the map.
pub mod Branches
pub mod Create
pub mod Restart
mod Tests
pub mod Statistics
use Prim.Native.String.{String, ◌++◌}
use termwire.Common.{
  ℕ, ◌+◌, u64, sub32, Bool, true, false, not, ltb, ◌==◌, str_eq, if◌then◌else◌, List, [], ◌∷◌, none,
  some,
}
use termwire.Go.Dict.{Dict, lookup, insert, erase}
use termwire.Common.Int.{uint32}
use termwire.Go.Fmt.{decimal, signed}
use termwire.Go.Time.{Time}
use termwire.Pos.Card.{CardData}
use termwire.Pos.Config.{Config}
use termwire.Pos.Db.{Outcome, ok, err, Io, Db, insert_completed}
use termwire.Pos.Transaction.{
  Transaction, TransactionState, card_insertion, payment_completed, failed,
}

pub record Manager : Type 0 where
  pub active : Dict Transaction
  pub receipt_counter : ℕ
  pub config : Config
  pub db : Db

abbrev pub not_found : String → String
not_found id = "transaction " ++ id ++ " not found"

abbrev pub completed_not_found : String → String
completed_not_found id = "completed transaction " ++ id ++ " not found"

-- `tm.activeTransactions[id] = txn`, and a write through a pointer that the map holds.
abbrev pub put : String → Transaction → Manager → Manager
put id txn m = record m { active = insert id txn m.active }

abbrev pub with_active :
    {A : Type 0} → String → Manager → (Transaction → Outcome A × Manager) → Outcome A × Manager
with_active id m k = elim (lookup id m.active) [ none ↦ (err (not_found id), m) | some txn ↦ k txn ]

unfoldable pub has_currency : String → List String → Bool
has_currency c [] = false
has_currency c (x ∷ xs) = if str_eq x c then true else has_currency c xs

abbrev pub fresh_transaction : Io → Time → String → ℕ → String → Transaction
fresh_transaction io created id amount currency = record {
  id = id;
  state = card_insertion;
  amount_cents = amount;
  currency = currency;
  card = none;
  selected_bank_id = 0;
  selected_aid = "";
  installment_count = 0;
  use_loyalty_points = false;
  loyalty_amount_cents = 0;
  loyalty_points_used = 0;
  card_amount_cents = 0;
  confirmation_code = "";
  receipt_number = "";
  auth_code = "";
  error_message = "";
  created_at = created;
  completed_at = none;
  last_updated = io.now;
  cached_response = none;
}

-- The clock is read once for `created` and once more for the last update.
unfoldable pub create_transaction :
    Io → Time → String → ℕ → String → Manager → Outcome Transaction × Manager
create_transaction io created id amount currency m =
    let limit = m.config.max_transaction_amount in
    elim (lookup id m.active) [
      | some _ ↦ (err ("transaction " ++ id ++ " already exists"), m)
      | none ↦
          if amount == 0
          then (err "invalid transaction amount: 0", m)
          else if ltb (uint32 limit) amount
          then (
            err ("transaction amount " ++ decimal amount ++ " exceeds maximum " ++ signed limit),
            m,
          )
          else if not (has_currency currency m.config.supported_currencies)
          then (err ("unsupported currency: " ++ currency), m)
          else let txn = fresh_transaction io created id amount currency in (ok txn, put id txn m)
    ]

unfoldable pub get_transaction : String → Manager → Outcome Transaction
get_transaction id m = elim (lookup id m.active) [ none ↦ err (not_found id) | some txn ↦ ok txn ]

unfoldable pub update_transaction_state :
    Io → String → TransactionState → Manager → Outcome (Unit {0}) × Manager
update_transaction_state io id state m =
    with_active id m λ txn. (ok tt, put id (record txn { state = state; last_updated = io.now }) m)

unfoldable pub set_card_data : Io → String → CardData → Manager → Outcome (Unit {0}) × Manager
set_card_data io id card m =
    with_active id m
      λ txn. (ok tt, put id (record txn { card = some card; last_updated = io.now }) m)

unfoldable pub set_bank_selection :
    Io → String → ℕ → String → ℕ → Manager → Outcome (Unit {0}) × Manager
set_bank_selection io id bank aid installments m = with_active id m λ txn. (
  ok tt,
  put id
      (record txn {
        selected_bank_id = bank;
        selected_aid = aid;
        installment_count = installments;
        last_updated = io.now;
      })
      m,
)

unfoldable pub set_loyalty_points :
    Io → String → Bool → ℕ → ℕ → Manager → Outcome (Unit {0}) × Manager
set_loyalty_points io id use_loyalty points amount m = with_active id m λ txn. (
  ok tt,
  put id
      (record txn {
        use_loyalty_points = use_loyalty;
        loyalty_points_used = points;
        loyalty_amount_cents = amount;
        last_updated = io.now;
      })
      m,
)

-- The transaction as CompleteTransaction leaves it before it is persisted.
abbrev pub settled : Io → String → String → ℕ → Transaction → Transaction
settled io confirmation auth counter txn = record txn {
  state = payment_completed;
  confirmation_code = confirmation;
  auth_code = auth;
  receipt_number = "RCP-" ++ decimal counter;
  completed_at = some io.now;
  last_updated = io.now;
  card_amount_cents = sub32 txn.amount_cents txn.loyalty_amount_cents;
}

-- The receipt counter's row; its statement may fail, which the code does not look at.
abbrev pub store_counter : Io → ℕ → Db → Db
store_counter io counter db = elim (io.fault 1) [
  | some _ ↦ db
  | none ↦ record db { metadata = insert "receipt_counter" (decimal counter) db.metadata }
]

unfoldable pub complete_transaction :
    Io → String → String → String → Manager → Outcome (Unit {0}) × Manager
complete_transaction io id confirmation auth m = with_active id m λ txn.
    let counter = u64 (m.receipt_counter + 1) in
    let txn' = settled io confirmation auth counter txn in
    let m' = record m { active = insert id txn' m.active; receipt_counter = counter } in
    elim (insert_completed io txn' m.db) [
      | err e ↦ (err ("persisting transaction: " ++ e), m')
      | ok db ↦ (ok tt, record m' { active = erase id m'.active; db = store_counter io counter db })
    ]

abbrev pub declined : Io → String → Transaction → Transaction
declined io message txn = record txn {
  state = failed;
  error_message = message;
  completed_at = some io.now;
  last_updated = io.now;
}

unfoldable pub fail_transaction : Io → String → String → Manager → Outcome (Unit {0}) × Manager
fail_transaction io id message m = with_active id m λ txn.
    let txn' = declined io message txn in
    elim (insert_completed io txn' m.db) [
      | err e ↦ (err ("persisting failed transaction: " ++ e), put id txn' m)
      | ok db ↦ (ok tt, record m { active = erase id m.active; db = db })
    ]
