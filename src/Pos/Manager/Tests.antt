-- ===== src/Pos/Manager/Tests.antt =====
-- A restart after a payment, and the statistics of two rows.
use termwire.Go.Dict.{lookup}
use termwire.Common.{str_eq_refl, arith, ◌≡◌, refl, List, [], ◌∷◌, none, some}
use termwire.Pos.Config.{default_config}
use termwire.Pos.Db.{ok, Row, insert_completed, row_of, find_row}
use termwire.Pos.Manager.{Manager, complete_transaction, fresh_transaction, settled}
use termwire.Pos.Manager.Restart.{
  after, new_transaction_manager, new_transaction_manager-complete_transaction,
}
use termwire.Pos.Manager.Statistics.{ByState, get_statistics}
use termwire.Pos.Manager.Statistics.Sums.{get_statistics-amounts}
use termwire.Pos.Server.Samples.{env, noon, shop}
use termwire.Pos.Transaction.{Transaction}

abbrev txn : Transaction
txn = fresh_transaction (env.call 0) noon "T-1" 1500 "EUR"

abbrev paying : Manager
paying = record (shop.manager) { active = ("T-1", txn) ∷ [] }

paid : (complete_transaction (env.call 0) "T-1" "CONF-1" "AUTH-1" paying).0 ≡ ok tt
unfolding complete_transaction insert_completed lookup find_row
paid = ground (arith, str_eq_refl "T-1")

new_transaction_manager-complete_transaction_example :
    let m = after (env.call 0) "T-1" "CONF-1" "AUTH-1" paying in
    new_transaction_manager (λ k. none) default_config m.db
    ≡ ok (record {
      active = [];
      receipt_counter = m.receipt_counter;
      config = default_config;
      db = m.db;
    })
new_transaction_manager-complete_transaction_example =
    new_transaction_manager-complete_transaction (env.call 0) "T-1" "CONF-1" "AUTH-1" paying
      default_config (λ k. none) paid refl (λ k. refl)

abbrev rows : List Row
rows =
    row_of (settled (env.call 0) "CONF-1" "AUTH-1" 1001 txn)
    ∷ row_of (settled (env.call 0) "CONF-2" "AUTH-2" 1002 (record txn { id = "T-2" }))
    ∷ []

abbrev busy : Manager
busy = record paying { db = record { rows = rows; metadata = [] } }

get_statistics-amounts_example :
    let s = get_statistics none none busy in
    (s.active_count ≡ 1)
    × (s.completed_count ≡ 2)
    × (b : ByState) × (s.by_state ≡ some b)
    × (b.total_amount_cents ≡ 3000)
    × (b.completed_amount_cents ≡ 3000)
    × (b.refunded_amount_cents ≡ 0)
unfolding row_of
get_statistics-amounts_example = get_statistics-amounts busy
