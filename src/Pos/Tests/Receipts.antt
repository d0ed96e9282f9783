-- ===== src/Pos/Tests/Receipts.antt =====
-- Receipt numbers and interleaved steps at concrete states.
use termwire.Common.{◌≡◌, refl, String, none, some, arith, str_eq, str_eq→ne}
use termwire.Pos.Db.{Row, row_of, find_row, add_row, insert_completed, update_rows}
use termwire.Pos.Ledger.Acts.{Interleaves, begins, goes_on, refunds_late, creates, completes, voids}
use termwire.Pos.Ledger.{EvolvesBy}
use termwire.Pos.Ledger.Interleaved.{Shift, Interleaves-EvolvesBy}
use termwire.Pos.Ledger.Receipts.Interleaving.{nothing-IsNumbered, Interleaves-receipts_differ}
use termwire.Pos.Manager.{
  Manager, create_transaction, complete_transaction, settled, fresh_transaction, has_currency,
}
use termwire.Pos.Samples.{holding, sold, found, noon, smooth, empty, codec}
use termwire.Pos.Transaction.{refunded}
use termwire.Pos.Settled.{
  void_transaction, write_refund, refund_refusal, restate, get_completed_transaction_by_id,
}
use termwire.Go.Dict.{lookup, insert, erase}
use termwire.Go.Fmt.{decimal, digits}

-- Two payments, both opened before one is settled, and a refund's second statement between.
abbrev opened : Manager
opened =
    (create_transaction smooth noon "TXN-2" 900 "USD"
      (create_transaction smooth noon "TXN-1" 1500 "EUR" empty).1).1

abbrev one_paid : Manager
one_paid = (complete_transaction smooth "TXN-2" "CONF-1" "AUTH-000001" opened).1

abbrev both_paid : Manager
both_paid =
    (write_refund codec smooth "TXN-2"
      (complete_transaction smooth "TXN-1" "CONF-2" "AUTH-000002" one_paid).1).1

passes : refund_refusal codec smooth "TXN-2" 100 one_paid ≡ none
unfolding find_row add_row insert_completed complete_transaction create_transaction has_currency
    lookup insert erase str_eq row_of
passes = refl

path : Interleaves codec empty both_paid 5
path =
    refunds_late smooth "TXN-2" 100
      (goes_on
        (goes_on (goes_on begins (creates smooth noon "TXN-1" 1500 "EUR"))
          (creates smooth noon "TXN-2" 900 "USD"))
        (completes smooth "TXN-2" "CONF-1" "AUTH-000001"))
      passes (goes_on begins (completes smooth "TXN-1" "CONF-2" "AUTH-000002"))

abbrev first_row : Row
first_row =
    row_of
      (settled smooth "CONF-2" "AUTH-000002" 9 (fresh_transaction smooth noon "TXN-1" 1500 "EUR"))

abbrev second_row : Row
second_row = restate refunded noon (
    row_of
      (settled smooth "CONF-1" "AUTH-000001" 8 (fresh_transaction smooth noon "TXN-2" 900 "USD")))

first_found : find_row "TXN-1" both_paid.db.rows ≡ some first_row
unfolding find_row add_row insert_completed complete_transaction create_transaction has_currency
    lookup insert erase str_eq row_of update_rows get_completed_transaction_by_id
first_found = refl

second_found : find_row "TXN-2" both_paid.db.rows ≡ some second_row
unfolding find_row add_row insert_completed complete_transaction create_transaction has_currency
    lookup insert erase str_eq row_of update_rows get_completed_transaction_by_id
second_found = refl

has_receipt : ¬ (first_row.receipt_number ≡ "")
unfolding row_of decimal digits str_eq
has_receipt = str_eq→ne "RCP-9" "" refl

keys_differ : ¬ ◌≡◌ {A = String} "TXN-1" "TXN-2"
unfolding str_eq
keys_differ = str_eq→ne "TXN-1" "TXN-2" refl

Interleaves-receipts_differ_example : ¬ (first_row.receipt_number ≡ second_row.receipt_number)
Interleaves-receipts_differ_example =
    Interleaves-receipts_differ codec empty both_paid 5 "TXN-1" "TXN-2" first_row second_row
      (nothing-IsNumbered empty refl refl) path (omega arith) first_found second_found keys_differ
      has_receipt

-- The refund of a sold transaction, with another connection's void between its statements.
abbrev raced : Manager
raced =
    (write_refund codec smooth "TXN-1" (void_transaction codec smooth "TXN-1" (holding sold)).1).1

free : refund_refusal codec smooth "TXN-1" 100 (holding sold) ≡ none
unfolding find_row row_of str_eq
free = refl

voided_between : Interleaves codec (holding sold) raced 2
voided_between = refunds_late smooth "TXN-1" 100 begins free (goes_on begins (voids smooth "TXN-1"))

Interleaves-EvolvesBy_example :
    (s : Row) × (find_row "TXN-1" raced.db.rows ≡ some s) × EvolvesBy Shift sold s
Interleaves-EvolvesBy_example =
    Interleaves-EvolvesBy (holding sold) raced 2 "TXN-1" sold voided_between found
