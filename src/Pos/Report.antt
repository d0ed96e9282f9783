-- ===== src/Pos/Report.antt =====
-- The reports and statistics of pos/transaction.go. Go ranges over a map in no fixed order: the
-- totals of a report stand here in the order in which their currencies were first met.
pub mod Batch
pub mod Groups
pub mod Sums
use Prim.Native.String
use Prim.Native.String.{String, compare}
use Prim.Native.Nat.{Ordering}
use termwire.Common.{
  ℕ, ◌+◌, u32, Bool, true, false, ◌&&◌, not, leb, ltb, ◌==◌, str_eq, if◌then◌else◌, List, [], ◌∷◌,
  map, Option, none, some, take,
}
use termwire.Go.Dict.{Dict, insert}
use termwire.Go.Fmt.{last_four}
use termwire.Go.Time.{Time, format_rfc3339}
use termwire.Message.Codec.{Codec}
use termwire.Message.Responses.{
  CurrencyTotals, XReportResponse, ZReportResponse, DetailedReportResponse, TransactionEntry,
  TransactionType, sale, refund, void, credit_card, PaymentCompletionResponse,
}
use termwire.Pos.Db.{Io, Row, Db, update_rows, select_rows, scan_transaction}
use termwire.Pos.Manager.{Manager}
use termwire.Pos.Settled.{with_rows}
use termwire.Pos.Transaction.{
  Transaction, TransactionState, payment_completed, voided, refunded, state_code, state_of,
}

-- A row of `SELECT currency, state, SUM(amount_cents), COUNT(*) … GROUP BY currency, state`.
pub record Group : Type 0 where
  pub currency : String
  pub state : ℕ
  pub total : ℕ
  pub count : ℕ

unfoldable pub add_to_groups : Row → List Group → List Group
add_to_groups r [] =
    record { currency = r.currency; state = r.state; total = r.amount_cents; count = 1 } ∷ []
add_to_groups r (g ∷ gs) =
    if str_eq g.currency r.currency && g.state == r.state
    then record g { total = g.total + r.amount_cents; count = g.count + 1 } ∷ gs
    else g ∷ add_to_groups r gs

unfoldable pub group_rows : List Row → List Group → List Group
group_rows [] gs = gs
group_rows (r ∷ rows) gs = group_rows rows (add_to_groups r gs)

-- The batch that is open.
abbrev pub is_open : Row → Bool
is_open r = r.z_report_id == 0

pub record Totals : Type 0 where
  pub transaction_count : ℕ
  pub sales : Dict CurrencyTotals
  pub refunds : Dict CurrencyTotals
  pub voids : Dict CurrencyTotals

abbrev pub no_totals : Totals
no_totals = record { transaction_count = 0; sales = []; refunds = []; voids = [] }

abbrev pub currency_totals : Group → CurrencyTotals
currency_totals g = record { currency = g.currency; amount_cents = u32 g.total; count = g.count }

unfoldable pub tally_group : Totals → Group → TransactionState → Totals
tally_group t g payment_completed = record t {
  transaction_count = u32 (t.transaction_count + g.count);
  sales = insert g.currency (currency_totals g) t.sales;
}
tally_group t g refunded = record t { refunds = insert g.currency (currency_totals g) t.refunds }
tally_group t g voided = record t { voids = insert g.currency (currency_totals g) t.voids }
tally_group t g _ = t

unfoldable pub tally : List Group → Totals → Totals
tally [] t = t
tally (g ∷ gs) t = tally gs (tally_group t g (state_of g.state))

abbrev to_slice : Dict CurrencyTotals → List CurrencyTotals
to_slice d = map (λ e. e.1) d

-- The query is statement 0; if it fails the totals stay empty.
unfoldable pub batch_totals : Io → Db → Totals
batch_totals io db = elim (io.fault 0) [
  | some _ ↦ no_totals
  | none ↦ tally (group_rows (select_rows is_open db.rows) []) no_totals
]

unfoldable pub generate_report : Io → Manager → XReportResponse
generate_report io m =
    let t = batch_totals io m.db in
    record {
      code = "00";
      report_timestamp = format_rfc3339 io.now;
      transaction_count = t.transaction_count;
      sales_totals = to_slice t.sales;
      refund_totals = to_slice t.refunds;
      void_totals = to_slice t.voids;
      payment_method_totals = [];
      message = "Report generated successfully";
    }

unfoldable pub generate_x_report : Io → Manager → XReportResponse
generate_x_report io m = generate_report io m

unfoldable pub max_batch : List Row → ℕ
max_batch [] = 0
max_batch (r ∷ rows) =
    let rest = max_batch rows in if ltb rest r.z_report_id then r.z_report_id else rest

-- `UPDATE transactions SET z_report_id = ? WHERE z_report_id = 0`
abbrev pub close_batch : ℕ → List Row → List Row
close_batch n = update_rows is_open (λ r. record r { z_report_id = n })

-- Statement 1 reads the highest batch (0 if it fails), statement 2 closes the open one.
unfoldable pub generate_z_report : Io → Manager → ZReportResponse × Manager
generate_z_report io m =
    let report = generate_report io m in
    let max_id : ℕ = elim (io.fault 1) [ some _ ↦ 0 | none ↦ max_batch m.db.rows ] in
    let next_id = max_id + 1 in
    let m' : Manager = elim (io.fault 2) [
      | some _ ↦ m
      | none ↦ with_rows (close_batch next_id m.db.rows) m
    ] in
    (
      record {
        code = report.code;
        report_timestamp = report.report_timestamp;
        transaction_count = report.transaction_count;
        sales_totals = report.sales_totals;
        refund_totals = report.refund_totals;
        void_totals = report.void_totals;
        payment_method_totals = report.payment_method_totals;
        z_report_number = u32 next_id;
        message = "Z Report generated successfully";
      },
      m',
    )

-- Text columns are compared as text.
abbrev pub text_le : String → String → Bool
text_le s t = elim (compare s t) [ Ordering.gt ↦ false | _ ↦ true ]

abbrev pub in_range : Time → Time → Row → Bool
in_range from to r =
    text_le (format_rfc3339 from) r.created_at && text_le r.created_at (format_rfc3339 to)

-- `AND state != 7`
abbrev wanted : Time → Time → Bool → Row → Bool
wanted from to include_voids r =
    in_range from to r && (if include_voids then true else not (r.state == state_code voided))

abbrev limited : ℕ → List Row → List Row
limited limit rows = if ltb 0 limit then take limit rows else rows

-- A failed transaction, and one in no settled state, has no entry.
abbrev entry_type : TransactionState → Option TransactionType
entry_type payment_completed = some sale
entry_type refunded = some refund
entry_type voided = some void
entry_type _ = none

abbrev card_last_four : Transaction → String
card_last_four txn = elim (txn.card) [
  | none ↦ ""
  | some c ↦ if leb 4 (String.len c.card_number) then last_four c.card_number else ""
]

abbrev entry : Transaction → TransactionType → TransactionEntry
entry txn kind = record {
  transaction_id = txn.id;
  entry_type = kind;
  amount_cents = txn.amount_cents;
  payment_method = credit_card;
  card_last_four = card_last_four txn;
  loyalty_amount_cents = txn.loyalty_amount_cents;
  confirmation_code = txn.confirmation_code;
  receipt_number = txn.receipt_number;
  timestamp = format_rfc3339 txn.created_at;
  bank_id = txn.selected_bank_id;
  currency = txn.currency;
  installment_count = txn.installment_count;
  original_transaction_id = "";
}

unfoldable pub entries : List Transaction → List TransactionEntry
entries [] = []
entries (txn ∷ txns) =
    let rest = entries txns in
    elim (entry_type txn.state) [ none ↦ rest | some k ↦ entry txn k ∷ rest ]

module _ (codec : Codec PaymentCompletionResponse) where
  unfoldable pub generate_detailed_report :
      Io → Time → Time → ℕ → Bool → Manager → DetailedReportResponse
  generate_detailed_report io from to limit include_voids m =
      let rows = limited limit (select_rows (wanted from to include_voids) m.db.rows) in
      record {
        code = "00";
        transactions = elim (io.fault 0) [
          | some _ ↦ []
          | none ↦ entries (map (scan_transaction codec) rows)
        ];
        next_cursor = "";
        message = "Detailed report generated successfully";
      }

  unfoldable pub get_transactions_by_date_range : Io → Time → Time → Manager → List Transaction
  get_transactions_by_date_range io from to m = elim (io.fault 0) [
    | some _ ↦ []
    | none ↦ map (scan_transaction codec) (select_rows (in_range from to) m.db.rows)
  ]
