-- ===== src/Pos/Report/Batch.antt =====
-- The Z report closes the batch that the X report shows.
use termwire.Common.{
  ℕ, ◌+◌, ◌<◌, ◌≤◌, ◌≡◌, ◌==◌, refl, u32, String, List, [], ◌∷◌, none, some, arith, if◌then◌else◌,
}
use termwire.Pos.Db.{Io, Db, Row, find_row, select_rows}
use termwire.Pos.Manager.{Manager}
use termwire.Pos.Report.{
  group_rows, tally, generate_report, generate_x_report, generate_z_report, max_batch, close_batch,
  is_open, batch_totals, no_totals,
}
use termwire.Pos.Settled.{with_rows}
use termwire.Pos.Db.Laws.{find_row-update_rows}
use termwire.Pos.Settled.Rows.{select_rows-update_rows}

closed : (n : ℕ) (rows : List Row) → select_rows is_open (close_batch (n + 1) rows) ≡ []
closed n rows =
    select_rows-update_rows is_open is_open (λ r. record r { z_report_id = n + 1 }) rows
      (λ r. ground arith)

closed_totals :
    (io : Io) (n : ℕ) (db : Db)
    → batch_totals io (record db { rows = close_batch (n + 1) db.rows }) ≡ no_totals
unfolding batch_totals group_rows tally
closed_totals io n db = ground (arith, closed n db.rows)

abbrev last_batch : Io → Manager → ℕ
last_batch io m = elim (io.fault 1) [ some _ ↦ 0 | none ↦ max_batch m.db.rows ]

closes_batch :
    (io : Io) (m : Manager)
    → io.fault 2 ≡ none
    → (generate_z_report io m).1 ≡ with_rows (close_batch (last_batch io m + 1) m.db.rows) m
unfolding generate_z_report
closes_batch io m f = ground arith

-- After a Z report whose update does not fail the open batch is empty: the next X report counts no
-- transaction and has no totals, whether its own query fails or not.
pub generate_x_report-generate_z_report :
    (io io' : Io) (m : Manager)
    → io.fault 2 ≡ none
    → let report = generate_x_report io' (generate_z_report io m).1 in
      (report.transaction_count ≡ 0)
      × (report.sales_totals ≡ [])
      × (report.refund_totals ≡ [])
      × (report.void_totals ≡ [])
unfolding generate_x_report generate_report
generate_x_report-generate_z_report io io' m f =
    rw (closes_batch io m f)
      (rw (closed_totals io' (last_batch io m) m.db) (refl, refl, refl, refl))

max_batch-bound :
    (k : String) (rows : List Row) (r : Row)
    → find_row k rows ≡ some r
    → r.z_report_id ≤ max_batch rows
unfolding max_batch find_row
max_batch-bound k [] r h = cc
max_batch-bound k (x ∷ rows) r h = ground (arith, max_batch-bound k rows r)

-- A Z report whose query for the last batch and whose update do not fail gives a transaction of the
-- open batch a number above that of every transaction in the database, keeps the row of a
-- transaction of a closed batch as it is, and prints that number modulo 2 ^ 32, with the totals
-- that an X report gives at that time.
pub generate_z_report_number :
    (io : Io) (m : Manager) (k : String) (r : Row)
    → io.fault 1 ≡ none
    → io.fault 2 ≡ none
    → find_row k m.db.rows ≡ some r
    → let (report, m') = generate_z_report io m in
      let n = max_batch m.db.rows + 1 in
      (find_row k m'.db.rows
        ≡ some (if r.z_report_id == 0 then record r { z_report_id = n } else r))
      × (r.z_report_id < n)
      × (report.z_report_number ≡ u32 n)
      × (report.sales_totals ≡ (generate_x_report io m).sales_totals)
      × (report.refund_totals ≡ (generate_x_report io m).refund_totals)
      × (report.void_totals ≡ (generate_x_report io m).void_totals)
unfolding generate_z_report generate_x_report
generate_z_report_number io m k r e f h = (
  ground (
    arith,
    find_row-update_rows is_open (λ q. record q { z_report_id = max_batch m.db.rows + 1 }) m.db.rows
        k (λ q. refl),
  ),
  ground (arith, max_batch-bound k m.db.rows r h),
  ground arith,
  refl,
  refl,
  refl,
)
