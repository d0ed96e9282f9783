-- ===== src/Pos/Settled/Rows.antt =====
-- Which rows the statements of VoidTransaction and RefundTransaction look for.
use termwire.Common.{
  ℕ, ◌≡◌, refl, Bool, false, ◌&&◌, ◌==◌, String, str_eq, if◌then◌else◌, List, [], ◌∷◌, some, inl,
  inr, arith, Option-cases, length,
}
use termwire.Message.Codec.{Codec}
use termwire.Message.Responses.{PaymentCompletionResponse}
use termwire.Pos.Db.{err, Io, Row, find_row, update_rows, select_rows}
use termwire.Pos.Manager.{Manager, completed_not_found}
use termwire.Pos.Settled.{refund_transaction}
use termwire.Pos.Transaction.{state_code, payment_completed}

abbrev pub is_completed : String → Row → Bool
is_completed id r = str_eq r.id id && r.state == state_code payment_completed

-- A row that the statement looks for is among those that it affects.
pub select_rows-found :
    (id : String) (rows : List Row) (r : Row)
    → find_row id rows ≡ some r
    → r.state ≡ state_code payment_completed
    → (length (select_rows (is_completed id) rows) == 0) ≡ false
unfolding find_row select_rows
select_rows-found id [] r h s = cc
select_rows-found id (x ∷ rows) r h s = ground (arith, select_rows-found id rows r)

-- A test that fails on every row that an update leaves holds of none of them.
pub select_rows-update_rows :
    (test hit : Row → Bool) (change : Row → Row) (rows : List Row)
    → ((r : Row) → test (if hit r then change r else r) ≡ false)
    → select_rows test (update_rows hit change rows) ≡ []
unfolding select_rows update_rows
select_rows-update_rows test hit change [] h = refl
select_rows-update_rows test hit change (r ∷ rows) h =
    ground (arith, h r, select_rows-update_rows test hit change rows h)

-- RefundTransaction takes nothing but a completed transaction.
pub refund_refused :
    (codec : Codec PaymentCompletionResponse) (io : Io) (id : String) (m : Manager) (amount : ℕ)
    → ((r : Row) → find_row id m.db.rows ≡ some r → ¬ (r.state ≡ state_code payment_completed))
    → refund_transaction codec io id amount m ≡ (err (completed_not_found id), m)
unfolding refund_transaction
refund_refused codec io id m amount none_completed = elim (Option-cases (find_row id m.db.rows)) [
  | inl e ↦ ground arith
  | inr (r, e) ↦ ground (arith, none_completed r e)
]
