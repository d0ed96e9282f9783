-- ===== src/Pos/Ledger.antt =====
-- How the settled transactions may change: the database is a ledger, in which a row stays for ever
-- and only its state, its batch and its cached response are written again.
pub mod Operations
pub mod Statements
pub mod Acts
pub mod Receipts
pub mod Interleaved
pub mod Payments
pub mod Handlers
pub mod Reach
use mathlib.Core.Option
use termwire.Common.{
  ℕ, ◌<◌, ◌≡◌, refl, ap, ◌∙◌, sym, Bool, true, false, String, if◌then◌else◌, List, some, arith,
}
use termwire.Pos.Db.{Row, find_row, add_row, update_rows}
use termwire.Pos.Db.Laws.{find_row-add_row_old, find_row-update_rows}
use termwire.Pos.Transaction.{state_code, payment_completed, voided, refunded}

-- A state stays, or goes from completed to voided or to refunded.
pub data StateStep (a b : ℕ) : Type 0 where
  stays : a ≡ b → StateStep a b
  is_voided : a ≡ state_code payment_completed → b ≡ state_code voided → StateStep a b
  is_refunded : a ≡ state_code payment_completed → b ≡ state_code refunded → StateStep a b

-- A batch number stays, or is given to a row that has none.
pub data BatchStep (a b : ℕ) : Type 0 where
  same_batch : a ≡ b → BatchStep a b
  closes : a ≡ 0 → 0 < b → BatchStep a b

-- A row that keeps what a payment is, and whose state and batch change by a step.
pub record EvolvesBy (Step : ℕ → ℕ → Type 0) (r s : Row) : Type 0 where
  pub same_id : s.id ≡ r.id
  pub same_amount : s.amount_cents ≡ r.amount_cents
  pub same_currency : s.currency ≡ r.currency
  pub same_loyalty : s.loyalty_amount_cents ≡ r.loyalty_amount_cents
  pub same_points : s.loyalty_points_used ≡ r.loyalty_points_used
  pub same_card_amount : s.card_amount_cents ≡ r.card_amount_cents
  pub same_confirmation : s.confirmation_code ≡ r.confirmation_code
  pub same_receipt : s.receipt_number ≡ r.receipt_number
  pub same_auth : s.auth_code ≡ r.auth_code
  pub same_created : s.created_at ≡ r.created_at
  pub state_step : Step r.state s.state
  pub batch_step : BatchStep r.z_report_id s.z_report_id

abbrev pub Evolves : Row → Row → Type 0
Evolves = EvolvesBy StateStep

StateStep-trans : (a b c : ℕ) → StateStep a b → StateStep b c → StateStep a c
StateStep-trans a b c (stays p) (stays q) = stays (p ∙ q)
StateStep-trans a b c (stays p) (is_voided q e) = is_voided (p ∙ q) e
StateStep-trans a b c (stays p) (is_refunded q e) = is_refunded (p ∙ q) e
StateStep-trans a b c (is_voided p e) (stays q) = is_voided p (sym q ∙ e)
StateStep-trans a b c (is_voided p e) (is_voided q f) = absurd (omega arith)
StateStep-trans a b c (is_voided p e) (is_refunded q f) = absurd (omega arith)
StateStep-trans a b c (is_refunded p e) (stays q) = is_refunded p (sym q ∙ e)
StateStep-trans a b c (is_refunded p e) (is_voided q f) = absurd (omega arith)
StateStep-trans a b c (is_refunded p e) (is_refunded q f) = absurd (omega arith)

BatchStep-trans : (a b c : ℕ) → BatchStep a b → BatchStep b c → BatchStep a c
BatchStep-trans a b c (same_batch p) (same_batch q) = same_batch (p ∙ q)
BatchStep-trans a b c (same_batch p) (closes q h) = closes (p ∙ q) h
BatchStep-trans a b c (closes p h) (same_batch q) = closes p (omega arith)
BatchStep-trans a b c (closes p h) (closes q k) = absurd (omega arith)

pub Evolves-refl : (r : Row) → Evolves r r
Evolves-refl r = record {
  same_id = refl;
  same_amount = refl;
  same_currency = refl;
  same_loyalty = refl;
  same_points = refl;
  same_card_amount = refl;
  same_confirmation = refl;
  same_receipt = refl;
  same_auth = refl;
  same_created = refl;
  state_step = stays refl;
  batch_step = same_batch refl;
}

module _ (Step : ℕ → ℕ → Type 0) (step_trans : (a b c : ℕ) → Step a b → Step b c → Step a c) where
  pub EvolvesBy-trans : (r s t : Row) → EvolvesBy Step r s → EvolvesBy Step s t → EvolvesBy Step r t
  EvolvesBy-trans r s t p q = record {
    same_id = q.same_id ∙ p.same_id;
    same_amount = q.same_amount ∙ p.same_amount;
    same_currency = q.same_currency ∙ p.same_currency;
    same_loyalty = q.same_loyalty ∙ p.same_loyalty;
    same_points = q.same_points ∙ p.same_points;
    same_card_amount = q.same_card_amount ∙ p.same_card_amount;
    same_confirmation = q.same_confirmation ∙ p.same_confirmation;
    same_receipt = q.same_receipt ∙ p.same_receipt;
    same_auth = q.same_auth ∙ p.same_auth;
    same_created = q.same_created ∙ p.same_created;
    state_step = step_trans r.state s.state t.state p.state_step q.state_step;
    batch_step =
        BatchStep-trans r.z_report_id s.z_report_id t.z_report_id p.batch_step q.batch_step;
  }

pub Evolves-trans : (r s t : Row) → Evolves r s → Evolves s t → Evolves r t
Evolves-trans = EvolvesBy-trans StateStep StateStep-trans

-- The columns that the program writes again.
pub Evolves-change :
    (r : Row) (state : ℕ) (updated : String) (blob : List ℕ) (batch : ℕ)
    → StateStep r.state state
    → BatchStep r.z_report_id batch
    → Evolves r (record r {
      state = state;
      last_updated = updated;
      cached_response = blob;
      z_report_id = batch;
    })
Evolves-change r state updated blob batch p q = record {
  same_id = refl;
  same_amount = refl;
  same_currency = refl;
  same_loyalty = refl;
  same_points = refl;
  same_card_amount = refl;
  same_confirmation = refl;
  same_receipt = refl;
  same_auth = refl;
  same_created = refl;
  state_step = p;
  batch_step = q;
}

-- Every identifier of the first table is in the second, and its row has evolved.
abbrev pub Grows : List Row → List Row → Type 0
Grows rows rows' =
    (k : String) (r : Row)
    → find_row k rows ≡ some r
    → (s : Row) × (find_row k rows' ≡ some s) × Evolves r s

pub Grows-refl : (rows : List Row) → Grows rows rows
Grows-refl rows k r h = (r, h, Evolves-refl r)

pub Grows-trans : (a b c : List Row) → Grows a b → Grows b c → Grows a c
Grows-trans a b c p q k r h =
    let (s, hs, e) = p k r h in let (t, ht, f) = q k s hs in (t, ht, Evolves-trans r s t e f)

pub Grows-add_row : (s : Row) (rows : List Row) → Grows rows (add_row s rows)
Grows-add_row s rows k r h = (r, find_row-add_row_old s rows k r h, Evolves-refl r)

pub Grows-update_rows :
    (test : Row → Bool) (change : Row → Row) (rows : List Row)
    → ((r : Row) → (change r).id ≡ r.id)
    → ((k : String) (r : Row) → find_row k rows ≡ some r → test r ≡ true → Evolves r (change r))
    → Grows rows (update_rows test change rows)
Grows-update_rows test change rows keeps evolves k r h = (
  if test r then change r else r,
  find_row-update_rows test change rows k keeps
      ∙ ap (Option.map (λ x. if test x then change x else x)) h,
  pick (test r) (evolves k r h),
)
  where
    pick : (b : Bool) → (b ≡ true → Evolves r (change r)) → Evolves r (if b then change r else r)
    pick true e = e refl
    pick false e = Evolves-refl r
