-- ===== src/Pos/Ledger/Receipts/Interleaving.antt =====
-- Receipt numbers while several connections use the one TransactionManager, and over a restart.
use termwire.Common.{
  ℕ, suc, ◌+◌, ◌^◌, ◌<◌, ◌≤◌, ◌≡◌, refl, sym, ap, ◌∙◌, inl, inr, String, [], some, arith,
}
use termwire.Message.Codec.{Codec}
use termwire.Message.Responses.{PaymentCompletionResponse}
use termwire.Go.Dict.{lookup}
use termwire.Pos.Db.{Row, find_row}
use termwire.Pos.Transaction.{Transaction}
use termwire.Pos.Ledger.Acts.{
  Acts, Interleaves, begins, goes_on, refunds_late, creates, updates, takes_card, selects,
  takes_points, completes, fails, caches, voids, refunds, closes_batch,
}
use termwire.Pos.Ledger.Receipts.{
  IsIssued, Holds, in_table, in_memory, IsKeyed, IsNumbered, Gains, Gains-IsNumbered,
}
use termwire.Pos.Ledger.Receipts.Memory
use termwire.Pos.Ledger.Receipts.Settling
use termwire.Pos.Ledger.Receipts.Table
use termwire.Pos.Manager.{Manager}

-- Some identifier on which a step works.
abbrev Step : Manager → Manager → Type 0
Step m m' = (id : String) × Gains id m m'

-- What holds after so many steps.
abbrev After : Manager → Manager → ℕ → Type 0
After m m' n = IsNumbered m' × (m'.receipt_counter ≤ m.receipt_counter + n)

one_more :
    (m b c : Manager) (n : ℕ)
    → m.receipt_counter + suc n < 2 ^ 64
    → After m b n
    → Step b c
    → After m c (suc n)
one_more m b c n fits (was, bound) (id, g) = (
  Gains-IsNumbered b c g (omega (arith, fits, bound, g.at_most)) was,
  omega (arith, bound, g.at_most),
)

module _ {codec : Codec PaymentCompletionResponse} where
  Acts-Step :
      {m m' : Manager} → Acts codec m m' → IsKeyed m → m.receipt_counter + 1 < 2 ^ 64 → Step m m'
  Acts-Step {m} (creates io t id amount currency) keyed fits =
      (id, Memory.create_transaction-Gains id m keyed io t amount currency)
  Acts-Step {m} (updates io id s) keyed fits =
      (id, Memory.update_transaction_state-Gains id m keyed io s)
  Acts-Step {m} (takes_card io id card) keyed fits =
      (id, Memory.set_card_data-Gains id m keyed io card)
  Acts-Step {m} (selects io id bank aid n) keyed fits =
      (id, Memory.set_bank_selection-Gains id m keyed io bank aid n)
  Acts-Step {m} (takes_points io id b points amount) keyed fits =
      (id, Memory.set_loyalty_points-Gains id m keyed io b points amount)
  Acts-Step {m} (completes io id confirmation auth) keyed fits =
      (id, Settling.complete_transaction-Gains id m keyed io confirmation auth fits)
  Acts-Step {m} (fails io id message) keyed fits =
      (id, Settling.fail_transaction-Gains id m keyed io message)
  Acts-Step {m} (caches io id resp x) keyed fits =
      ("", Table.set_cached_response-Gains io m keyed codec id resp x)
  Acts-Step {m} (voids io id) keyed fits = ("", Table.void_transaction-Gains io m keyed codec id)
  Acts-Step {m} (refunds io id amount) keyed fits =
      ("", Table.refund_transaction-Gains io m keyed codec id amount)
  Acts-Step {m} (closes_batch io) keyed fits = ("", Table.generate_z_report-Gains io m keyed)

  all_steps :
      (m : Manager) {m' : Manager} {n : ℕ}
      → Interleaves codec m m' n
      → m.receipt_counter + n < 2 ^ 64
      → IsNumbered m
      → After m m' n
  all_steps m begins fits was = (was, omega arith)
  all_steps m (goes_on {b} {c} {n} r x) fits was =
      let a : After m b n = all_steps m r (omega (arith, fits)) was in
      one_more m b c n fits a (Acts-Step x a.0.keyed (omega (arith, fits, a.1)))
  all_steps m (refunds_late io id amount {b} {c} {n} {k} r free q) fits was =
      let a : After m b n = all_steps m r (omega (arith, fits)) was in
      let a' : After b c k = all_steps b q (omega (arith, fits, a.1)) a.0 in
      one_more m c _ (n + k) fits (a'.0, omega (arith, a.1, a'.1))
        ("", Table.write_refund-Gains io c a'.0.keyed codec id)

  -- Whatever the handlers of several connections do at a time, in whatever order their steps fall, and
  -- whichever statements fail: if receipt numbers are in order before, and the counter does not reach
  -- 2 ^ 64 within the number of steps, they are in order after. In order means that each receipt
  -- number, of a settled or of an active transaction, is empty or the print of a number that the
  -- counter has reached, and that one which is not empty stands under one identifier only.
  pub Interleaves-IsNumbered :
      (m m' : Manager) (n : ℕ)
      → Interleaves codec m m' n
      → m.receipt_counter + n < 2 ^ 64
      → IsNumbered m
      → IsNumbered m'
  Interleaves-IsNumbered m m' n r fits was = (all_steps m r fits was).0

no_lookup : (k : String) (t : Transaction) → lookup k [] ≡ some t → ⊥
unfolding lookup
no_lookup k t e = cc

no_row : (k : String) (r : Row) → find_row k [] ≡ some r → ⊥
unfolding find_row
no_row k r e = cc

-- A restart on the rows of `m`, with a counter that has not gone back.
module _ (m m' : Manager) (no_active : m'.active ≡ []) where
  nothing_active : (k : String) (t : Transaction) → lookup k m'.active ≡ some t → ⊥
  nothing_active k t e = no_lookup k t (sym (ap (lookup k) no_active) ∙ e)

  module _ (rows : m'.db.rows ≡ m.db.rows) (counter : m.receipt_counter ≤ m'.receipt_counter) where
    held : (k s : String) → Holds m' k s → Holds m k s
    held k s (in_table r e q) = in_table r (sym (ap (find_row k) rows) ∙ e) q
    held k s (in_memory t e q) = absurd (nothing_active k t e)

    held-IsIssued : (k s : String) → IsNumbered m → Holds m' k s → IsIssued m'.receipt_counter s
    held-IsIssued k s was h = elim (was.issued k s (held k s h)) [
      | inl e ↦ inl e
      | inr (n, le, e) ↦ inr (n, omega (arith, le, counter), e)
    ]

    -- After a restart receipt numbers are in order if they were before, where no transaction is
    -- active, the rows are the old ones and the counter is not below the old one.
    pub restart-IsNumbered : IsNumbered m → IsNumbered m'
    restart-IsNumbered was = record {
      keyed = λ k t e. absurd (nothing_active k t e);
      issued = λ k s h. held-IsIssued k s was h;
      unique = λ j k s h h'. was.unique j k s (held j s h) (held k s h');
    }

nothing_held : (m : Manager) (k s : String) → m.active ≡ [] → m.db.rows ≡ [] → Holds m k s → ⊥
nothing_held m k s no_active no_rows (in_table r e q) =
    no_row k r (sym (ap (find_row k) no_rows) ∙ e)
nothing_held m k s no_active no_rows (in_memory t e q) = nothing_active m m no_active k t e

-- A terminal without transactions has its receipt numbers in order.
pub nothing-IsNumbered : (m : Manager) → m.active ≡ [] → m.db.rows ≡ [] → IsNumbered m
nothing-IsNumbered m no_active no_rows = record {
  keyed = λ k t e. absurd (nothing_active m m no_active k t e);
  issued = λ k s h. absurd (nothing_held m k s no_active no_rows h);
  unique = λ j k s h h'. absurd (nothing_held m j s no_active no_rows h);
}

-- Receipt numbers are in order at first: each is empty or the print of a number that the counter has
-- reached, and one which is not empty stands under one identifier only, as in a terminal without
-- transactions. Then whatever the handlers of several connections do at a time, in whatever order
-- their steps on the manager fall and whichever statements fail, and as long as the counter cannot
-- reach 2 ^ 64 within the number of steps: two rows of the database with different identifiers have
-- different receipt numbers, unless the first one's is empty.
pub Interleaves-receipts_differ :
    (codec : Codec PaymentCompletionResponse) (m m' : Manager) (n : ℕ) (j k : String) (r s : Row)
    → IsNumbered m
    → Interleaves codec m m' n
    → m.receipt_counter + n < 2 ^ 64
    → find_row j m'.db.rows ≡ some r
    → find_row k m'.db.rows ≡ some s
    → ¬ (j ≡ k)
    → ¬ (r.receipt_number ≡ "")
    → ¬ (r.receipt_number ≡ s.receipt_number)
Interleaves-receipts_differ codec m m' n j k r s was path fits f g apart given same =
    let now : IsNumbered m' = Interleaves-IsNumbered m m' n path fits was in
    elim (now.unique j k r.receipt_number (in_table r f refl) (in_table s g (sym same))) [
      | inl e ↦ given e
      | inr e ↦ apart e
    ]
