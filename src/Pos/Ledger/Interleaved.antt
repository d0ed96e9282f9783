-- ===== src/Pos/Ledger/Interleaved.antt =====
-- The ledger while the handlers of several connections interleave, down to the two statements of a refund.
use termwire.Common.{
  ℕ, ◌≡◌, refl, sym, ◌∙◌, subst, if◌then◌else◌, inl, inr, String, str_eq, str_eq_iff, none, some,
  arith, Bool-cases, Option-cases,
}
use termwire.Message.Codec.{Codec}
use termwire.Message.Responses.{PaymentCompletionResponse}
use termwire.Pos.Db.{Io, Row, find_row}
use termwire.Pos.Db.Laws.{find_row-update_rows, find_row-id}
use termwire.Pos.Ledger.{
  StateStep, stays, is_voided, is_refunded, same_batch, EvolvesBy, EvolvesBy-trans, Evolves,
  Evolves-refl,
}
use termwire.Pos.Ledger.Acts.{Acts-Extends, Interleaves, begins, goes_on, refunds_late}
use termwire.Pos.Manager.{Manager}
use termwire.Pos.Settled.{refund_refusal, write_refund, restate}
use termwire.Pos.Transaction.{state_code, payment_completed, voided, refunded}

-- A state stays, or a transaction that was settled as completed goes to voided or to refunded, or from
-- voided on to refunded.
pub data Shift (a b : ℕ) : Type 0 where
  keeps : a ≡ b → Shift a b
  voids : a ≡ state_code payment_completed → b ≡ state_code voided → Shift a b
  refunds : a ≡ state_code payment_completed → b ≡ state_code refunded → Shift a b
  refunds_voided : a ≡ state_code voided → b ≡ state_code refunded → Shift a b

Shift-trans : (a b c : ℕ) → Shift a b → Shift b c → Shift a c
Shift-trans a b c (keeps p) q = subst (λ x. Shift x c) (sym p) q
Shift-trans a b c (voids p e) (keeps q) = voids p (sym q ∙ e)
Shift-trans a b c (voids p e) (voids q f) = absurd (omega arith)
Shift-trans a b c (voids p e) (refunds q f) = refunds p f
Shift-trans a b c (voids p e) (refunds_voided q f) = refunds p f
Shift-trans a b c (refunds p e) (keeps q) = refunds p (sym q ∙ e)
Shift-trans a b c (refunds p e) (voids q f) = absurd (omega arith)
Shift-trans a b c (refunds p e) (refunds q f) = absurd (omega arith)
Shift-trans a b c (refunds p e) (refunds_voided q f) = absurd (omega arith)
Shift-trans a b c (refunds_voided p e) (keeps q) = refunds_voided p (sym q ∙ e)
Shift-trans a b c (refunds_voided p e) (voids q f) = absurd (omega arith)
Shift-trans a b c (refunds_voided p e) (refunds q f) = absurd (omega arith)
Shift-trans a b c (refunds_voided p e) (refunds_voided q f) = absurd (omega arith)

StateStep-Shift : (a b : ℕ) → StateStep a b → Shift a b
StateStep-Shift a b (stays e) = keeps e
StateStep-Shift a b (is_voided e f) = voids e f
StateStep-Shift a b (is_refunded e f) = refunds e f

Evolves-Shift : (r s : Row) → Evolves r s → EvolvesBy Shift r s
Evolves-Shift r s e = record {
  same_id = e.same_id;
  same_amount = e.same_amount;
  same_currency = e.same_currency;
  same_loyalty = e.same_loyalty;
  same_points = e.same_points;
  same_card_amount = e.same_card_amount;
  same_confirmation = e.same_confirmation;
  same_receipt = e.same_receipt;
  same_auth = e.same_auth;
  same_created = e.same_created;
  state_step = StateStep-Shift r.state s.state e.state_step;
  batch_step = e.batch_step;
}

-- A row whose state is written, which was completed when the refund's first statement read it.
refunded_late :
    (r s : Row) (updated : String)
    → r.state ≡ state_code payment_completed
    → EvolvesBy Shift r s
    → EvolvesBy Shift s (record s { state = state_code refunded; last_updated = updated })
refunded_late r s updated completed e = record {
  same_id = refl;
  same_amount = refl;
  same_currency = refl;
  same_loyalty = refl;
  same_points = refl;
  same_card_amount = refl;
  same_confirmation = refl;
  same_receipt = refl;
  same_auth = refl;
  same_created = refl;
  state_step = late (e.state_step);
  batch_step = same_batch refl;
}
  where
    late : Shift r.state s.state → Shift s.state (state_code refunded)
    late (keeps p) = refunds (sym p ∙ completed) refl
    late (voids p q) = refunds_voided q refl
    late (refunds p q) = keeps q
    late (refunds_voided p q) = keeps q

abbrev Held : Manager → Manager → Type 0
Held m m' =
    (k : String) (r : Row)
    → find_row k m.db.rows ≡ some r
    → (s : Row) × (find_row k m'.db.rows ≡ some s) × EvolvesBy Shift r s

Held-trans : (a b c : Manager) → Held a b → Held b c → Held a c
Held-trans a b c p q k r h =
    let (s, hs, e) = p k r h in
    let (t, ht, f) = q k s hs in (t, ht, EvolvesBy-trans Shift Shift-trans r s t e f)

Held-refl : (m : Manager) → Held m m
Held-refl m k r h = (r, h, Evolves-Shift r r (Evolves-refl r))

module _ (codec : Codec PaymentCompletionResponse) (io : Io) (id : String) where
  -- The first statement of a refund has found a completed transaction.
  refusal_none :
      (amount : ℕ) (b : Manager)
      → refund_refusal codec io id amount b ≡ none
      → (r : Row) × (find_row id b.db.rows ≡ some r) × (r.state ≡ state_code payment_completed)
  refusal_none amount b free = elim (Option-cases (io.fault 0)) [
    | inr (x, f) ↦ absurd (ground arith)
    | inl f ↦ elim (Option-cases (find_row id b.db.rows)) [
      | inl e ↦ absurd (ground arith)
      | inr (r, e) ↦ (r, e, ground arith)
    ]
  ]

  module _ (c : Manager) (s : Row) (found : find_row id c.db.rows ≡ some s)
      (late : EvolvesBy Shift s (restate refunded io.now s)) where
    abbrev rewritten : Row → Row
    rewritten r = if str_eq r.id id then restate refunded io.now r else r

    shifts :
        (k : String) (r : Row) → find_row k c.db.rows ≡ some r → EvolvesBy Shift r (rewritten r)
    shifts k r h = elim (Bool-cases (str_eq r.id id)) [
      | inr e ↦ rw e (Evolves-Shift r r (Evolves-refl r))
      | inl e ↦
          let key : k ≡ id = sym (find_row-id k c.db.rows r h) ∙ (str_eq_iff r.id id).0 e in
          let same : s ≡ r = cc in
          rw e (subst (λ (x : Row). EvolvesBy Shift x (restate refunded io.now x)) same late)
    ]

    write_refund-Held : Held c (write_refund codec io id c).1
    write_refund-Held k r h = elim (Option-cases (io.fault 1)) [
      | inr (x, f) ↦ (r, ground arith, Evolves-Shift r r (Evolves-refl r))
      | inl f ↦ (
        rewritten r,
        ground (
          arith,
          find_row-update_rows (λ q. str_eq q.id id) (restate refunded io.now) c.db.rows k
              (λ q. refl),
        ),
        shifts k r h,
      )
    ]

module _ {codec : Codec PaymentCompletionResponse} where
  Interleaves-Held : {m m' : Manager} {n : ℕ} → Interleaves codec m m' n → Held m m'
  Interleaves-Held {m} begins = Held-refl m
  Interleaves-Held (goes_on {m} {b} {c} r x) =
      Held-trans m b c (Interleaves-Held r)
        (λ k q h. let (s, hs, e) = (Acts-Extends x).grows k q h in (s, hs, Evolves-Shift q s e))
  Interleaves-Held (refunds_late io id amount {m} {b} {c} p free q) =
      let (r, found, completed) = refusal_none codec io id amount b free in
      let (s, kept, e) = Interleaves-Held q id r found in
      let c' : Manager = (write_refund codec io id c).1 in
      let last : Held c c' =
        write_refund-Held codec io id c s kept (refunded_late r s _ completed e) in
      Held-trans m b c' (Interleaves-Held p) (Held-trans b c c' (Interleaves-Held q) last)

  -- Whatever the handlers of several connections do at a time, in whatever order their steps on the
  -- manager fall, the two statements of a refund being two steps, and whichever statements fail: a
  -- settled transaction stays in the database. Under its identifier there is a row with the same
  -- amounts, currency, codes, receipt number and creation time. A failed or refunded transaction stays
  -- in its state, a completed one may go to voided or to refunded, and a voided one only to refunded;
  -- a batch number, once given, stays.
  pub Interleaves-EvolvesBy :
      (m m' : Manager) (n : ℕ) (k : String) (r : Row)
      → Interleaves codec m m' n
      → find_row k m.db.rows ≡ some r
      → (s : Row) × (find_row k m'.db.rows ≡ some s) × EvolvesBy Shift r s
  Interleaves-EvolvesBy m m' n k r path found = Interleaves-Held path k r found
