-- ===== src/Pos/Ledger/Receipts/Memory.antt =====
-- What the operations on the active transactions do to the receipt numbers.
use termwire.Common.{
  ℕ, ◌≡◌, refl, sym, subst, ◌∙◌, Bool, inl, inr, String, str_eq, str_eq_iff, none, some, arith,
  Bool-cases, Option-cases,
}
use termwire.Go.Dict.{lookup, insert, erase, lookup-insert, lookup-erase}
use termwire.Go.Time.{Time}
use termwire.Pos.Card.{CardData}
use termwire.Pos.Db.{ok, Io, Row, find_row, add_row}
use termwire.Pos.Db.Laws.{find_row-add_row, Outcome-cases}
use termwire.Pos.Ledger.Receipts.{in_table, in_memory, IsKeyed, Origin, old, blank, Gains}
use termwire.Pos.Manager.{
  Manager, with_active, fresh_transaction, put, create_transaction, update_transaction_state,
  set_card_data, set_bank_selection, set_loyalty_points,
}
use termwire.Pos.Transaction.{Transaction, TransactionState}

module _ (id : String) (m : Manager) (keyed : IsKeyed m) where
  pub same_actives :
      (m' : Manager)
      → (k : String) (t : Transaction) → lookup k m.active ≡ some t
      → (t.id ≡ k) × Origin id m m' k t.receipt_number
  same_actives m' k t e = (keyed k t e, old (in_memory t e refl))

  pub same_rows :
      (m' : Manager)
      → (k : String) (r : Row) → find_row k m.db.rows ≡ some r
      → Origin id m m' k r.receipt_number
  same_rows m' k r e = old (in_table r e refl)

  pub Gains-refl : Gains id m m
  Gains-refl = record {
    grows = omega arith;
    at_most = omega arith;
    actives = same_actives m;
    rows = same_rows m;
  }

  pub put_actives :
      (m' : Manager) (t' : Transaction)
      → t'.id ≡ id
      → Origin id m m' id t'.receipt_number
      → (k : String) (t : Transaction) → lookup k (insert id t' m.active) ≡ some t
      → (t.id ≡ k) × Origin id m m' k t.receipt_number
  put_actives m' t' e o k t found = elim (Bool-cases (str_eq id k)) [
    | inr q ↦ same_actives m' k t (ground (arith, lookup-insert id k t' m.active))
    | inl q ↦
        let key : id ≡ k = (str_eq_iff id k).0 q in
        let same : t' ≡ t = ground (arith, lookup-insert id k t' m.active) in
        subst (λ (u : Transaction). (u.id ≡ k) × Origin id m m' k u.receipt_number) same
          (subst (λ j. (t'.id ≡ j) × Origin id m m' j t'.receipt_number) key (e, o))
  ]

  pub erase_actives :
      (m' : Manager) (t' : Transaction)
      → (k : String) (t : Transaction) → lookup k (erase id (insert id t' m.active)) ≡ some t
      → (t.id ≡ k) × Origin id m m' k t.receipt_number
  erase_actives m' t' k t found =
      same_actives m' k t
        (ground (arith, lookup-erase id k (insert id t' m.active), lookup-insert id k t' m.active))

  pub gone_actives :
      (m' : Manager)
      → (k : String) (t : Transaction) → lookup k (erase id m.active) ≡ some t
      → (t.id ≡ k) × Origin id m m' k t.receipt_number
  gone_actives m' k t found = same_actives m' k t (ground (arith, lookup-erase id k m.active))

  -- A write through the pointer under `id`.
  pub Gains-put :
      (t' : Transaction)
      → t'.id ≡ id
      → Origin id m (put id t' m) id t'.receipt_number
      → Gains id m (put id t' m)
  Gains-put t' e o = record {
    grows = omega arith;
    at_most = omega arith;
    actives = put_actives (put id t' m) t' e o;
    rows = same_rows (put id t' m);
  }

  pub added_row :
      (m' : Manager) (r : Row)
      → r.id ≡ id
      → find_row r.id m.db.rows ≡ none
      → Origin id m m' id r.receipt_number
      → (k : String) (s : Row) → find_row k (add_row r m.db.rows) ≡ some s
      → Origin id m m' k s.receipt_number
  added_row m' r e new o k s found = elim (Bool-cases (str_eq r.id k)) [
    | inr q ↦ same_rows m' k s (ground (arith, find_row-add_row r m.db.rows k new))
    | inl q ↦
        let key : id ≡ k = sym e ∙ (str_eq_iff r.id k).0 q in
        let same : r ≡ s = ground (arith, find_row-add_row r m.db.rows k new) in
        subst (λ (u : Row). Origin id m m' k u.receipt_number) same
          (subst (λ j. Origin id m m' j r.receipt_number) key o)
  ]

  pub Gains-to : {a b : Manager} → Gains id m a → b ≡ a → Gains id m b
  Gains-to g e = subst (Gains id m) (sym e) g

  -- A write that keeps the identifier and the receipt number.
  written :
      (t t' : Transaction)
      → lookup id m.active ≡ some t
      → t'.id ≡ t.id
      → t'.receipt_number ≡ t.receipt_number
      → Gains id m (put id t' m)
  written t t' e same_id same_receipt =
      Gains-put t' (same_id ∙ keyed id t e) (old (in_memory t e (sym same_receipt)))

  -- A write through the pointer, if there is one, that keeps both.
  rewritten :
      (change : Transaction → Transaction)
      → ((t : Transaction) → (change t).id ≡ t.id)
      → ((t : Transaction) → (change t).receipt_number ≡ t.receipt_number)
      → Gains id m (with_active {A = Unit {0}} id m λ t. (ok tt, put id (change t) m)).1
  rewritten change same_id same_receipt = elim (Option-cases (lookup id m.active)) [
    | inl e ↦ Gains-to Gains-refl (ground arith)
    | inr (t, e) ↦ Gains-to (written t (change t) e (same_id t) (same_receipt t)) (ground arith)
  ]

  module _ (io : Io) where
    pub create_transaction-Gains :
        (t : Time) (amount : ℕ) (currency : String)
        → Gains id m (create_transaction io t id amount currency m).1
    create_transaction-Gains t amount currency =
        elim (Outcome-cases (create_transaction io t id amount currency m).0) [
          | inl (e, q) ↦ Gains-to Gains-refl (unfold create_transaction in ground arith)
          | inr (txn, q) ↦
              Gains-to (Gains-put (fresh_transaction io t id amount currency) refl (blank refl))
                (unfold create_transaction in ground arith)
        ]

    pub update_transaction_state-Gains :
        (s : TransactionState) → Gains id m (update_transaction_state io id s m).1
    unfolding update_transaction_state
    update_transaction_state-Gains s =
        rewritten (λ t. record t { state = s; last_updated = io.now }) (λ t. refl) (λ t. refl)

    pub set_card_data-Gains : (card : CardData) → Gains id m (set_card_data io id card m).1
    unfolding set_card_data
    set_card_data-Gains card =
        rewritten (λ t. record t { card = some card; last_updated = io.now }) (λ t. refl)
          (λ t. refl)

    pub set_bank_selection-Gains :
        (bank : ℕ) (aid : String) (n : ℕ) → Gains id m (set_bank_selection io id bank aid n m).1
    unfolding set_bank_selection
    set_bank_selection-Gains bank aid n =
        rewritten
          (λ t. record t {
            selected_bank_id = bank;
            selected_aid = aid;
            installment_count = n;
            last_updated = io.now;
          })
          (λ t. refl) (λ t. refl)

    pub set_loyalty_points-Gains :
        (b : Bool) (points amount : ℕ) → Gains id m (set_loyalty_points io id b points amount m).1
    unfolding set_loyalty_points
    set_loyalty_points-Gains b points amount =
        rewritten
          (λ t. record t {
            use_loyalty_points = b;
            loyalty_points_used = points;
            loyalty_amount_cents = amount;
            last_updated = io.now;
          })
          (λ t. refl) (λ t. refl)
