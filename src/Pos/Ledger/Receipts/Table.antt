-- ===== src/Pos/Ledger/Receipts/Table.antt =====
-- What the statements on settled transactions do to the receipt numbers.
use termwire.Common.{
  ℕ, ◌≡◌, refl, sym, ap, ◌∙◌, Bool, ◌⊎◌, inl, inr, String, str_eq, some, arith, Option-cases,
}
use termwire.Go.Dict.{lookup}
use termwire.Message.Codec.{Codec}
use termwire.Message.Responses.{PaymentCompletionResponse}
use termwire.Pos.Db.{Io, Row, find_row, update_rows}
use termwire.Pos.Db.Laws.{find_row-update_rows}
use termwire.Pos.Ledger.Receipts.{in_table, IsKeyed, Origin, old, Gains}
use termwire.Pos.Ledger.Receipts.Memory.{same_actives, same_rows, Gains-refl, Gains-to}
use termwire.Pos.Ledger.Statements.{set_cached_rows, void_rows, completed_row, z_rows, next_batch}
use termwire.Pos.Manager.{Manager}
use termwire.Pos.Report.{generate_z_report, is_open}
use termwire.Pos.Settled.{
  set_cached_response, void_transaction, refund_transaction, refund_refusal, write_refund, restate,
}
use termwire.Pos.Transaction.{Transaction, voided, refunded}

module _ (m m' : Manager) (keyed : IsKeyed m) (same : m'.active ≡ m.active) where
  actives :
      (k : String) (t : Transaction)
      → lookup k m'.active ≡ some t
      → (t.id ≡ k) × Origin "" m m' k t.receipt_number
  actives k t e = same_actives "" m keyed m' k t (cc)

  module _ (counter : m'.receipt_counter ≡ m.receipt_counter) where
    Gains-same : m'.db ≡ m.db → Gains "" m m'
    Gains-same e = record {
      grows = omega (arith, counter);
      at_most = omega (arith, counter);
      actives = actives;
      rows = λ k r found. same_rows "" m keyed m' k r (cc);
    }

    -- An update that writes neither identifiers nor receipt numbers.
    module _ (test : Row → Bool) (change : Row → Row) where
      updated_rows :
          ((r : Row) → (change r).id ≡ r.id)
          → ((r : Row) → (change r).receipt_number ≡ r.receipt_number)
          → (k : String) (r : Row) → find_row k (update_rows test change m.db.rows) ≡ some r
          → Origin "" m m' k r.receipt_number
      updated_rows same_id same_receipt k r found = elim (Option-cases (find_row k m.db.rows)) [
        | inl e ↦ absurd (ground (arith, find_row-update_rows test change m.db.rows k same_id))
        | inr (s, e) ↦
            let kept : s.receipt_number ≡ r.receipt_number =
              ground
                (arith, find_row-update_rows test change m.db.rows k same_id, same_receipt s) in
            old (in_table s e kept)
      ]

      Gains-update :
          ((r : Row) → (change r).id ≡ r.id)
          → ((r : Row) → (change r).receipt_number ≡ r.receipt_number)
          → m'.db.rows ≡ update_rows test change m.db.rows
          → Gains "" m m'
      Gains-update same_id same_receipt e = record {
        grows = omega (arith, counter);
        at_most = omega (arith, counter);
        actives = actives;
        rows = λ k r found. updated_rows same_id same_receipt k r (sym (ap (find_row k) e) ∙ found);
      }

module _ (io : Io) (m : Manager) (keyed : IsKeyed m) where
  module _ (codec : Codec PaymentCompletionResponse) (id : String) where
    pub set_cached_response-Gains :
        (resp : PaymentCompletionResponse) (x : String)
        → Gains "" m (set_cached_response codec io id resp x m).1
    set_cached_response-Gains resp x = elim (set_cached_rows io m codec id resp x) [
      | inl e ↦ Gains-same m _ keyed active counter e
      | inr (blob, e) ↦
          Gains-update m _ keyed active counter (λ r. str_eq r.id id)
            (λ r. record r { cached_response = blob }) (λ r. refl) (λ r. refl) e
    ]
      where
        active : (set_cached_response codec io id resp x m).1.active ≡ m.active
        active = unfold set_cached_response in ground arith

        counter : (set_cached_response codec io id resp x m).1.receipt_counter ≡ m.receipt_counter
        counter = unfold set_cached_response in ground arith

    pub void_transaction-Gains : Gains "" m (void_transaction codec io id m).1
    void_transaction-Gains = elim (void_rows io m codec id) [
      | inl e ↦ Gains-same m _ keyed active counter e
      | inr e ↦
          Gains-update m _ keyed active counter (completed_row io m codec id)
            (restate voided io.now) (λ r. refl) (λ r. refl) e
    ]
      where
        active : (void_transaction codec io id m).1.active ≡ m.active
        active = unfold void_transaction in ground arith

        counter : (void_transaction codec io id m).1.receipt_counter ≡ m.receipt_counter
        counter = unfold void_transaction in ground arith

    -- The second statement of a refund, in whatever state it finds the row.
    pub write_refund-Gains : Gains "" m (write_refund codec io id m).1
    write_refund-Gains = elim (Option-cases (io.fault 1)) [
      | inr f ↦ Gains-same m _ keyed active counter (ground arith)
      | inl f ↦
          Gains-update m _ keyed active counter (λ r. str_eq r.id id) (restate refunded io.now)
            (λ r. refl) (λ r. refl) (ground arith)
    ]
      where
        active : (write_refund codec io id m).1.active ≡ m.active
        active = ground arith

        counter : (write_refund codec io id m).1.receipt_counter ≡ m.receipt_counter
        counter = ground arith

    -- A refund either stops at its test or comes to its second statement.
    refund_splits :
        (amount : ℕ)
        → ((refund_transaction codec io id amount m).1 ≡ m)
          ⊎ ((refund_transaction codec io id amount m).1 ≡ (write_refund codec io id m).1)
    unfolding refund_transaction
    refund_splits amount = elim (Option-cases (refund_refusal codec io id amount m)) [
      | inl e ↦ inr (ground arith)
      | inr (x, e) ↦ inl (ground arith)
    ]

    pub refund_transaction-Gains :
        (amount : ℕ) → Gains "" m (refund_transaction codec io id amount m).1
    refund_transaction-Gains amount = elim (refund_splits amount) [
      | inl e ↦ Gains-to "" m keyed (Gains-refl "" m keyed) e
      | inr e ↦ Gains-to "" m keyed write_refund-Gains e
    ]

  pub generate_z_report-Gains : Gains "" m (generate_z_report io m).1
  generate_z_report-Gains = elim (Option-cases (io.fault 2)) [
    | inr f ↦ Gains-same m _ keyed active counter (unfold generate_z_report in ground arith)
    | inl f ↦
        Gains-update m _ keyed active counter is_open
          (λ r. record r { z_report_id = next_batch io m }) (λ r. refl) (λ r. refl) (z_rows io m f)
  ]
    where
      active : (generate_z_report io m).1.active ≡ m.active
      active = unfold generate_z_report in ground arith

      counter : (generate_z_report io m).1.receipt_counter ≡ m.receipt_counter
      counter = unfold generate_z_report in ground arith
