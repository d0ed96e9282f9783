-- ===== src/Pos/Ledger/Statements.antt =====
-- The manager's operations on the settled transactions, each as a step of the ledger.
use termwire.Common.{
  ltb, str_eq_iff, length, ◌⊎◌, ℕ, ◌+◌, ◌≡◌, refl, subst, sym, Bool, true, ◌&&◌, ◌==◌, ==→eq, ◌∙◌,
  String, str_eq, inl, inr, List, none, some, arith, Bool-cases, Option-cases,
}
use termwire.Message.Codec.{Codec}
use termwire.Message.Responses.{PaymentCompletionResponse}
use termwire.Pos.Db.{Io, Row, find_row, update_rows, select_rows}
use termwire.Pos.Db.Laws.{find_row-id}
use termwire.Pos.Manager.Branches.{}
use termwire.Pos.Ledger.{
  Grows-update_rows, Evolves, Evolves-change, stays, is_voided, is_refunded, closes, same_batch,
}
use termwire.Pos.Manager.{Manager}
use termwire.Pos.Report.{generate_z_report, is_open, max_batch}
use termwire.Pos.Settled.{set_cached_response, void_transaction, refund_transaction, restate}
use termwire.Pos.Transaction.{state_code, payment_completed, voided, refunded}
use termwire.Pos.Ledger.Operations.{Extends, Extends-same, Extends-rows}

module _ (io : Io) (m : Manager) where
  module _ (codec : Codec PaymentCompletionResponse) where
    pub set_cached_rows :
        (id : String) (resp : PaymentCompletionResponse) (x : String)
        → ((set_cached_response codec io id resp x m).1.db ≡ m.db)
          ⊎ ((blob : List ℕ) × ((set_cached_response codec io id resp x m).1.db.rows
                ≡ update_rows
                    (λ r. str_eq r.id id)
                    (λ r. record r { cached_response = blob })
                    m.db.rows))
    set_cached_rows id resp x = elim (Option-cases (codec.marshal resp)) [
      | inl e ↦ inl (unfold set_cached_response in ground arith)
      | inr (blob, e) ↦ elim (Option-cases (io.fault 0)) [
        | inl f ↦ inr (blob, unfold set_cached_response in ground arith)
        | inr f ↦ inl (unfold set_cached_response in ground arith)
      ]
    ]

    pub set_cached_response-Extends :
        (id : String) (resp : PaymentCompletionResponse) (x : String)
        → Extends m (set_cached_response codec io id resp x m).1
    set_cached_response-Extends id resp x = elim (set_cached_rows id resp x) [
      | inl e ↦ Extends-same m _ e
      | inr (blob, e) ↦ Extends-rows io m _ e (
          Grows-update_rows (λ r. str_eq r.id id) (λ r. record r { cached_response = blob })
            m.db.rows (λ r. refl)
            (λ k r found h.
              Evolves-change r r.state r.last_updated blob r.z_report_id (stays refl)
                (same_batch refl)))
    ]

    abbrev pub completed_row : String → Row → Bool
    completed_row id r = str_eq r.id id && r.state == state_code payment_completed

    pub void_rows :
        (id : String)
        → ((void_transaction codec io id m).1.db ≡ m.db)
          ⊎ ((void_transaction codec io id m).1.db.rows
              ≡ update_rows (completed_row id) (restate voided io.now) m.db.rows)
    void_rows id = elim (Option-cases (io.fault 0)) [
      | inr f ↦ inl (unfold void_transaction in ground arith)
      | inl f ↦ elim (Bool-cases (length (select_rows (completed_row id) m.db.rows) == 0)) [
        | inl e ↦ inl (unfold void_transaction in ground arith)
        | inr e ↦ inr (unfold void_transaction in ground arith)
      ]
    ]

    voids :
        (id : String) (r : Row) → completed_row id r ≡ true → Evolves r (restate voided io.now r)
    voids id r h =
        Evolves-change r (state_code voided) _ r.cached_response r.z_report_id
          (is_voided (ground arith) refl) (same_batch refl)

    pub void_transaction-Extends : (id : String) → Extends m (void_transaction codec io id m).1
    void_transaction-Extends id = elim (void_rows id) [
      | inl e ↦ Extends-same m _ e
      | inr e ↦ Extends-rows io m _ e (
          Grows-update_rows (completed_row id) (restate voided io.now) m.db.rows (λ r. refl)
            (λ k r found. voids id r))
    ]

    pub refund_rows :
        (id : String) (amount : ℕ) (r : Row)
        → find_row id m.db.rows ≡ some r
        → ((refund_transaction codec io id amount m).1.db ≡ m.db)
          ⊎ ((r.state ≡ state_code payment_completed)
              × ((refund_transaction codec io id amount m).1.db.rows
                  ≡ update_rows (λ r'. str_eq r'.id id) (restate refunded io.now) m.db.rows))
    refund_rows id amount r e = elim (Option-cases (io.fault 0)) [
      | inr f ↦ inl (unfold refund_transaction in ground arith)
      | inl f ↦ elim (Bool-cases (r.state == state_code payment_completed)) [
        | inr other ↦ inl (unfold refund_transaction in ground arith)
        | inl completed ↦ elim (Bool-cases (ltb r.amount_cents amount)) [
          | inl above ↦ inl (unfold refund_transaction in ground arith)
          | inr within ↦ elim (Option-cases (io.fault 1)) [
            | inr g ↦ inl (unfold refund_transaction in ground arith)
            | inl g ↦ inr (==→eq _ _ completed, unfold refund_transaction in ground arith)
          ]
        ]
      ]
    ]

    refunds :
        (id : String) (r : Row)
        → find_row id m.db.rows ≡ some r
        → r.state ≡ state_code payment_completed
        → (k : String) (s : Row) → find_row k m.db.rows ≡ some s
        → str_eq s.id id ≡ true
        → Evolves s (restate refunded io.now s)
    refunds id r e completed k s found h =
        let key : k ≡ id = sym (find_row-id k m.db.rows s found) ∙ (str_eq_iff s.id id).0 h in
        let found' : find_row id m.db.rows ≡ some s =
          subst (λ j. find_row j m.db.rows ≡ some s) key found in
        let state : s.state ≡ state_code payment_completed = cc in
        Evolves-change s (state_code refunded) _ s.cached_response s.z_report_id
          (is_refunded state refl) (same_batch refl)

    pub refund_transaction-Extends :
        (id : String) (amount : ℕ) → Extends m (refund_transaction codec io id amount m).1
    refund_transaction-Extends id amount = elim (Option-cases (find_row id m.db.rows)) [
      | inl e ↦ Extends-same m _ (unfold refund_transaction in ground arith)
      | inr (r, e) ↦ elim (refund_rows id amount r e) [
        | inl same ↦ Extends-same m _ same
        | inr (completed, changed) ↦ Extends-rows io m _ changed (
            Grows-update_rows (λ r'. str_eq r'.id id) (restate refunded io.now) m.db.rows
              (λ r'. refl) (refunds id r e completed))
      ]
    ]

  -- The number of the batch that a report closes.
  abbrev pub next_batch : ℕ
  next_batch = elim (io.fault 1) [ some _ ↦ 0 | none ↦ max_batch m.db.rows ] + 1

  pub z_rows :
      io.fault 2 ≡ none
      → (generate_z_report io m).1.db.rows
        ≡ update_rows is_open (λ r. record r { z_report_id = next_batch }) m.db.rows
  z_rows f = unfold generate_z_report in ground arith

  closes_row :
      (k : String) (r : Row)
      → find_row k m.db.rows ≡ some r
      → is_open r ≡ true
      → Evolves r (record r { z_report_id = next_batch })
  closes_row k r found h =
      Evolves-change r r.state r.last_updated r.cached_response next_batch (stays refl)
        (closes (==→eq _ _ h) (omega arith))

  pub generate_z_report-Extends : Extends m (generate_z_report io m).1
  generate_z_report-Extends = elim (Option-cases (io.fault 2)) [
    | inr f ↦ Extends-same m _ (unfold generate_z_report in ground arith)
    | inl f ↦ Extends-rows io m _ (z_rows f) (
        Grows-update_rows is_open (λ r. record r { z_report_id = next_batch }) m.db.rows (λ r. refl)
          closes_row)
  ]
