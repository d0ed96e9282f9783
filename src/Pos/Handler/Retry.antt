-- ===== src/Pos/Handler/Retry.antt =====
-- A payment under an identifier that the database holds already, as after a decline: CreateTransaction
-- looks for the identifier among the active transactions only.
use Prim.Native.String.{String}
use termwire.Common.{
  ◌+◌, u64, ◌≡◌, refl, str_eq, str_eq_refl, none, some, arith, Option-cases, inl, inr,
  if◌then◌else◌, sub32, ◌==◌,
}
use termwire.Go.Dict.{lookup, insert, lookup-insert}
use termwire.Message.{payment_completion_response}
use termwire.Message.Codec.{Codec}
use termwire.Message.Responses.{PaymentCompletionResponse}
use termwire.Pos.Db.{err, Row, find_row, scan_transaction}
use termwire.Pos.Db.Laws.{insert_completed_again, find_row-update_rows}
use termwire.Pos.Handler.Approval.{confirmation_code, auth_code, final, accept_found}
use termwire.Pos.Handler.Env.{Env, Handler, answer, with_manager}
use termwire.Pos.Handler.Payment.{completion, accept_payment}
use termwire.Pos.Handler.Promise.{next_receipt, Grants}
use termwire.Pos.Manager.{Manager, complete_transaction}
use termwire.Pos.Manager.Branches.{complete_err}
use termwire.Pos.Settled.{get_completed_transaction_by_id, set_cached_response}
use termwire.Pos.Transaction.{Transaction, payment_completed}

module _ (codec : Codec PaymentCompletionResponse) (env : Env) (h : Handler) (id : String)
    (txn : Transaction) (r : Row) (open_ : lookup id h.manager.active ≡ some txn)
    (same : txn.id ≡ id) (old : find_row id h.manager.db.rows ≡ some r)
    (reads : (env.call 12).fault 0 ≡ none) where
  abbrev kept : Manager
  kept = record (h.manager) {
    active = insert id (final env h txn) h.manager.active;
    receipt_counter = u64 (h.manager.receipt_counter + 1);
  }

  refused :
      (e : String) × (complete_transaction
          (env.call 11)
          id
          (confirmation_code env)
          (auth_code env)
          h.manager
        ≡ (err e, kept))
  refused =
      let (x, e) =
        insert_completed_again (env.call 11) (final env h txn) h.manager.db r (rw same old) in
      (
        _,
        complete_err (env.call 11) id h.manager (confirmation_code env) (auth_code env) txn x open_
            e,
      )

  answered : accept_payment codec env id h ≡ (
    answer env (
        payment_completion_response
          (completion (confirmation_code env) (auth_code env) (scan_transaction codec r))),
    with_manager
        (set_cached_response codec
          (env.call 13)
          r.id
          (completion (confirmation_code env) (auth_code env) (scan_transaction codec r))
          env.marshal_error
          kept).1
        h,
  )
  unfolding scan_transaction
  answered =
      accept_found codec env id h kept (scan_transaction codec r) _ _ (refused.1)
        (unfold get_completed_transaction_by_id in ground arith) refl refl

  abbrev cached_after : Manager
  cached_after =
      (set_cached_response codec (env.call 13) r.id
        (completion (confirmation_code env) (auth_code env) (scan_transaction codec r))
        env.marshal_error kept).1

  same_state : (s : Row) × (find_row id cached_after.db.rows ≡ some s) × (s.state ≡ r.state)
  same_state =
      elim (Option-cases (
        codec.marshal
          (completion (confirmation_code env) (auth_code env) (scan_transaction codec r)))) [
            | inl e ↦ (r, unfold set_cached_response in ground arith, refl)
            | inr (blob, e) ↦ elim (Option-cases ((env.call 13).fault 0)) [
              | inr (x, f) ↦ (r, unfold set_cached_response in ground arith, refl)
              | inl f ↦ (
                if str_eq r.id r.id then record r { cached_response = blob } else r,
                unfold set_cached_response in
                    ground (
                      arith,
                      find_row-update_rows (λ q. str_eq q.id r.id)
                          (λ q. record q { cached_response = blob }) h.manager.db.rows id
                          (λ q. refl),
                    ),
                ground arith,
              )
            ]
          ]

  still_active : lookup id cached_after.active ≡ some (final env h txn)
  unfolding set_cached_response
  still_active =
      ground (arith, str_eq_refl id, lookup-insert id id (final env h txn) h.manager.active)

  old_Grants :
      Grants env r.receipt_number r.currency r.amount_cents r.loyalty_amount_cents r.installments
        (if r.card_has_loyalty == 0 then 0 else sub32 r.card_loyalty_points r.loyalty_points_used)
        (completion (confirmation_code env) (auth_code env) (scan_transaction codec r))
  unfolding scan_transaction
  old_Grants = record {
    has_code = refl;
    has_confirmation = refl;
    has_auth = refl;
    has_receipt = refl;
    in_currency = refl;
    has_card_amount = refl;
    has_loyalty_amount = refl;
    has_installments = refl;
    has_points = ground arith;
  }

  -- The bank accepts a payment under an identifier that the database holds already, and the query for
  -- it does not fail. Then the terminal answers with code 00 and new codes, but the receipt number,
  -- currency, amounts, installments and points of the old row, whatever state that row is in; the
  -- row stays in its state, and the transaction stays active, as completed under the next receipt
  -- number.
  pub accept_payment_old :
      ((p : PaymentCompletionResponse) × ((accept_payment codec env id h).0
          ≡ answer env (payment_completion_response p))
        × Grants env r.receipt_number r.currency r.amount_cents r.loyalty_amount_cents
            r.installments
            (if r.card_has_loyalty == 0
              then 0
              else sub32 r.card_loyalty_points r.loyalty_points_used)
            p)
      × ((s : Row) × (find_row id (accept_payment codec env id h).1.manager.db.rows ≡ some s)
          × (s.state ≡ r.state))
      × ((t : Transaction) × (lookup id (accept_payment codec env id h).1.manager.active ≡ some t)
          × (t.id ≡ id)
          × (t.state ≡ payment_completed)
          × (t.receipt_number ≡ next_receipt h))
  accept_payment_old =
      rw answered
        ((_, refl, old_Grants), same_state, (final env h txn, still_active, same, refl, refl))
