-- ===== src/Pos/Handler/Pause.antt =====
-- A request to process a payment, up to the pause of processPayment.
use Prim.Native.String.{String}
use termwire.Common.{◌≡◌, false, str_eq_refl, none, some, inl, inr, arith, Option-cases}
use termwire.Go.Dict.{lookup, lookup-insert}
use termwire.Message.Codec.{Codec}
use termwire.Message.Requests.{PaymentProcessingRequest}
use termwire.Message.Responses.{PaymentCompletionResponse}
use termwire.Pos.Db.{find_row}
use termwire.Pos.Handler.Env.{Env, Handler, with_manager}
use termwire.Pos.Handler.Payment.{cached, pauses, begin_processing}
use termwire.Pos.Manager.{
  Manager, get_transaction, put, set_bank_selection, update_transaction_state,
}
use termwire.Pos.Settled.{get_completed_transaction_by_id}
use termwire.Pos.Transaction.{Transaction, payment_processing}

pub lookup-put :
    (id : String) (t : Transaction) (m : Manager) → lookup id (put id t m).active ≡ some t
lookup-put id t m = ground (arith, lookup-insert id id t m.active, str_eq_refl id)

module _ (env : Env) (req : PaymentProcessingRequest) (txn : Transaction) where
  abbrev pub chosen : Transaction
  chosen = record txn {
    selected_bank_id = req.selected_bank_id;
    selected_aid = req.selected_aid;
    installment_count = req.installment_count;
    last_updated = (env.call 4).now;
  }

  -- The transaction in the pause of its payment.
  abbrev pub paying : Transaction
  paying = record chosen { state = payment_processing; last_updated = (env.call 10).now }

  abbrev pub pausing : String → Handler → Handler
  pausing id h = with_manager (put id paying (put id chosen h.manager)) h

module _ (codec : Codec PaymentCompletionResponse) (env : Env) (req : PaymentProcessingRequest)
    (id : String) (txn : Transaction) (h : Handler) (same : req.transaction_id ≡ id)
    (plain : req.use_loyalty_points ≡ false) where
  no_cache : find_row id h.manager.db.rows ≡ none → cached codec env id h.manager ≡ none
  no_cache unsettled = elim (Option-cases ((env.call 3).fault 0)) [
    | inl e ↦ unfold cached get_completed_transaction_by_id in ground arith
    | inr (x, e) ↦ unfold cached get_completed_transaction_by_id in ground arith
  ]

  pub begin_processing_pauses :
      lookup id h.manager.active ≡ some txn
      → txn.id ≡ id
      → find_row id h.manager.db.rows ≡ none
      → begin_processing codec env req h ≡ (pauses id, pausing env req txn id h)
  begin_processing_pauses open_ same_id unsettled =
      unfold begin_processing get_transaction set_bank_selection update_transaction_state in
      ground (arith, no_cache unsettled, lookup-put id (chosen env req txn) h.manager)
