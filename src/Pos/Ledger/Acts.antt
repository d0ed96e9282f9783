-- ===== src/Pos/Ledger/Acts.antt =====
-- The operations of TransactionManager that write, as steps from one manager to the next: each is done
-- under the manager's mutex, or is one statement of the database. A handler is a run of such steps,
-- and what the handlers of several connections do at a time is an interleaving of their runs.
use termwire.Common.{ℕ, suc, ◌+◌, none, ◌≡◌, subst, sym, Bool, String}
use termwire.Go.Time.{Time}
use termwire.Message.Codec.{Codec}
use termwire.Message.Responses.{PaymentCompletionResponse}
use termwire.Pos.Card.{CardData}
use termwire.Pos.Db.{Io}
use termwire.Pos.Ledger.Operations
use termwire.Pos.Ledger.Statements
use termwire.Pos.Ledger.Operations.{Extends, Extends-refl, Extends-trans}
use termwire.Pos.Manager.{
  Manager, create_transaction, update_transaction_state, set_card_data, set_bank_selection,
  set_loyalty_points, complete_transaction, fail_transaction,
}
use termwire.Pos.Report.{generate_z_report}
use termwire.Pos.Settled.{
  set_cached_response, void_transaction, refund_transaction, refund_refusal, write_refund,
}
use termwire.Pos.Transaction.{TransactionState}

module _ (codec : Codec PaymentCompletionResponse) where
  pub data Acts (m : Manager) : Manager → Type 0 where
    creates :
        (io : Io) (t : Time) (id : String) (amount : ℕ) (currency : String)
        → Acts m (create_transaction io t id amount currency m).1
    updates :
        (io : Io) (id : String) (s : TransactionState)
        → Acts m (update_transaction_state io id s m).1
    takes_card : (io : Io) (id : String) (card : CardData) → Acts m (set_card_data io id card m).1
    selects :
        (io : Io) (id : String) (bank : ℕ) (aid : String) (n : ℕ)
        → Acts m (set_bank_selection io id bank aid n m).1
    takes_points :
        (io : Io) (id : String) (b : Bool) (points amount : ℕ)
        → Acts m (set_loyalty_points io id b points amount m).1
    completes :
        (io : Io) (id confirmation auth : String)
        → Acts m (complete_transaction io id confirmation auth m).1
    fails : (io : Io) (id message : String) → Acts m (fail_transaction io id message m).1
    caches :
        (io : Io) (id : String) (resp : PaymentCompletionResponse) (x : String)
        → Acts m (set_cached_response codec io id resp x m).1
    voids : (io : Io) (id : String) → Acts m (void_transaction codec io id m).1
    refunds :
        (io : Io) (id : String) (amount : ℕ) → Acts m (refund_transaction codec io id amount m).1
    closes_batch : (io : Io) → Acts m (generate_z_report io m).1

  -- One step after the other.
  pub data Runs (m : Manager) : Manager → Type 0 where
    rests : Runs m m
    acts : {b c : Manager} → Runs m b → Acts b c → Runs m c

  -- So many steps of whatever connections, in whatever order. The two statements of a refund are two
  -- steps: the first one only reads, and finds no reason to refuse, and the second one may come late,
  -- after steps of other connections.
  pub data Interleaves : Manager → Manager → ℕ → Type 0 where
    begins : {m : Manager} → Interleaves m m 0
    goes_on : {m b c : Manager} {n : ℕ} → Interleaves m b n → Acts b c → Interleaves m c (suc n)
    refunds_late :
        (io : Io) (id : String) (amount : ℕ) {m b c : Manager} {n k : ℕ}
        → Interleaves m b n
        → refund_refusal codec io id amount b ≡ none
        → Interleaves b c k
        → Interleaves m (write_refund codec io id c).1 (suc (n + k))

module _ {codec : Codec PaymentCompletionResponse} where
  pub once : {a b : Manager} → Acts codec a b → Runs codec a b
  once s = acts rests s

  pub Runs-trans : {a b c : Manager} → Runs codec a b → Runs codec b c → Runs codec a c
  Runs-trans r rests = r
  Runs-trans r (acts s x) = acts (Runs-trans r s) x

  pub Runs-to : {a b c : Manager} → Runs codec a b → c ≡ b → Runs codec a c
  Runs-to {a} p e = subst (Runs codec a) (sym e) p

  pub Acts-Extends : {a b : Manager} → Acts codec a b → Extends a b
  Acts-Extends {a} (creates io t id amount currency) =
      Operations.create_transaction-Extends io a t id amount currency
  Acts-Extends {a} (updates io id s) = Operations.update_transaction_state-Extends io a id s
  Acts-Extends {a} (takes_card io id card) = Operations.set_card_data-Extends io a id card
  Acts-Extends {a} (selects io id bank aid n) =
      Operations.set_bank_selection-Extends io a id bank aid n
  Acts-Extends {a} (takes_points io id b points amount) =
      Operations.set_loyalty_points-Extends io a id b points amount
  Acts-Extends {a} (completes io id confirmation auth) =
      Operations.complete_transaction-Extends io a id confirmation auth
  Acts-Extends {a} (fails io id message) = Operations.fail_transaction-Extends io a id message
  Acts-Extends {a} (caches io id resp x) =
      Statements.set_cached_response-Extends io a codec id resp x
  Acts-Extends {a} (voids io id) = Statements.void_transaction-Extends io a codec id
  Acts-Extends {a} (refunds io id amount) =
      Statements.refund_transaction-Extends io a codec id amount
  Acts-Extends {a} (closes_batch io) = Statements.generate_z_report-Extends io a

  pub Runs-Extends : {a b : Manager} → Runs codec a b → Extends a b
  Runs-Extends {a} rests = Extends-refl a
  Runs-Extends (acts r x) = Extends-trans (Runs-Extends r) (Acts-Extends x)
