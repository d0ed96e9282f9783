-- ===== src/Pos/Manager/Restart.antt =====
-- NewTransactionManager of pos/transaction.go on the database that an earlier run has left, and openDB of
-- pos/db.go. The driver's errors are arguments, one for each call in turn; the tables are made only if
-- they are not there.
use Prim.Native.String.{String, ◌++◌}
use termwire.Common.{
  ℕ, ◌+◌, u64, ◌≡◌, refl, sym, ◌∙◌, ap, subst, str_eq_refl, [], Option, none, some, arith,
  Option-cases, inl, inr,
}
use termwire.Go.Dict.{lookup, insert, lookup-insert}
use termwire.Go.Fmt.{decimal}
use termwire.Go.RoundTrip.{scan_uint-decimal}
use termwire.Go.Scan.{scan_uint}
use termwire.Pos.Config.{Config}
use termwire.Pos.Db.{Outcome, ok, err, Io, Db, insert_completed}
use termwire.Pos.Db.Laws.{Outcome-cases}
use termwire.Pos.Manager.{Manager, settled, store_counter, complete_transaction}
use termwire.Pos.Manager.Branches.{complete_ok, complete_err, complete_missing}

-- sql.Open, the two PRAGMA statements and the schema.
unfoldable pub open_db : (ℕ → Option String) → Db → Outcome Db
open_db faults db = elim (faults 0) [
  | some e ↦ err e
  | none ↦ elim (faults 1) [
    | some e ↦ err e
    | none ↦ elim (faults 2) [
      | some e ↦ err e
      | none ↦ elim (faults 3) [ some e ↦ err e | none ↦ ok db ]
    ]
  ]
]

-- A counter that cannot be read is the first one.
abbrev scanned : Option ℕ → ℕ
scanned none = 1000
scanned (some n) = n

abbrev read_counter : Option String → ℕ
read_counter none = 1000
read_counter (some text) = scanned (scan_uint text)

unfoldable pub stored_counter : Option String → Db → ℕ
stored_counter (some e) db = 1000
stored_counter none db = read_counter (lookup "receipt_counter" db.metadata)

unfoldable pub new_transaction_manager : (ℕ → Option String) → Config → Db → Outcome Manager
new_transaction_manager faults config db = elim (open_db faults db) [
  | err e ↦ err ("opening transaction DB: " ++ e)
  | ok db' ↦ ok (record {
    active = [];
    receipt_counter = stored_counter (faults 4) db';
    config = config;
    db = db';
  })
]

wrong : (e : String) → ◌≡◌ {A = Outcome (Unit {0})} (err e) (ok tt) → ⊥
wrong e q = cc

opened :
    (faults : ℕ → Option String) (db : Db) → ((k : ℕ) → faults k ≡ none) → open_db faults db ≡ ok db
unfolding open_db
opened faults db works = ground (arith, works 0, works 1, works 2, works 3)

-- A counter that a restart reads back.
abbrev IsStored : Manager → Type 0
IsStored m = stored_counter none m.db ≡ m.receipt_counter

restarted :
    (faults : ℕ → Option String) (config : Config) (m : Manager)
    → ((k : ℕ) → faults k ≡ none)
    → IsStored m
    → new_transaction_manager faults config m.db
      ≡ ok (record { active = []; receipt_counter = m.receipt_counter; config = config; db = m.db })
restarted faults config m works e =
    unfold new_transaction_manager in ground (arith, opened faults m.db works, works 4)

module _ (io : Io) (id confirmation auth : String) (m : Manager) where
  abbrev counter : ℕ
  counter = u64 (m.receipt_counter + 1)

  abbrev pub after : Manager
  after = (complete_transaction io id confirmation auth m).1

  abbrev stored_row : Db → Db
  stored_row db = record db { metadata = insert "receipt_counter" (decimal counter) db.metadata }

  found : (db : Db) → lookup "receipt_counter" (stored_row db).metadata ≡ some (decimal counter)
  found db = ground (
    arith,
    str_eq_refl "receipt_counter",
    lookup-insert "receipt_counter" "receipt_counter" (decimal counter) db.metadata,
  )

  reads : (db : Db) → stored_counter none (stored_row db) ≡ counter
  reads db =
      unfold stored_counter in
      ap read_counter (found db) ∙ ap scanned (scan_uint-decimal counter (omega arith))

  stores : (db : Db) → io.fault 1 ≡ none → store_counter io counter db ≡ stored_row db
  stores db f = rw (store_counter, f) refl

  completed-IsStored :
      (complete_transaction io id confirmation auth m).0 ≡ ok tt
      → io.fault 1 ≡ none
      → IsStored after
  completed-IsStored done f = elim (Option-cases (lookup id m.active)) [
    | inl e ↦
        absurd (wrong _ (sym (ap (λ r. r.0) (complete_missing io id m confirmation auth e)) ∙ done))
    | inr (txn, e) ↦
        elim (Outcome-cases (insert_completed io (settled io confirmation auth counter txn) m.db)) [
          | inl (x, q) ↦ absurd (
              wrong _
                (sym (ap (λ r. r.0) (complete_err io id m confirmation auth txn x e q)) ∙ done))
          | inr (db, q) ↦
              subst (λ (r : Outcome (Unit {0}) × Manager). IsStored (r.1))
                (sym (complete_ok io id m confirmation auth txn db e q))
                (subst (λ d. stored_counter none d ≡ counter) (sym (stores db f)) (reads db))
        ]
  ]

  -- A payment was completed, and its counter was stored. Then the manager of a later run on that
  -- database, if it can be opened and the counter read, goes on from the receipt number of that
  -- payment, with the same rows and with no transaction active.
  pub new_transaction_manager-complete_transaction :
      (config : Config) (faults : ℕ → Option String)
      → (complete_transaction io id confirmation auth m).0 ≡ ok tt
      → io.fault 1 ≡ none
      → ((k : ℕ) → faults k ≡ none)
      → new_transaction_manager faults config after.db
        ≡ ok (record {
          active = [];
          receipt_counter = after.receipt_counter;
          config = config;
          db = after.db;
        })
  new_transaction_manager-complete_transaction config faults done stored works =
      restarted faults config after works (completed-IsStored done stored)
