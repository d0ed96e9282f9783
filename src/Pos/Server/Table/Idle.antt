-- ===== src/Pos/Server/Table/Idle.antt =====
-- The idle check of the server, and what keeps the table of connections in order.
use termwire.Common.{
  ℕ, ◌≡◌, refl, sym, ap, ◌∙◌, subst, str_eq, str_eq_iff, Bool, false, ◌||◌, if◌then◌else◌, leb, ◌+◌,
  ◌*◌, List, [], ◌∷◌, Option, none, some, String, arith, Option-cases, Bool-cases, inl, inr,
}
use termwire.Go.Dict.{Dict, lookup, insert, erase, lookup-insert, lookup-erase}
use termwire.Pos.Config.{Config}
use termwire.Pos.Server.Table.{
  Entry, Table, register, unregister, touch, is_idle, idle_entries, erase_entries, close_idle,
  check_idle_connections,
}

-- Each entry stands under its own identifier, once.
abbrev pub IsKeyed : Dict Entry → Type 0
IsKeyed [] = Unit
IsKeyed ((k, e) ∷ d) = (e.id ≡ k) × (lookup k d ≡ none) × IsKeyed d

other_key :
    (e : Entry) (j : String) (d : Dict Entry)
    → str_eq j e.id ≡ false
    → lookup j d ≡ none
    → lookup j (insert e.id e d) ≡ none
other_key e j d q fresh =
    ground (arith, str_eq_iff j e.id, str_eq_iff e.id j, lookup-insert e.id j e d)

insert-IsKeyed : (e : Entry) (d : Dict Entry) → IsKeyed d → IsKeyed (insert e.id e d)
unfolding insert lookup
insert-IsKeyed e [] keyed = (refl, refl, tt)
insert-IsKeyed e ((j, w) ∷ d) keyed = elim (Bool-cases (str_eq j e.id)) [
  | inl q ↦ rw q (refl, subst (λ k. lookup k d ≡ none) ((str_eq_iff j e.id).0 q) (keyed.1), keyed.2)
  | inr q ↦ rw q (keyed.0, other_key e j d q (keyed.1), insert-IsKeyed e d (keyed.2))
]

erased : (k j : String) (d : Dict Entry) → lookup j d ≡ none → lookup j (erase k d) ≡ none
erased k j d fresh = ground (arith, lookup-erase k j d)

erase-IsKeyed : (k : String) (d : Dict Entry) → IsKeyed d → IsKeyed (erase k d)
unfolding erase
erase-IsKeyed k [] keyed = tt
erase-IsKeyed k ((j, w) ∷ d) keyed = elim (Bool-cases (str_eq j k)) [
  | inl q ↦ rw q (erase-IsKeyed k d (keyed.2))
  | inr q ↦ rw q (keyed.0, erased k j d (keyed.1), erase-IsKeyed k d (keyed.2))
]

abbrev names : String → List Entry → Bool
names k [] = false
names k (e ∷ idle) = str_eq e.id k || names k idle

lookup-erase_entries :
    (idle : List Entry) (k : String) (d : Dict Entry)
    → lookup k (erase_entries idle d) ≡ (if names k idle then none else lookup k d)
lookup-erase_entries [] k d = refl
lookup-erase_entries (e ∷ idle) k d =
    ground (arith, lookup-erase_entries idle k (erase e.id d), lookup-erase e.id k d)

-- An entry stays as long as it has been active within the idle timeout, which is in seconds.
abbrev pub kept : Config → ℕ → Option Entry → Option Entry
kept config now none = none
kept config now (some e) =
    if leb now (e.last_active + config.idle_timeout * 1000000000) then some e else none

abbrev names_idle : Config → ℕ → Option Entry → Bool
names_idle config now none = false
names_idle config now (some e) = is_idle config now e

names-idle_entries :
    (config : Config) (now : ℕ) (k : String) (d : Dict Entry)
    → IsKeyed d
    → names k (idle_entries config now d) ≡ names_idle config now (lookup k d)
unfolding lookup
names-idle_entries config now k [] keyed = refl
names-idle_entries config now k ((j, e) ∷ d) keyed =
    ground (arith, names-idle_entries config now k d (keyed.2), keyed.0, keyed.1, str_eq_iff j k)

close_idle-connections :
    (idle : List Entry) (t : Table)
    → (close_idle idle t).connections ≡ erase_entries idle t.connections
close_idle-connections [] t = refl
close_idle-connections (e ∷ idle) t = refl

kept_lem :
    (config : Config) (now : ℕ) (o : Option Entry)
    → (if names_idle config now o then none else o) ≡ kept config now o
unfolding is_idle
kept_lem config now none = refl
kept_lem config now (some e) = ground arith

-- The tables that the server's operations make.
pub data IsServed : Table → Type 0 where
  starts : IsServed (record { connections = []; closed = [] })
  registers :
      (id : String) (socket now : ℕ) {t : Table} → IsServed t → IsServed (register id socket now t)
  unregisters :
      (id : String) (socket : ℕ) {t : Table} → IsServed t → IsServed (unregister id socket t)
  touches : (id : String) (now : ℕ) {t : Table} → IsServed t → IsServed (touch id now t)
  checks :
      (config : Config) (now : ℕ) {t : Table}
      → IsServed t
      → IsServed (check_idle_connections config now t)

erase_entries-IsKeyed :
    (idle : List Entry) (d : Dict Entry) → IsKeyed d → IsKeyed (erase_entries idle d)
erase_entries-IsKeyed [] d keyed = keyed
erase_entries-IsKeyed (e ∷ idle) d keyed =
    erase_entries-IsKeyed idle (erase e.id d) (erase-IsKeyed e.id d keyed)

lookup-id : (k : String) (d : Dict Entry) (e : Entry) → IsKeyed d → lookup k d ≡ some e → e.id ≡ k
unfolding lookup
lookup-id k [] e keyed found = cc
lookup-id k ((j, w) ∷ d) e keyed found =
    ground (arith, keyed.0, str_eq_iff j k, lookup-id k d e (keyed.2))

touch_missing :
    (id : String) (now : ℕ) (t : Table) → lookup id t.connections ≡ none → touch id now t ≡ t
touch_missing id now t q = unfold touch in ground arith

touch_found :
    (id : String) (now : ℕ) (t : Table) (e : Entry)
    → lookup id t.connections ≡ some e
    → touch id now t
      ≡ record t { connections = insert id (record e { last_active = now }) t.connections }
touch_found id now t e q = unfold touch in ground arith

touch-IsKeyed :
    (id : String) (now : ℕ) (t : Table)
    → IsKeyed t.connections
    → IsKeyed (touch id now t).connections
touch-IsKeyed id now t keyed = elim (Option-cases (lookup id t.connections)) [
  | inl q ↦ subst (λ u. IsKeyed u.connections) (sym (touch_missing id now t q)) keyed
  | inr (e, q) ↦
      let e' = record e { last_active = now } in
      subst (λ u. IsKeyed u.connections) (sym (touch_found id now t e q))
        (subst (λ k. IsKeyed (insert k e' t.connections)) (lookup-id id t.connections e keyed q)
          (insert-IsKeyed e' t.connections keyed))
]

check-IsKeyed :
    (config : Config) (now : ℕ) (t : Table)
    → IsKeyed t.connections
    → IsKeyed (check_idle_connections config now t).connections
check-IsKeyed config now t keyed =
    let idle = idle_entries config now t.connections in
    unfold check_idle_connections in
    subst IsKeyed (sym (close_idle-connections idle t))
      (erase_entries-IsKeyed idle t.connections keyed)

-- In every table that the server's operations make, in whatever order, each entry stands under its own
-- identifier, once.
IsServed-IsKeyed : (u : Table) → IsServed u → IsKeyed u.connections
unfolding register unregister
IsServed-IsKeyed u starts = tt
IsServed-IsKeyed u (registers id socket now {t} s) =
    insert-IsKeyed _ t.connections (IsServed-IsKeyed t s)
IsServed-IsKeyed u (unregisters id socket {t} s) =
    erase-IsKeyed id t.connections (IsServed-IsKeyed t s)
IsServed-IsKeyed u (touches id now {t} s) = touch-IsKeyed id now t (IsServed-IsKeyed t s)
IsServed-IsKeyed u (checks config now {t} s) = check-IsKeyed config now t (IsServed-IsKeyed t s)

-- On every table that the server's operations make, in whatever order, the idle check takes out
-- exactly the connections whose last activity is longer ago than the idle timeout, and leaves every
-- other one as it is.
pub lookup-check_idle_connections :
    (config : Config) (now : ℕ) (t : Table) (k : String)
    → IsServed t
    → lookup k (check_idle_connections config now t).connections
      ≡ kept config now (lookup k t.connections)
lookup-check_idle_connections config now t k served =
    let d = t.connections in
    let keyed = IsServed-IsKeyed t served in
    let idle = idle_entries config now d in
    unfold check_idle_connections in
    (ap (lookup k) (close_idle-connections idle t)
      ∙ lookup-erase_entries idle k d
      ∙ ap (λ b. if b then none else lookup k d) (names-idle_entries config now k d keyed)
      ∙ kept_lem config now (lookup k d))
