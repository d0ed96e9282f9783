-- ===== src/Pos/Manager/Statistics/Sums.antt =====
-- The statistics against sums over the rows of the database.
use termwire.Common.{
  ==→ne, ==→eq, ◌≢◌, ℕ, ◌+◌, u64, ◌==◌, ◌≡◌, refl, sym, ap, ◌∙◌, subst, if◌then◌else◌, List, [],
  ◌∷◌, none, some, length, arith, Bool-cases, inl, inr,
}
use termwire.Pos.Db.{Row}
use termwire.Pos.Manager.{Manager}
use termwire.Pos.Manager.Statistics.{
  StateGroup, ByState, add_to_states, group_by_state, count_group, count_groups, by_state_of,
  get_statistics, get_active_transaction_count, get_completed_transaction_count, nothing_yet,
}
use termwire.Pos.Transaction.{state_code, payment_completed, refunded}

abbrev pub amounts : List Row → ℕ
amounts [] = 0
amounts (r ∷ rows) = r.amount_cents + amounts rows

abbrev pub amounts_in : ℕ → List Row → ℕ
amounts_in s [] = 0
amounts_in s (r ∷ rows) = (if r.state == s then r.amount_cents else 0) + amounts_in s rows

-- The groups' total, and the total of the group of a state.
abbrev totals : List StateGroup → ℕ
totals [] = 0
totals (g ∷ groups) = g.total + totals groups

-- The last group of a state, or `d`.
abbrev last_of : ℕ → ℕ → List StateGroup → ℕ
last_of s d [] = d
last_of s d (g ∷ groups) = last_of s (if g.state == s then g.total else d) groups

totals-add_to_states :
    (r : Row) (groups : List StateGroup)
    → totals (add_to_states r groups) ≡ r.amount_cents + totals groups
totals-add_to_states r [] = refl
totals-add_to_states r (g ∷ groups) = ground (arith, totals-add_to_states r groups)

totals-group_by_state : (rows : List Row) → totals (group_by_state rows) ≡ amounts rows
totals-group_by_state [] = refl
totals-group_by_state (r ∷ rows) =
    omega (arith, totals-add_to_states r (group_by_state rows), totals-group_by_state rows)

abbrev in_state : ℕ → List StateGroup → ℕ
in_state s [] = 0
in_state s (g ∷ groups) = (if g.state == s then g.total else 0) + in_state s groups

in_state-add_to_states :
    (s : ℕ) (r : Row) (groups : List StateGroup)
    → in_state s (add_to_states r groups)
      ≡ (if r.state == s then r.amount_cents else 0) + in_state s groups
in_state-add_to_states s r [] = refl
in_state-add_to_states s r (g ∷ groups) = ground (arith, in_state-add_to_states s r groups)

in_state-group_by_state :
    (s : ℕ) (rows : List Row) → in_state s (group_by_state rows) ≡ amounts_in s rows
in_state-group_by_state s [] = refl
in_state-group_by_state s (r ∷ rows) =
    in_state-add_to_states s r (group_by_state rows)
    ∙ ap (λ n. (if r.state == s then r.amount_cents else 0) + n) (in_state-group_by_state s rows)

-- No group of a state, and no two groups of one state.
abbrev Lacks : ℕ → List StateGroup → Type 0
Lacks s [] = Unit
Lacks s (g ∷ groups) = (g.state ≢ s) × Lacks s groups

abbrev IsApart : List StateGroup → Type 0
IsApart [] = Unit
IsApart (g ∷ groups) = Lacks g.state groups × IsApart groups

Lacks-add_to_states :
    (s : ℕ) (r : Row) (groups : List StateGroup)
    → r.state ≢ s
    → Lacks s groups
    → Lacks s (add_to_states r groups)
Lacks-add_to_states s r [] ne lacks = (ne, tt)
Lacks-add_to_states s r (g ∷ groups) ne lacks = elim (Bool-cases (g.state == r.state)) [
  | inl e ↦ rw e lacks
  | inr e ↦ rw e (lacks.0, Lacks-add_to_states s r groups ne (lacks.1))
]

add_to_states-IsApart :
    (r : Row) (groups : List StateGroup) → IsApart groups → IsApart (add_to_states r groups)
add_to_states-IsApart r [] apart = (tt, tt)
add_to_states-IsApart r (g ∷ groups) apart = elim (Bool-cases (g.state == r.state)) [
  | inl e ↦ rw e apart
  | inr e ↦ rw e (
    Lacks-add_to_states g.state r groups (λ q. ==→ne g.state r.state e (sym q)) (apart.0),
    add_to_states-IsApart r groups (apart.1),
  )
]

group_by_state-IsApart : (rows : List Row) → IsApart (group_by_state rows)
group_by_state-IsApart [] = tt
group_by_state-IsApart (r ∷ rows) =
    add_to_states-IsApart r (group_by_state rows) (group_by_state-IsApart rows)

last_of-Lacks : (s d : ℕ) (groups : List StateGroup) → Lacks s groups → last_of s d groups ≡ d
last_of-Lacks s d [] lacks = refl
last_of-Lacks s d (g ∷ groups) lacks = ground (arith, lacks.0, last_of-Lacks s d groups (lacks.1))

in_state-Lacks : (s : ℕ) (groups : List StateGroup) → Lacks s groups → in_state s groups ≡ 0
in_state-Lacks s [] lacks = refl
in_state-Lacks s (g ∷ groups) lacks = ground (arith, lacks.0, in_state-Lacks s groups (lacks.1))

-- Where no two groups share a state, the last group of a state is the only one.
last_of-IsApart :
    (s : ℕ) (groups : List StateGroup) → IsApart groups → last_of s 0 groups ≡ in_state s groups
last_of-IsApart s [] apart = refl
last_of-IsApart s (g ∷ groups) apart = elim (Bool-cases (g.state == s)) [
  | inl e ↦
      let lacks = subst (λ k. Lacks k groups) (==→eq g.state s e) (apart.0) in
      rw e (last_of-Lacks s g.total groups lacks ∙ omega (arith, in_state-Lacks s groups lacks))
  | inr e ↦ rw e (last_of-IsApart s groups (apart.1) ∙ omega arith)
]

count_groups-total :
    (groups : List StateGroup) (s : ByState) (n : ℕ)
    → s.total_amount_cents ≡ u64 n
    → (count_groups groups s).total_amount_cents ≡ u64 (n + totals groups)
count_groups-total [] s n e = e ∙ ap u64 (omega arith)
count_groups-total (g ∷ groups) s n e =
    count_groups-total groups (count_group g s) (n + g.total) (omega (arith, e))
    ∙ ap u64 (omega arith)

count_groups-completed :
    (groups : List StateGroup) (s : ByState)
    → (count_groups groups s).completed_amount_cents
      ≡ last_of (state_code payment_completed) s.completed_amount_cents groups
count_groups-completed [] s = refl
count_groups-completed (g ∷ groups) s = count_groups-completed groups (count_group g s)

count_groups-refunded :
    (groups : List StateGroup) (s : ByState)
    → (count_groups groups s).refunded_amount_cents
      ≡ last_of (state_code refunded) s.refunded_amount_cents groups
count_groups-refunded [] s = refl
count_groups-refunded (g ∷ groups) s = count_groups-refunded groups (count_group g s)

abbrev result : List Row → ByState
result rows = count_groups (group_by_state rows) nothing_yet

state_total : (s : ℕ) (rows : List Row) → last_of s 0 (group_by_state rows) ≡ amounts_in s rows
state_total s rows =
    last_of-IsApart s (group_by_state rows) (group_by_state-IsApart rows)
    ∙ in_state-group_by_state s rows

-- GetStatistics, if its queries do not fail, counts the rows of the database and the active
-- transactions, and gives three sums over all rows: of the amounts, on 64 bits, of the amounts of the
-- completed transactions, and of those of the refunded ones.
pub get_statistics-amounts :
    (m : Manager)
    → let s = get_statistics none none m in
      (s.active_count ≡ length m.active)
      × (s.completed_count ≡ length m.db.rows)
      × (b : ByState) × (s.by_state ≡ some b)
      × (b.total_amount_cents ≡ u64 (amounts m.db.rows))
      × (b.completed_amount_cents ≡ amounts_in (state_code payment_completed) m.db.rows)
      × (b.refunded_amount_cents ≡ amounts_in (state_code refunded) m.db.rows)
unfolding get_statistics by_state_of get_active_transaction_count get_completed_transaction_count
get_statistics-amounts m =
    let rows = m.db.rows in
    (
      refl,
      refl,
      result rows,
      refl,
      count_groups-total (group_by_state rows) nothing_yet 0 refl
          ∙ ap u64 (omega (arith, totals-group_by_state rows)),
      count_groups-completed (group_by_state rows) nothing_yet
          ∙ state_total (state_code payment_completed) rows,
      count_groups-refunded (group_by_state rows) nothing_yet
          ∙ state_total (state_code refunded) rows,
    )
