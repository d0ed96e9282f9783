-- ===== src/Pos/Report/Groups.antt =====
-- The groups of rows by currency and state, against a count and a sum over the rows.
use termwire.Common.{
  ℕ, ◌+◌, u32, ◌≡◌, refl, subst, sym, Bool, true, false, ◌&&◌, ◌==◌, String, str_eq, str_eq_iff,
  if◌then◌else◌, List, [], ◌∷◌, Option, none, some, inl, inr, arith, Bool-cases,
}
use termwire.Message.Responses.{CurrencyTotals}
use termwire.Pos.Db.{Row, select_rows}
use termwire.Pos.Report.{Group, add_to_groups, group_rows, is_open}

-- Whether a row of the open batch has this currency and state.
abbrev pub counts : String → ℕ → Row → Bool
counts c k r = is_open r && str_eq r.currency c && r.state == k

unfoldable pub count_of : String → ℕ → List Row → ℕ
count_of c k [] = 0
count_of c k (r ∷ rows) = (if counts c k r then 1 else 0) + count_of c k rows

unfoldable pub sum_of : String → ℕ → List Row → ℕ
sum_of c k [] = 0
sum_of c k (r ∷ rows) = (if counts c k r then r.amount_cents else 0) + sum_of c k rows

-- The entry of a report for a currency: none without transactions, and otherwise their number and the
-- sum of their amounts in a machine word.
abbrev pub entry_of : String → ℕ → List Row → Option CurrencyTotals
entry_of c k rows =
    if count_of c k rows == 0
    then none
    else some
        (record { currency = c; amount_cents = u32 (sum_of c k rows); count = count_of c k rows })

unfoldable pub find_group : String → ℕ → List Group → Option Group
find_group c k [] = none
find_group c k (g ∷ gs) = if str_eq g.currency c && g.state == k then some g else find_group c k gs

abbrev pub grown : String → ℕ → ℕ → ℕ → Option Group → Option Group
grown c k total count none =
    if count == 0
    then none
    else some (record { currency = c; state = k; total = total; count = count })
grown c k total count (some g) =
    some (record g { total = g.total + total; count = g.count + count })

pub find_group-none : (c : String) (k : ℕ) → find_group c k [] ≡ none
unfolding find_group
find_group-none c k = refl

find_group-add_to_groups :
    (c : String) (k : ℕ) (r : Row) (gs : List Group)
    → find_group c k (add_to_groups r gs) ≡ (
        if str_eq r.currency c && r.state == k
        then grown c k r.amount_cents 1 (find_group c k gs)
        else find_group c k gs)
unfolding find_group add_to_groups
find_group-add_to_groups c k r [] = ground (arith, str_eq_iff r.currency c)
find_group-add_to_groups c k r (g ∷ gs) = ground (
  arith,
  str_eq_iff r.currency c,
  str_eq_iff g.currency r.currency,
  str_eq_iff g.currency c,
  find_group-add_to_groups c k r gs,
)

grown-grown :
    (c : String) (k a b n : ℕ) (o : Option Group)
    → grown c k b n (grown c k a 1 o) ≡ grown c k (a + b) (1 + n) o
grown-grown c k a b n none = ground arith
grown-grown c k a b n (some g) = ground arith

grown_none : (c : String) (k : ℕ) (o : Option Group) → grown c k 0 0 o ≡ o
grown_none c k none = refl
grown_none c k (some g) = ground arith

pub find_group-group_rows :
    (c : String) (k : ℕ) (rows : List Row) (gs : List Group)
    → find_group c k (group_rows (select_rows is_open rows) gs)
      ≡ grown c k (sum_of c k rows) (count_of c k rows) (find_group c k gs)
unfolding group_rows select_rows sum_of count_of
find_group-group_rows c k [] gs = sym (grown_none c k (find_group c k gs))
find_group-group_rows c k (r ∷ rows) gs = ground (
  arith,
  find_group-group_rows c k rows gs,
  find_group-group_rows c k rows (add_to_groups r gs),
  find_group-add_to_groups c k r gs,
  grown-grown c k r.amount_cents (sum_of c k rows) (count_of c k rows) (find_group c k gs),
)

-- No two groups have the same currency and state.
unfoldable pub Distinct : List Group → Type 0
Distinct [] = Unit {0}
Distinct (g ∷ gs) = (find_group g.currency g.state gs ≡ none) × Distinct gs

add_to_groups-Distinct : (r : Row) (gs : List Group) → Distinct gs → Distinct (add_to_groups r gs)
unfolding add_to_groups find_group Distinct
add_to_groups-Distinct r [] d = (refl, tt)
add_to_groups-Distinct r (g ∷ gs) d =
    elim (Bool-cases (str_eq g.currency r.currency && g.state == r.state)) [
      | inl e ↦ subst Distinct (sym (joins e)) d
      | inr e ↦ subst Distinct (sym (goes_on e)) (
        ground (
          arith,
          d.0,
          find_group-add_to_groups g.currency g.state r gs,
          str_eq_iff r.currency g.currency,
          str_eq_iff g.currency r.currency,
        ),
        add_to_groups-Distinct r gs d.1,
      )
    ]
  where
    joins :
        str_eq g.currency r.currency && g.state == r.state ≡ true
        → add_to_groups r (g ∷ gs)
          ≡ record g { total = g.total + r.amount_cents; count = g.count + 1 } ∷ gs
    joins e = unfold add_to_groups in ground arith

    goes_on :
        str_eq g.currency r.currency && g.state == r.state ≡ false
        → add_to_groups r (g ∷ gs) ≡ g ∷ add_to_groups r gs
    goes_on e = unfold add_to_groups in ground arith

pub group_rows-Distinct :
    (rows : List Row) (gs : List Group) → Distinct gs → Distinct (group_rows rows gs)
unfolding group_rows
group_rows-Distinct [] gs d = d
group_rows-Distinct (r ∷ rows) gs d =
    group_rows-Distinct rows (add_to_groups r gs) (add_to_groups-Distinct r gs d)
