-- ===== src/Go/Time.antt =====
-- The part of `time.Time` that the program sees: seconds since the start of the year 1 in UTC, and
-- the zone in which the time is written. Fractions of a second are dropped, as RFC 3339 text
-- without a fraction drops them.
use Prim.Native.Char.{code}
use Prim.Native.String.{String, ◌++◌}
use termwire.Common.{
  ℕ, zero, suc, ◌+◌, ◌-◌, ◌*◌, ◌/◌, ◌%◌, min, Bool, true, false, ◌&&◌, ◌||◌, not, ltb, leb, ◌==◌,
  if◌then◌else◌, List, [], ◌∷◌, Option, none, some, length, get_or, drop,
}
use termwire.Go.Fmt.{padded}

-- The offset of a zone, in minutes.
pub data Zone : Type 0 where
  utc : Zone
  east west : ℕ → Zone

pub record Time : Type 0 where
  pub seconds : ℕ
  pub zone : Zone

abbrev pub zero_time : Time
zero_time = record { seconds = 0; zone = utc }

abbrev pub is_zero : Time → Bool
is_zero t = t.seconds == 0

-- `t.Unix()`, of a time after 1970.
unfoldable pub unix : Time → ℕ
unix t = t.seconds - 62135596800

-- `t.Add(-24 * time.Hour)`
abbrev pub day_before : Time → Time
day_before t = record t { seconds = t.seconds - 86400 }

abbrev wall_clock : Time → ℕ
wall_clock t = elim (t.zone) [
  | utc ↦ t.seconds
  | east m ↦ t.seconds + 60 * m
  | west m ↦ t.seconds - 60 * m
]

abbrev is_leap : ℕ → Bool
is_leap y = y % 4 == 0 && (not (y % 100 == 0) || y % 400 == 0)

abbrev days_in : ℕ → ℕ → ℕ
days_in y m =
    if m == 2
    then (if is_leap y then 29 else 28)
    else if m == 4 || (m == 6 || (m == 9 || m == 11))
    then 30
    else 31

-- Year and day of the year, both from 0, of a day counted from the start of year 1.
pub year_day : ℕ → ℕ × ℕ
year_day d =
    let n400 = d / 146097 in
    let r400 = d % 146097 in
    let n100 = min 3 (r400 / 36524) in
    let r100 = r400 - 36524 * n100 in
    let n4 = r100 / 1461 in
    let r4 = r100 % 1461 in
    let n1 = min 3 (r4 / 365) in (400 * n400 + 100 * n100 + 4 * n4 + n1, r4 - 365 * n1)

-- Month and day of the month, both from 1, with the months left and the next month.
pub month_day : ℕ → ℕ → ℕ → ℕ → ℕ × ℕ
month_day zero y m d = (m, d + 1)
month_day (suc left) y m d =
    let later = month_day left y (m + 1) (d - days_in y m) in
    if ltb d (days_in y m) then (m, d + 1) else later

offset_text : ℕ → String
unfolding padded
offset_text m = padded 2 (m / 60) ++ ":" ++ padded 2 (m % 60)

zone_text : Zone → String
unfolding offset_text
zone_text utc = "Z"
zone_text (east m) = if m == 0 then "Z" else "+" ++ offset_text m
zone_text (west m) = if m == 0 then "Z" else "-" ++ offset_text m

-- `t.Format(time.RFC3339)`
unfoldable pub format_rfc3339 : Time → String
unfolding padded zone_text year_day month_day
format_rfc3339 t =
    let s = wall_clock t in
    let (y, yday) = year_day (s / 86400) in
    let (m, d) = month_day 11 (y + 1) 1 yday in
    padded 4 (y + 1)
    ++ "-"
    ++ padded 2 m
    ++ "-"
    ++ padded 2 d
    ++ "T"
    ++ padded 2 (s / 3600 % 24)
    ++ ":"
    ++ padded 2 (s / 60 % 60)
    ++ ":"
    ++ padded 2 (s % 60)
    ++ zone_text t.zone

-- The parser reads the same fixed form: a field is two digits at a place of the text.
abbrev codes : String → List ℕ
codes String.[] = []
codes (String.◌∷◌ c s) = code c ∷ codes s

abbrev is_digit : ℕ → Bool
is_digit c = leb b'0' c && leb c b'9'

-- `none` unless there are digits.
abbrev two_at : List ℕ → ℕ → Option ℕ
two_at s i =
    let a = get_or s i 0 in
    let b = get_or s (i + 1) 0 in
    if is_digit a && is_digit b then some ((a - b'0') * 10 + (b - b'0')) else none

infixl 5 ◌>>=◌ ◌>>◌
abbrev ◌>>=◌ : {A B : Type 0} → Option A → (A → Option B) → Option B
none >>= f = none
some a >>= f = f a

abbrev ◌>>◌ : {B : Type 0} → Option (Unit {0}) → Option B → Option B
m >> k = m >>= λ _. k

abbrev check : Bool → Option (Unit {0})
check true = some tt
check false = none

zone_of : List ℕ → Option Zone
zone_of [] = none
zone_of (c ∷ s) = if c == b'Z' then (if length s == 0 then some utc else none) else do
  check (length s == 5 && get_or s 2 0 == b':' && (c == b'+' || c == b'-'))
  h ← two_at s 0
  m ← two_at s 3
  check (leb h 24 && ltb m 60)
  some (if c == b'+' then east (h * 60 + m) else west (h * 60 + m))

-- Days before the year `y + 1`, and before a month of it.
days_before_year : ℕ → ℕ
days_before_year y = 365 * y + y / 4 - y / 100 + y / 400

days_before_month : ℕ → ℕ → ℕ
days_before_month y zero = 0
days_before_month y (suc m) = (if m == 0 then 0 else days_in y m) + days_before_month y m

at_zone : ℕ → Zone → Time
at_zone s utc = record { seconds = s; zone = utc }
at_zone s (east m) = record { seconds = s - 60 * m; zone = east m }
at_zone s (west m) = record { seconds = s + 60 * m; zone = west m }

-- `time.Parse(time.RFC3339, s)`, on text without a fraction of a second and with each number at
-- its full width, from the year 1 on; `none` is the error.
unfoldable pub parse_rfc3339 : String → Option Time
unfolding zone_of days_before_year days_before_month at_zone
parse_rfc3339 text = do
  let s = codes text
  check (get_or s 4 0 == b'-' && get_or s 7 0 == b'-' && get_or s 10 0 == b'T')
  check (get_or s 13 0 == b':' && get_or s 16 0 == b':')
  y_hi ← two_at s 0
  y_lo ← two_at s 2
  m ← two_at s 5
  d ← two_at s 8
  hour ← two_at s 11
  minute ← two_at s 14
  second ← two_at s 17
  zone ← zone_of (drop 19 s)
  let y = y_hi * 100 + y_lo
  check (leb 1 y && leb 1 m && leb m 12 && leb 1 d && leb d (days_in y m))
  check (ltb hour 24 && ltb minute 60 && ltb second 60)
  let days = days_before_year (y - 1) + days_before_month y m + (d - 1)
  some (at_zone (days * 86400 + hour * 3600 + minute * 60 + second) zone)
