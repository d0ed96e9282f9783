-- ===== src/Go/Fmt.antt =====
-- The verbs of `fmt.Sprintf` that the program uses, over numbers below 2 ^ 64.
use Prim.Native.String.{String, ◌++◌, len, slice}
use termwire.Common.{ℕ, zero, suc, ◌+◌, ◌-◌, ◌/◌, ◌%◌, ltb, ◌==◌, if◌then◌else◌}
use termwire.Common.Int.{ℤ, pos, negsuc}

abbrev pub digit : ℕ → String
digit n =
    if n == 0
    then "0"
    else if n == 1
    then "1"
    else if n == 2
    then "2"
    else if n == 3
    then "3"
    else if n == 4
    then "4"
    else if n == 5
    then "5"
    else if n == 6
    then "6"
    else if n == 7
    then "7"
    else if n == 8
    then "8"
    else "9"

-- `%0wd`, for a number of at most `w` digits.
unfoldable pub padded : ℕ → ℕ → String
padded zero n = ""
padded (suc w) n = padded w (n / 10) ++ digit (n % 10)

-- `%d`: a 64-bit number has at most 20 digits, so the rounds suffice.
unfoldable pub digits : ℕ → ℕ → String
digits zero n = ""
digits (suc rounds) n =
    let front = digits rounds (n / 10) in if ltb n 10 then digit n else front ++ digit (n % 10)

unfoldable pub decimal : ℕ → String
unfolding digits
decimal n = digits 20 n

-- `%d` of an int.
abbrev pub signed : ℤ → String
signed (pos n) = decimal n
signed (negsuc n) = "-" ++ decimal (n + 1)

-- `%.2f` of `float64(cents) / 100.0`. The quotient of a 32-bit number of cents is within half a
-- unit of the fifteenth digit, so that its print has exactly the digits of the cents.
unfoldable pub money : ℕ → String
unfolding decimal padded
money cents = decimal (cents / 100) ++ "." ++ padded 2 (cents % 100)

-- `s[len(s)-4:]`
unfoldable pub last_four : String → String
last_four s = slice s (len s - 4) (len s)
