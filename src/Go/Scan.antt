-- ===== src/Go/Scan.antt =====
-- `fmt.Sscanf(text, "%d", &n)` for a uint64: white space, of which the ASCII characters but the line feed
-- are taken, one digit at least, and whatever follows is not looked at. A number of more than 64 bits
-- is an error.
use Prim.Native.String.{String, [], ◌∷◌}
use Prim.Native.Char.{Char, code}
use termwire.Common.{
  ℕ, zero, suc, ◌+◌, ◌-◌, ◌*◌, ◌^◌, Bool, ltb, leb, ◌==◌, ◌&&◌, ◌||◌, if◌then◌else◌, Option, none,
  some,
}
use termwire.Common.Int.{ℤ, pos, negsuc}

abbrev pub is_digit : Char → Bool
is_digit c = leb 48 (code c) && leb (code c) 57

abbrev is_space : Char → Bool
is_space c = code c == 32 || (code c == 9 || (leb 11 (code c) && leb (code c) 13))

-- The number of the digits in front, behind those of `n`.
unfoldable pub number : ℕ → String → ℕ
number n [] = n
number n (c ∷ s) = let more = number (n * 10 + (code c - 48)) s in if is_digit c then more else n

abbrev narrow : ℕ → Option ℕ
narrow n = if ltb n (2 ^ 64) then some n else none

unfoldable pub scan_uint : String → Option ℕ
scan_uint [] = none
scan_uint (c ∷ s) =
    let rest = scan_uint s in
    if is_space c then rest else if is_digit c then narrow (number 0 (c ∷ s)) else none

-- The digits in front, of which there is at least one.
abbrev front : String → Option ℕ
front [] = none
front (c ∷ s) = if is_digit c then some (number 0 (c ∷ s)) else none

abbrev within : ℕ → Option ℕ → (ℕ → ℤ) → Option ℤ
within limit none sign = none
within limit (some n) sign = if leb n limit then some (sign n) else none

abbrev negated : ℕ → ℤ
negated zero = pos 0
negated (suc n) = negsuc n

-- `fmt.Sscanf(text, "%d", &n)` for an int: a sign may stand before the digits.
unfoldable pub scan_int : String → Option ℤ
scan_int [] = none
scan_int (c ∷ s) =
    let rest = scan_int s in
    if is_space c
    then rest
    else if code c == 45
    then within (2 ^ 63) (front s) negated
    else if code c == 43
    then within (2 ^ 63 - 1) (front s) pos
    else within (2 ^ 63 - 1) (front (c ∷ s)) pos
