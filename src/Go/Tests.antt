-- ===== src/Go/Tests.antt =====
-- Texts that Go prints and reads.
use termwire.Common.{◌≡◌, refl, ◌+◌, some, none}
use termwire.Go.Fmt.{decimal, money, padded, last_four}
use termwire.Common.Int.{negsuc}
use termwire.Go.Scan.{scan_int, number}
use termwire.Go.Time.{Time, utc, east, format_rfc3339, parse_rfc3339}

abbrev noon : Time
noon = record { seconds = 62135596800 + 1709210096; zone = utc }

abbrev istanbul : Time
istanbul = record { seconds = 62135596800 + 1709210096; zone = east 180 }

prints_decimal : decimal 18446744073709551615 ≡ "18446744073709551615"
unfolding decimal
prints_decimal = refl

prints_zero : decimal 0 ≡ "0"
unfolding decimal
prints_zero = refl

prints_money : money 100005 ≡ "1000.05"
unfolding money
prints_money = refl

prints_padded : padded 6 42 ≡ "000042"
unfolding padded
prints_padded = refl

cuts_last_four : last_four "5406000000001234" ≡ "1234"
unfolding last_four
cuts_last_four = refl

prints_time : format_rfc3339 noon ≡ "2024-02-29T12:34:56Z"
unfolding format_rfc3339
prints_time = refl

prints_zone : format_rfc3339 istanbul ≡ "2024-02-29T15:34:56+03:00"
unfolding format_rfc3339
prints_zone = refl

reads_time : parse_rfc3339 "2024-02-29T12:34:56Z" ≡ some noon
unfolding parse_rfc3339
reads_time = refl

reads_zone : parse_rfc3339 "2024-02-29T15:34:56+03:00" ≡ some istanbul
unfolding parse_rfc3339
reads_zone = refl

refuses_day : parse_rfc3339 "2023-02-29T12:34:56Z" ≡ none
unfolding parse_rfc3339
refuses_day = refl

scans_signed : scan_int " -12x" ≡ some (negsuc 11)
unfolding scan_int number
scans_signed = refl

scans_no_number : scan_int "eighty" ≡ none
unfolding scan_int
scans_no_number = refl
