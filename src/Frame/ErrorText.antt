-- ===== src/Frame/ErrorText.antt =====
-- The texts of ReadFrame's errors. Those of the connection's own errors come from outside.
use Prim.Native.String.{String, ◌++◌}
use termwire.Common.{ℕ, ◌/◌, ◌%◌, ltb, if◌then◌else◌, List, [], ◌∷◌}
use termwire.Common.{◌==◌}
use termwire.Frame.Reader.{IoError, Error, io, invalid_magic, invalid_etx, crc_mismatch}
use termwire.Go.Fmt.{decimal}

abbrev hex_digit : ℕ → String
hex_digit n =
    if ltb n 10
    then decimal n
    else if n == 10
    then "a"
    else if n == 11
    then "b"
    else if n == 12
    then "c"
    else if n == 13
    then "d"
    else if n == 14
    then "e"
    else "f"

-- `%v` of a slice of bytes
abbrev spaced : List ℕ → String
spaced [] = ""
spaced (b ∷ []) = decimal b
spaced (b ∷ c ∷ bytes) = decimal b ++ " " ++ spaced (c ∷ bytes)

unfoldable pub error_text : (IoError → String) → Error → String
error_text name (io e) = name e
error_text name (invalid_magic m) = "invalid magic bytes: [" ++ spaced m ++ "]"
error_text name (invalid_etx b) = "invalid ETX byte: 0x" ++ hex_digit (b / 16) ++ hex_digit (b % 16)
error_text name crc_mismatch = "invalid frame: CRC mismatch"
