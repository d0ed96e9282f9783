-- ===== src/Crc32/Tests.antt =====
-- The check value that the literature gives for this checksum.
use termwire.Common.{◌≡◌, refl, [], ◌∷◌}
use termwire.Crc32.{checksum_ieee}

check_value :
    checksum_ieee (b'1' ∷ b'2' ∷ b'3' ∷ b'4' ∷ b'5' ∷ b'6' ∷ b'7' ∷ b'8' ∷ b'9' ∷ []) ≡ 0xcbf43926
unfolding checksum_ieee
check_value = refl
