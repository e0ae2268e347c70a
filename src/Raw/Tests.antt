-- ===== src/Raw/Tests.antt =====
-- A test of the hexadecimal digits.
use sedutil.Prelude.{◌≡◌, refl, false, [], ◌∷◌, codes, arith}
use sedutil.Raw.{read_hex, digit, hex_byte}
use sedutil.Raw.Digits.{to_hex, read_hex-to_hex}

read_hex-to_hex_example : read_hex (to_hex false (0x0b ∷ 0xf9 ∷ [])) ≡ 0x0b ∷ 0xf9 ∷ []
read_hex-to_hex_example = read_hex-to_hex false (0x0b ∷ 0xf9 ∷ []) (omega arith, (omega arith, tt))

mixed : read_hex (codes "00fFAb") ≡ 0 ∷ 0xff ∷ 0xab ∷ []
unfolding read_hex digit hex_byte
mixed = refl
