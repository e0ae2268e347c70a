-- ===== src/Raw/Digits.antt =====
-- Common/DtaDevOpal.cpp: the reading of hexadecimal digits.
use sedutil.Prelude.{
  ℕ, ◌+◌, ◌*◌, ◌/◌, ◌%◌, ◌<◌, ◌≡◌, refl, ap, arith, Bool, true, false, List, [], ◌∷◌, All, ltb,
  if◌then◌else◌,
}
use sedutil.Raw.{digit, hex_byte, read_hex}

-- The code of a digit, from 10 on a letter, a capital one or a small one.
abbrev pub hex_digit : Bool → ℕ → ℕ
hex_digit capital n = if ltb n 10 then 48 + n else if capital then 55 + n else 87 + n

-- Bytes in hexadecimal digits, with letters of either kind.
abbrev pub to_hex : Bool → List ℕ → List ℕ
to_hex capital [] = []
to_hex capital (b ∷ bs) =
    hex_digit capital (b / 16) ∷ hex_digit capital (b % 16) ∷ to_hex capital bs

digit-hex_digit : (capital : Bool) (n : ℕ) → n < 16 → digit (hex_digit capital n) ≡ n
unfolding digit
digit-hex_digit true n h = ground arith
digit-hex_digit false n h = ground arith

-- Bytes that are written in hexadecimal digits, with capital or small letters, are read back.
pub read_hex-to_hex :
    (capital : Bool) (bs : List ℕ) → All (λ b. b < 256) bs → read_hex (to_hex capital bs) ≡ bs
unfolding read_hex hex_byte
read_hex-to_hex capital [] h = refl
read_hex-to_hex capital (b ∷ bs) h =
    let whole : (16 * (b / 16) % 256 + b % 16) % 256 ≡ b = omega (arith, h.0) in
    rw
      (
        digit-hex_digit capital (b / 16) (omega (arith, h.0)),
        digit-hex_digit capital (b % 16) (omega arith),
        whole,
      )
      (ap (λ l. b ∷ l) (read_hex-to_hex capital bs h.1))
