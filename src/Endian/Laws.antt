-- ===== src/Endian/Laws.antt =====
-- Common/DtaEndianFixup.h: the macros on values and on fields of memory.
use sedutil.Prelude.{ℕ, ◌/◌, ◌%◌, ◌^◌, ◌<◌, ◌≡◌, [], ◌∷◌, arith}
use sedutil.Endian.{swap16, swap32, bytes32, word16, word32, be16, be32}

pub swap16-swap16 : (x : ℕ) → x < 2 ^ 16 → swap16 (swap16 x) ≡ x
unfolding swap16
swap16-swap16 x h = omega arith

pub swap32-swap32 : (x : ℕ) → x < 2 ^ 32 → swap32 (swap32 x) ≡ x
unfolding swap32
swap32-swap32 x h = omega arith

-- The value of a big-endian field, read by the little-endian machine and then swapped.
pub swap16-word : (a b : ℕ) → a < 256 → b < 256 → swap16 (word16 a b) ≡ be16 a b
unfolding swap16
swap16-word a b ha hb = omega arith

-- The four bytes of a field that the protocol sends highest first, read by the little-endian machine
-- and swapped, give the value that was sent.
pub swap32-word :
    (a b c d : ℕ) → a < 256 → b < 256 → c < 256 → d < 256 → swap32 (word32 a b c d) ≡ be32 a b c d
unfolding swap32
swap32-word a b c d ha hb hc hd = omega arith

pub bytes32-swap32 :
    (x : ℕ)
    → bytes32 (swap32 x) ≡ x / 2 ^ 24 % 256 ∷ x / 2 ^ 16 % 256 ∷ x / 2 ^ 8 % 256 ∷ x % 256 ∷ []
unfolding swap32 bytes32
bytes32-swap32 x = ground arith
