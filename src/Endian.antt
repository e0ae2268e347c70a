-- ===== src/Endian.antt =====
-- Common/DtaEndianFixup.h: the byte-swapping macros, and integers as the bytes of memory of the
-- little-endian machine that the header insists on. A mask with ones at the low end is `%`, a shift
-- is `*` or `/`, and `|` of values with no common bit is `+`.
pub mod Laws
mod Tests
use sedutil.Prelude.{ℕ, ◌+◌, ◌*◌, ◌/◌, ◌%◌, ◌^◌, List, [], ◌∷◌}

unfoldable pub swap16 : ℕ → ℕ
swap16 x = x % 256 * 2 ^ 8 + x / 2 ^ 8 % 256

unfoldable pub swap32 : ℕ → ℕ
swap32 x = x % 256 * 2 ^ 24 + x / 2 ^ 8 % 256 * 2 ^ 16 + x / 2 ^ 16 % 256 * 2 ^ 8 + x / 2 ^ 24 % 256

unfoldable pub swap64 : ℕ → ℕ
unfolding swap32
swap64 x = swap32 (x % 2 ^ 32) * 2 ^ 32 + swap32 (x / 2 ^ 32)

-- The memory of a little-endian integer.
unfoldable pub bytes16 : ℕ → List ℕ
bytes16 x = x % 256 ∷ x / 2 ^ 8 % 256 ∷ []

unfoldable pub bytes32 : ℕ → List ℕ
bytes32 x = x % 256 ∷ x / 2 ^ 8 % 256 ∷ x / 2 ^ 16 % 256 ∷ x / 2 ^ 24 % 256 ∷ []

-- A little-endian integer read from its bytes, lowest first.
abbrev pub word16 : ℕ → ℕ → ℕ
word16 a b = a + b * 2 ^ 8

abbrev pub word32 : ℕ → ℕ → ℕ → ℕ → ℕ
word32 a b c d = a + b * 2 ^ 8 + c * 2 ^ 16 + d * 2 ^ 24

abbrev pub word64 : ℕ → ℕ → ℕ → ℕ → ℕ → ℕ → ℕ → ℕ → ℕ
word64 a b c d e f g h = word32 a b c d + word32 e f g h * 2 ^ 32

-- A big-endian integer, as the TCG protocol sends it.
abbrev pub be16 : ℕ → ℕ → ℕ
be16 a b = a * 2 ^ 8 + b

abbrev pub be32 : ℕ → ℕ → ℕ → ℕ → ℕ
be32 a b c d = a * 2 ^ 24 + b * 2 ^ 16 + c * 2 ^ 8 + d

abbrev pub be64 : ℕ → ℕ → ℕ → ℕ → ℕ → ℕ → ℕ → ℕ → ℕ
be64 a b c d e f g h = be32 a b c d * 2 ^ 32 + be32 e f g h
