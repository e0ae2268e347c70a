-- ===== src/Endian/Tests.antt =====
-- The byte orders at concrete values.
use sedutil.Prelude.{◌≡◌, arith}
use sedutil.Endian.{swap32}
use sedutil.Endian.Laws.{swap32-swap32}

swap32-swap32_example : swap32 (swap32 0x12345678) ≡ 0x12345678
swap32-swap32_example = swap32-swap32 0x12345678 (omega arith)
