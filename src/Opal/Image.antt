-- ===== src/Opal/Image.antt =====
-- Common/DtaDevOpal.cpp: the blocks in which `loadPBA` writes an image to the shadow MBR.
use sedutil.Prelude.{
  ℕ, zero, suc, ◌+◌, ◌<◌, ◌≤◌, ◌≡◌, refl, sym, ap, subst, arith, true, List, [], ◌∷◌, ◌++◌, length,
  take, drop, ltb, if◌then◌else◌,
}
use sedutil.Lexicon.Uid.{opal_mbr}
use sedutil.Lexicon.Method.{OpalMethod}
use sedutil.Command.{build, reset_method}
use sedutil.Device.{Platform, M, pure}
use sedutil.Session.{DtaSession}
use sedutil.Opal.{◌>>?◌, invoke}
use sedutil.Opal.Setup.{block_args, write_blocks}

-- Blocks that follow each other from an offset on, none of them empty or longer than `size`, and
-- that are the whole of the bytes.
abbrev pub Covers : ℕ → ℕ → List ℕ → List (ℕ × List ℕ) → Type 0
Covers size pos bytes [] = bytes ≡ []
Covers size pos bytes ((offset, block) ∷ blocks) =
    (offset ≡ pos)
    × (0 < length block)
    × (length block ≤ size)
    × ((rest : List ℕ) × (bytes ≡ block ++ rest) × Covers size (pos + length block) rest blocks)

-- One Set call on the MBR table for each block, up to the first that fails.
abbrev pub write_all : Platform → DtaSession → List (ℕ × List ℕ) → M ℕ
write_all p s [] = pure 0
write_all p s ((offset, block) ∷ blocks) =
    invoke p s (build (block_args offset block) true (reset_method opal_mbr OpalMethod.set))
    >>? write_all p s blocks

take-drop : (n : ℕ) (l : List ℕ) → take n l ++ drop n l ≡ l
take-drop zero l = refl
take-drop (suc n) [] = refl
take-drop (suc n) (x ∷ l) = ap (λ t. x ∷ t) (take-drop n l)

length-take_min : (n : ℕ) (l : List ℕ) → n ≤ length l → length (take n l) ≡ n
length-take_min zero l h = refl
length-take_min (suc n) [] h = omega (arith, h)
length-take_min (suc n) (x ∷ l) h = omega (arith, length-take_min n l (omega arith))

length-drop_sub : (n : ℕ) (l : List ℕ) → n ≤ length l → length (drop n l) + n ≡ length l
length-drop_sub zero l h = omega arith
length-drop_sub (suc n) [] h = omega (arith, h)
length-drop_sub (suc n) (x ∷ l) h = omega (arith, length-drop_sub n l (omega arith))

module _ (p : Platform) (s : DtaSession) (most : ℕ) where
  -- With a block size that is not zero, the loop of `loadPBA` ends: it makes one Set call for each
  -- of a list of blocks that cover the image from its first byte to its last, in order and without a
  -- gap, none longer than the block size.
  pub write_blocks-Covers :
      (fuel size pos : ℕ) (bytes : List ℕ)
      → 0 < size
      → size ≤ most
      → length bytes < fuel
      → (blocks : List (ℕ × List ℕ)) × (write_blocks p fuel size pos bytes s ≡ write_all p s blocks)
        × Covers most pos bytes blocks
  unfolding write_blocks
  write_blocks-Covers zero size pos bytes h m f = absurd (omega (arith, f))
  write_blocks-Covers (suc fuel) size pos [] h m f = ([], refl, refl)
  write_blocks-Covers (suc fuel) size pos (b ∷ l) h m f =
      let bytes = b ∷ l in
      let short = if ltb (length bytes) size then length bytes else size in
      let some_bytes : 0 < short = ground arith in
      let fits : short ≤ length bytes = ground arith in
      let bounded : short ≤ most = ground arith in
      let taken = length-take_min short bytes fits in
      let left = length-drop_sub short bytes fits in
      let (blocks, same, covers) =
        write_blocks-Covers fuel short (pos + short) (drop short bytes) some_bytes bounded
          (omega (arith, left)) in
      (
        (pos, take short bytes) ∷ blocks,
        ap
            (λ rest.
              invoke p s (
                build (block_args pos (take short bytes)) true
                  (reset_method opal_mbr OpalMethod.set))
              >>? rest)
            same,
        (
          refl,
          omega (arith, taken),
          omega (arith, taken),
          (
            drop short bytes,
            sym (take-drop short bytes),
            subst (λ n. Covers most (pos + n) (drop short bytes) blocks) (sym taken) covers,
          ),
        ),
      )
