-- ===== src/Enterprise/BandIds.antt =====
-- Common/DtaDevEnterprise.cpp: the identifiers of bands and of their masters.
use sedutil.Prelude.{
  ℕ, suc, ◌+◌, ◌/◌, ◌%◌, ◌^◌, ◌<◌, ◌≡◌, refl, sym, ap, ◌∙◌, arith, false, [], ◌∷◌, ◌++◌, ltb, none,
  some, length, take, if◌then◌else◌, ◌⊎◌, inl, inr, codes,
}
use Prim.Native.Nat.{bit_or, bit_and}
use sedutil.Opal.Users.{to_string}
use sedutil.Opal.UserIds.{atoi-to_string, decimal-head}
use sedutil.Enterprise.{setband, element}
use sedutil.Enterprise.Bands.{band_user, band_object}
use sedutil.Enterprise.Users.{master_user}

-- The numbers that the upper byte of a band's number takes.
upper-cases : (j : ℕ) → j < 5 → (j ≡ 0) ⊎ ((j ≡ 1) ⊎ ((j ≡ 2) ⊎ ((j ≡ 3) ⊎ (j ≡ 4))))
upper-cases j h = grind arith

-- The upper byte of a band below 1024 is lost: it is in the four bits that are cleared.
upper_lost :
    (j : ℕ) → j < 5 → (bit_and (bit_or j 0x80) 0xf0 ≡ 0x80) × (bit_and (bit_or j 0) 0xf0 ≡ 0)
upper_lost j h = elim (upper-cases j h) [
  | inl e ↦ rw e (refl, refl)
  | inr (inl e) ↦ rw e (refl, refl)
  | inr (inr (inl e)) ↦ rw e (refl, refl)
  | inr (inr (inr (inl e))) ↦ rw e (refl, refl)
  | inr (inr (inr (inr e))) ↦ rw e (refl, refl)
]

-- What the vectors of a band are, for all bands that the drive may have.
band_user-at :
    (band : ℕ)
    → band < 1024
    → band_user band ≡ 0xa8 ∷ 0 ∷ 0 ∷ 0 ∷ 9 ∷ 0 ∷ 0 ∷ 0x80 ∷ (band + 1) % 256 ∷ []
unfolding setband
band_user-at band h =
    let cut : (band + 1) % 65536 ≡ band + 1 = omega arith in
    rw (cut, (upper_lost ((band + 1) / 256) (omega arith)).0) refl

band_object-at :
    (band : ℕ)
    → band < 1024
    → band_object band ≡ 0xa8 ∷ 0 ∷ 0 ∷ 8 ∷ 2 ∷ 0 ∷ 0 ∷ 0 ∷ (band + 1) % 256 ∷ []
unfolding setband
band_object-at band h =
    let cut : (band + 1) % 65536 ≡ band + 1 = omega arith in
    rw (cut, (upper_lost ((band + 1) / 256) (omega arith)).1) refl

-- The bands below 256 have identifiers of their own, in both tables.
pub band_user-inj :
    (a b : ℕ)
    → a < 256
    → b < 256
    → (band_user a ≡ band_user b) ⊎ (band_object a ≡ band_object b)
    → a ≡ b
band_user-inj a b ha hb (inl e) =
    let q =
      ap (λ l. element l 8)
        (sym (band_user-at a (omega arith)) ∙ e ∙ band_user-at b (omega arith)) in
    omega (arith, q)
band_user-inj a b ha hb (inr e) =
    let q =
      ap (λ l. element l 8)
        (sym (band_object-at a (omega arith)) ∙ e ∙ band_object-at b (omega arith)) in
    omega (arith, q)

-- A band from 256 to 1023 has the identifiers of another band, the one with its number cut to a byte.
pub band_user_alias :
    (band : ℕ)
    → band < 1024
    → (band_user band ≡ band_user (band % 256)) × (band_object band ≡ band_object (band % 256))
band_user_alias band h =
    let same : (band + 1) % 256 ≡ (band % 256 + 1) % 256 = omega arith in
    (
      band_user-at band h
          ∙ ap (λ b. 0xa8 ∷ 0 ∷ 0 ∷ 0 ∷ 9 ∷ 0 ∷ 0 ∷ 0x80 ∷ b ∷ []) same
          ∙ sym (band_user-at (band % 256) (omega arith)),
      band_object-at band h
          ∙ ap (λ b. 0xa8 ∷ 0 ∷ 0 ∷ 8 ∷ 2 ∷ 0 ∷ 0 ∷ 0 ∷ b ∷ []) same
          ∙ sym (band_object-at (band % 256) (omega arith)),
    )

-- The name of a band master, as the user writes it.
pub master_user-to_string :
    (band : ℕ)
    → master_user (codes "BandMaster" ++ to_string band)
      ≡ (if ltb 1023 (band % 2 ^ 16) then none else some (band_user (band % 2 ^ 16)))
unfolding master_user
master_user-to_string band =
    let (c, r, q, lo, hi) = decimal-head (suc band) band [] (omega arith) in
    let long : ltb (length (take 15 (codes "BandMaster" ++ to_string band))) 11 ≡ false =
      rw q (ground arith) in
    let cut : band % 2 ^ 32 % 2 ^ 16 ≡ band % 2 ^ 16 = omega arith in
    rw (long, atoi-to_string band, cut) refl
