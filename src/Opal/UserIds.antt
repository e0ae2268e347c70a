-- ===== src/Opal/UserIds.antt =====
-- Common/DtaDevOpal.cpp: the user names that the program makes and reads.
use sedutil.Prelude.{
  ℕ, zero, suc, ◌+◌, ◌-◌, ◌*◌, ◌/◌, ◌%◌, ◌^◌, ◌<◌, ◌≤◌, ◌≡◌, sym, ap, ◌∙◌, arith, true, false, List,
  [], ◌∷◌, ◌++◌, ltb, ◌==◌, if◌then◌else◌, Bool-cases, inl, inr, codes, not, ◌&&◌, ◌||◌,
}
use sedutil.Lexicon.Status.{error_code, invalid_parameter}
use sedutil.Opal.Users.{decimal, to_string, scan_digits, scan_sign, atoi, get_auth4_user}

-- The digits are read back as the number, and what stands behind them goes on from there.
scan_digits-decimal :
    (fuel n : ℕ) (l : List ℕ) → n < fuel → scan_digits 0 (decimal fuel n l) ≡ scan_digits n l
unfolding decimal scan_digits
scan_digits-decimal zero n l h = absurd (omega (arith, h))
scan_digits-decimal (suc fuel) n l h = elim (Bool-cases (ltb n 10)) [
  | inl e ↦
      let digit : (not (ltb (48 + n % 10) 48) && ltb (48 + n % 10) 58) ≡ true = ground arith in
      let same : 0 * 10 + (48 + n % 10 - 48) ≡ n = ground arith in rw (e, digit, same)
  | inr e ↦
      let digit : (not (ltb (48 + n % 10) 48) && ltb (48 + n % 10) 58) ≡ true = ground arith in
      let same : n / 10 * 10 + (48 + n % 10 - 48) ≡ n = omega arith in
      rw (e, scan_digits-decimal fuel (n / 10) ((48 + n % 10) ∷ l) (ground arith), digit, same)
]

-- It begins with a digit, so neither with a space nor with a sign.
pub decimal-head :
    (fuel n : ℕ) (l : List ℕ)
    → n < fuel
    → (c : ℕ) × (r : List ℕ) × (decimal fuel n l ≡ c ∷ r) × (48 ≤ c) × (c < 58)
unfolding decimal
decimal-head zero n l h = absurd (omega (arith, h))
decimal-head (suc fuel) n l h = elim (Bool-cases (ltb n 10)) [
  | inl e ↦ (48 + n % 10, l, rw e, omega arith, omega arith)
  | inr e ↦
      let (c, r, q, lo, hi) = decimal-head fuel (n / 10) ((48 + n % 10) ∷ l) (ground arith) in
      (c, r, rw e q, lo, hi)
]

-- `atoi` reads back what `std::to_string` writes, in 32 bits.
pub atoi-to_string : (n : ℕ) → atoi (to_string n) ≡ n % 2 ^ 32
unfolding atoi scan_sign scan_digits
atoi-to_string n =
    let (c, r, q, lo, hi) = decimal-head (suc n) n [] (omega arith) in
    let value =
      sym (ap (λ l. scan_digits 0 l) q) ∙ scan_digits-decimal (suc n) n [] (omega arith) in
    let space : ((c == 32) || (not (ltb c 9) && ltb c 14)) ≡ false = ground arith in
    let minus : (c == 45) ≡ false = ground arith in
    let plus : (c == 43) ≡ false = ground arith in
    rw (q, space, minus, plus) (ap (λ v. v % 2 ^ 32) value)

-- `getAuth4User` of the name that the program makes for user `n` gives the row of this user, in the
-- authority table for 0 and in the table of credentials for 10, with the number cut to a byte; any
-- other request is refused.
pub get_auth4_user-to_string :
    (n uidorcpin : ℕ)
    → get_auth4_user (codes "User" ++ to_string n) uidorcpin ≡ (
        if (uidorcpin == 0) || (uidorcpin == 10)
        then (
          0,
          0xa8 ∷ 0 ∷ 0 ∷ 0 ∷ (if uidorcpin == 0 then 0x09 else 0x0b) ∷ 0 ∷ 3 ∷ 0 ∷ n % 256 ∷ [],
        )
        else (error_code invalid_parameter, 0xa8 ∷ 0 ∷ 0 ∷ 0 ∷ []))
unfolding get_auth4_user
get_auth4_user-to_string n uidorcpin =
    let cut : n % 2 ^ 32 % 256 ≡ n % 256 = omega arith in
    elim (Bool-cases (uidorcpin == 0)) [
      | inl z ↦ rw (z, atoi-to_string n, cut)
      | inr z ↦ elim (Bool-cases (uidorcpin == 10)) [
        | inl t ↦ rw (z, t, atoi-to_string n, cut)
        | inr t ↦ rw (z, t)
      ]
    ]
