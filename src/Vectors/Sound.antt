-- ===== src/Vectors/Sound.antt =====
-- Common/DtaHashPwd.cpp: what the verdict on the test vectors says of PBKDF2.
use sedutil.Prelude.{
  ℕ, suc, ◌*◌, ◌/◌, ◌%◌, ◌<◌, ◌≤◌, ◌≡◌, refl, ap, sym, ◌∙◌, arith, Bool, true, false, List, [], ◌∷◌,
  length, take, ltb, bytes_eq, ◌==◌, All,
}
use mathlib.Core.List.{map}
use sedutil.Device.{Platform}
use sedutil.HashPwd.{dta_hash_password}
use sedutil.Raw.Digits.{hex_digit, to_hex, read_hex-to_hex}
use sedutil.Vectors.{PbkdfTestTuple, test_result, test_tuple, test_sedutil}

-- A vector with its key as bytes.
pub record Vector : Type 0 where
  pub iterations : ℕ
  pub password : List ℕ
  pub salt : List ℕ
  pub key : List ℕ

abbrev pub written : Bool → Vector → PbkdfTestTuple
written capital v = record {
  hashlen = length v.key;
  iterations = v.iterations;
  password = v.password;
  salt = v.salt;
  hex_derived_key = to_hex capital v.key;
}

-- A password that is not empty, and a key that has room.
abbrev pub Usable : Vector → Type 0
Usable v =
    ((length (take 32 v.password) == 0) ≡ false) × (length v.key ≤ 50) × All (λ b. b < 256) v.key

-- What PBKDF2 makes of a vector is its key.
abbrev pub Derives : Platform → Vector → Type 0
Derives p v = p.pbkdf2 (take 256 v.password) (take 255 v.salt) v.iterations (length v.key) ≡ v.key

take-to_hex :
    (capital : Bool) (bs : List ℕ) → take (length bs * 2) (to_hex capital bs) ≡ to_hex capital bs
take-to_hex capital [] = refl
take-to_hex capital (b ∷ bs) =
    let e : length (b ∷ bs) * 2 ≡ suc (suc (length bs * 2)) = omega arith in
    rw e (
      ap (λ l. hex_digit capital (b / 16) ∷ hex_digit capital (b % 16) ∷ l)
        (take-to_hex capital bs))

take-whole : (l : List ℕ) (n : ℕ) → length l ≡ n → take n l ≡ l
take-whole l n h = sym (ap (λ k. take k l) h) ∙ whole l
  where
    whole : (l : List ℕ) → take (length l) l ≡ l
    whole [] = refl
    whole (x ∷ l) = ap (◌∷◌ x) (whole l)

bytes_eq_sound : (a b : List ℕ) → bytes_eq a b ≡ true → a ≡ b
bytes_eq_sound [] [] h = refl
bytes_eq_sound [] (y ∷ b) h = cc h
bytes_eq_sound (x ∷ a) [] h = cc h
bytes_eq_sound (x ∷ a) (y ∷ b) h =
    let heads : x ≡ y = ground arith in
    let tails : bytes_eq a b ≡ true = ground arith in
    rw heads (ap (◌∷◌ y) (bytes_eq_sound a b tails))

module _ (p : Platform) (capital : Bool) where
  test_tuple-compares :
      (v : Vector)
      → Usable v
      → test_tuple p (written capital v)
        ≡ bytes_eq
            (p.pbkdf2 (take 256 v.password) (take 255 v.salt) v.iterations (length v.key))
            v.key
  unfolding test_tuple test_result dta_hash_password
  test_tuple-compares v (nonempty, short, small) =
      let fits : ltb 50 (length v.key) ≡ false = ground arith in
      rw
        (
          nonempty,
          fits,
          take-whole _ (length v.key)
              (p.length-pbkdf2 (take 256 v.password) (take 255 v.salt) v.iterations (length v.key)),
          take-to_hex capital v.key,
          read_hex-to_hex capital v.key small,
        )
        refl

  -- If the verdict on vectors that are written in hexadecimal digits, with passwords that are not empty
  -- and keys of at most 50 bytes, is that they pass, then PBKDF2 gives the key of each of them.
  pub test_sedutil-Derives :
      (vs : List Vector)
      → All Usable vs
      → test_sedutil p (map (written capital) vs) ≡ true
      → All (Derives p) vs
  unfolding test_sedutil
  test_sedutil-Derives [] h passes = tt
  test_sedutil-Derives (v ∷ vs) (h, hs) passes =
      let first : test_tuple p (written capital v) ≡ true = ground arith in
      let others : test_sedutil p (map (written capital) vs) ≡ true = ground arith in
      (
        bytes_eq_sound _ v.key (sym (test_tuple-compares v h) ∙ first),
        test_sedutil-Derives vs hs others,
      )
