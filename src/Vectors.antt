-- ===== src/Vectors.antt =====
-- Common/DtaHashPwd.cpp: the test vectors of PBKDF2. PBKDF2 itself is the platform's, and what is
-- printed is here the verdict at the end.
pub mod Sound
mod Tests
use sedutil.Prelude.{
  ℕ, ◌*◌, Bool, true, false, ◌&&◌, List, [], ◌∷◌, codes, take, drop, ltb, bytes_eq, if◌then◌else◌,
}
use sedutil.Device.{Platform}
use sedutil.HashPwd.{dta_hash_password}
use sedutil.Raw.{read_hex}

pub record PbkdfTestTuple : Type 0 where
  pub hashlen : ℕ
  pub iterations : ℕ
  pub password : List ℕ
  pub salt : List ℕ
  pub hex_derived_key : List ℕ

-- Whether the result of `testresult` is 0: the digits are read into an array of 50 bytes, and the result
-- has two bytes in front.
unfoldable pub test_result : List ℕ → List ℕ → ℕ → Bool
test_result result expected len =
    if ltb 50 len
    then false
    else bytes_eq (take len (drop 2 result)) (read_hex (take (len * 2) expected))

module _ (p : Platform) where
  -- A round of the loop of `Testsedutil`.
  unfoldable pub test_tuple : PbkdfTestTuple → Bool
  unfolding test_result
  test_tuple t =
      test_result (dta_hash_password p t.password (take 255 t.salt) t.iterations t.hashlen)
        t.hex_derived_key t.hashlen

  unfoldable pub test_sedutil : List PbkdfTestTuple → Bool
  unfolding test_tuple
  test_sedutil [] = true
  test_sedutil (t ∷ ts) = test_tuple t && test_sedutil ts

abbrev pub short_tuple : ℕ → List ℕ → PbkdfTestTuple
short_tuple iterations key = record {
  hashlen = 20;
  iterations = iterations;
  password = codes "password";
  salt = codes "salt";
  hex_derived_key = key;
}

-- The four vectors.
abbrev pub test_set : List PbkdfTestTuple
test_set =
    short_tuple 1 (codes "0c60c80f961f0e71f3a9b524af6012062fe037a6")
    ∷ short_tuple 2 (codes "ea6c014dc72d6f8ccd1ed92ace1d41f0d8de8957")
    ∷ short_tuple 4096 (codes "4b007901b765489abead49d926f721d065a429c1")
    ∷ record {
      hashlen = 25;
      iterations = 4096;
      password = codes "passwordPASSWORDpassword";
      salt = codes "saltSALTsaltSALTsaltSALTsaltSALTsalt";
      hex_derived_key = codes "3d2eec4fe41c849b80c8d83662c0e44a8b291a964cf2f07038";
    }
    ∷ []

-- `TestPBKDF2`: the result, which is 0 in any case, and the verdict that is printed
unfoldable pub test_pbkdf2 : Platform → ℕ × Bool
unfolding test_sedutil
test_pbkdf2 p = (0, test_sedutil p test_set)
