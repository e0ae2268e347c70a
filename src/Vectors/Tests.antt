-- ===== src/Vectors/Tests.antt =====
-- Tests of the test vectors.
use sedutil.Prelude.{
  ◌≡◌, refl, arith, true, false, List, [], ◌∷◌, codes, replicate, length-replicate, All,
}
use mathlib.Core.List.{map}
use sedutil.Device.{Platform}
use sedutil.HashPwd.{dta_hash_password}
use sedutil.Raw.{digit, hex_byte, read_hex}
use sedutil.Samples.{sample}
use sedutil.Vectors.{test_result, test_tuple, test_sedutil}
use sedutil.Vectors.Sound.{Vector, written, Derives, test_sedutil-Derives}

-- A derivation that makes bytes of one value.
abbrev constant : Platform
constant = record sample {
  pbkdf2 = λ password salt iter size. replicate size 0xa5;
  length-pbkdf2 = λ password salt iter size. length-replicate size 0xa5;
}

abbrev vectors : List Vector
vectors =
    record {
      iterations = 1;
      password = codes "password";
      salt = codes "salt";
      key = 0xa5 ∷ 0xa5 ∷ [];
    }
    ∷ record { iterations = 2; password = codes "p"; salt = []; key = 0xa5 ∷ [] }
    ∷ []

passes : test_sedutil constant (map (written false) vectors) ≡ true
unfolding test_sedutil test_tuple test_result dta_hash_password read_hex hex_byte digit
passes = refl

test_sedutil-Derives_example : All (Derives constant) vectors
test_sedutil-Derives_example = test_sedutil-Derives constant false vectors (ground arith) passes
