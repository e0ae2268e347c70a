-- ===== src/HashPwd/Token.antt =====
-- Common/DtaHashPwd.cpp: the form of the token that is sent for a password.
use sedutil.Prelude.{
  ℕ, zero, suc, ◌≤◌, arith, List, [], ◌∷◌, length, take, ◌==◌, Bool-cases, inl, inr,
}
use sedutil.Device.{Platform, DtaDev}
use sedutil.Response.{token_length}
use sedutil.Response.Tokens.{Framed}
use sedutil.HashPwd.{dta_hash_password, dta_hash_pwd, overhead}

length-take : (n : ℕ) (xs : List ℕ) → length (take n xs) ≤ n
length-take zero xs = omega arith
length-take (suc n) [] = omega arith
length-take (suc n) (x ∷ xs) = omega (arith, length-take n xs)

overhead-Framed : (hash : List ℕ) → length hash ≤ 255 → Framed (overhead hash)
unfolding token_length
overhead-Framed hash h = (omega arith, λ rest. ground arith)

-- The token that `DtaHashPwd` makes of a password, whether it is hashed or the hashing is switched
-- off, and however long it is, announces its own length, and has at most 34 bytes.
pub dta_hash_pwd-Framed :
    (p : Platform) (d : DtaDev) (password : List ℕ)
    → Framed (dta_hash_pwd p d password) × (length (dta_hash_pwd p d password) ≤ 34)
unfolding dta_hash_pwd dta_hash_password
dta_hash_pwd-Framed p d password = elim (Bool-cases d.no_hash_passwords) [
  | inl e ↦
      rw e (
        let l = length-take 32 password in (overhead-Framed _ (omega (arith, l)), omega (arith, l)))
  | inr e ↦ rw e (elim (Bool-cases (length (take 32 password) == 0)) [
    | inl z ↦ rw z (overhead-Framed [] (omega arith), omega arith)
    | inr z ↦
        let l = p.length-pbkdf2 (take 256 password) (take 20 d.disk_info.serial_num) 75000 32 in
        rw z (overhead-Framed _ (omega (arith, l)), omega (arith, l))
  ])
]
