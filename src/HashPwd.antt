-- ===== src/HashPwd.antt =====
-- Common/DtaHashPwd.cpp: a password as the token that is sent for it. A password is the list of its
-- bytes before the terminating zero. PBKDF2 itself is the platform's.
pub mod Token
mod Tests
use sedutil.Prelude.{ℕ, ◌+◌, ◌%◌, List, [], ◌∷◌, length, take, replicate, ◌==◌, if◌then◌else◌}
use sedutil.Structures.{OpalDiskInfo}
use sedutil.Device.{Platform, DtaDev}

-- `hash.insert` of the size and of the medium atom's head
abbrev overhead : List ℕ → List ℕ
overhead hash = 0xd0 ∷ length hash % 256 ∷ hash

module _ (p : Platform) where
  unfoldable pub dta_hash_password : List ℕ → List ℕ → ℕ → ℕ → List ℕ
  dta_hash_password password salt iter hashsize =
      if length (take 32 password) == 0
      then overhead []
      else overhead (p.pbkdf2 (take 256 password) salt iter hashsize)

  -- The default arguments are 75000 rounds and 32 bytes.
  unfoldable pub dta_hash_pwd : DtaDev → List ℕ → List ℕ
  dta_hash_pwd d password =
      if d.no_hash_passwords
      then overhead (take 32 password)
      else dta_hash_password password (take 20 d.disk_info.serial_num) 75000 32
