-- ===== src/Raw.antt =====
-- Common/DtaDevOpal.cpp and Common/DtaDevEnterprise.cpp: `objDump` and `rawCmd`, whose arguments are
-- identifiers in hexadecimal digits. What the drive answers is printed.
pub mod Digits
pub mod Closes
mod Tests
use sedutil.Prelude.{
  ℕ, zero, suc, ◌+◌, ◌*◌, ◌/◌, ◌%◌, ◌^◌, Bool, true, List, [], ◌∷◌, Option, none, some, not, take,
  length, get_elem?, ltb, ◌||◌, ◌==◌, if◌then◌else◌,
}
use sedutil.Outcome.{Outcome, done, or_fault}
use sedutil.Lexicon.Uid.{
  OpalUid, opal_smuid_uid, opal_thissp_uid, opal_adminsp_uid, opal_lockingsp_uid,
  enterprise_lockingsp_uid, opal_anybody_uid, opal_sid_uid, opal_admin1_uid, opal_user1_uid,
  opal_user2_uid, opal_psid_uid, enterprise_bandmaster0_uid, enterprise_erasemaster_uid,
  opal_lockingrange_global, opal_lockingrange_ace_rdlocked, opal_lockingrange_ace_wrlocked,
  opal_lockingrange_global_ace_rdlocked, opal_lockingrange_global_ace_wrlocked,
  opal_mbrcontrol_set_donetodor, opal_mbrcontrol, opal_mbr, opal_authority_table, opal_c_pin_table,
  opal_locking_info_table, enterprise_locking_info_table, opal_c_pin_msid, opal_c_pin_sid,
  opal_c_pin_admin1, opal_half_uid_authority_obj_ref, opal_half_uid_boolean_ace, opal_uid_hexff,
}
use sedutil.Lexicon.Method.{get, eget}
use sedutil.Lexicon.Token.{short_code, bytestring8, startlist, endlist}
use sedutil.Lexicon.Status.{error_code, invalid_parameter}
use sedutil.Command.{DtaCommand, Token, opal, vec, build, change_invoking_uid, reset_uid_vec}
use sedutil.Device.{Platform, M, pure, ◌>>=◌, ◌>>◌, lift}
use sedutil.Session.{DtaSession, new_session}
use sedutil.Opal.{◌>>?◌, table_command, invoke, with_session}
use sedutil.Opal.Users.{atoi}

-- The value of a digit, by the bits of its code; a capital or a small letter has the bit 0x40.
unfoldable pub digit : ℕ → ℕ
digit c = if c / 2 ^ 6 % 2 == 0 then c % 2 ^ 4 else c % 2 ^ 4 + 9

-- A byte `work` from two digits.
unfoldable pub hex_byte : ℕ → ℕ → ℕ
unfolding digit
hex_byte a b = (16 * digit a % 2 ^ 8 + digit b) % 2 ^ 8

unfoldable pub read_hex : List ℕ → List ℕ
read_hex (a ∷ b ∷ l) = hex_byte a b ∷ read_hex l
read_hex _ = []

-- The vector of an identifier.
abbrev pub hex_uid : List ℕ → List ℕ
hex_uid l = short_code bytestring8 ∷ read_hex l

-- (OPAL_UID) atoi(sp), which then indexes `OPALUID`
abbrev pub uids : List OpalUid
uids =
    opal_smuid_uid ∷ opal_thissp_uid ∷ opal_adminsp_uid ∷ opal_lockingsp_uid
    ∷ enterprise_lockingsp_uid ∷ opal_anybody_uid ∷ opal_sid_uid ∷ opal_admin1_uid ∷ opal_user1_uid
    ∷ opal_user2_uid ∷ opal_psid_uid ∷ enterprise_bandmaster0_uid ∷ enterprise_erasemaster_uid
    ∷ opal_lockingrange_global ∷ opal_lockingrange_ace_rdlocked ∷ opal_lockingrange_ace_wrlocked
    ∷ opal_lockingrange_global_ace_rdlocked ∷ opal_lockingrange_global_ace_wrlocked
    ∷ opal_mbrcontrol_set_donetodor ∷ opal_mbrcontrol ∷ opal_mbr ∷ opal_authority_table
    ∷ opal_c_pin_table ∷ opal_locking_info_table ∷ enterprise_locking_info_table ∷ opal_c_pin_msid
    ∷ opal_c_pin_sid ∷ opal_c_pin_admin1 ∷ opal_half_uid_authority_obj_ref
    ∷ opal_half_uid_boolean_ace ∷ opal_uid_hexff ∷ []

unfoldable pub provider : List ℕ → Outcome OpalUid
provider sp = or_fault (get_elem? uids (atoi sp))

-- 16 != strnlen(s, 32)
abbrev pub not_uid : List ℕ → Bool
not_uid s = not (length (take 32 s) == 16)

-- The arguments of the Get call of `objDump`: two lists, the inner one empty.
abbrev pub dump_args : List Token
dump_args = opal startlist ∷ opal startlist ∷ opal endlist ∷ opal endlist ∷ []

-- The parameters of `rawCmd`: at most 1020 digits, an even number of them.
abbrev pub bad_parms : List ℕ → Bool
bad_parms hexparms =
    ltb 1020 (length (take 1024 hexparms)) || not (length (take 1024 hexparms) % 2 == 0)

-- The command of `rawCmd`, with the parameters as they are.
unfoldable pub raw_command : List ℕ → List ℕ → List ℕ → Outcome DtaCommand
raw_command hexinvoking hexmethod hexparms = build (vec (read_hex hexparms) ∷ []) true (
    change_invoking_uid (hex_uid hexinvoking)
      (reset_uid_vec opal_authority_table (hex_uid hexmethod)))

module _ (p : Platform) where
  -- The command, which is built first, in a session; `failed` is what a session that does not start
  -- gives.
  unfoldable pub dump_in : (ℕ → ℕ) → List ℕ → List ℕ → List ℕ → Outcome DtaCommand → M ℕ
  unfolding provider
  dump_in failed sp auth pass made = do
    cmd ← lift made
    uid ← lift (provider sp)
    with_session p new_session uid (some pass) (hex_uid auth) failed
        (λ s. do rc ← invoke p s (done cmd); pure (if rc == 0 then 0 else failed rc))

  -- `DtaDevOpal::objDump`
  unfoldable pub obj_dump : List ℕ → List ℕ → List ℕ → List ℕ → M ℕ
  obj_dump sp auth pass obj_id =
      if not_uid auth || not_uid obj_id
      then pure (error_code invalid_parameter)
      else dump_in (λ rc. rc) sp auth pass (table_command (hex_uid obj_id) get dump_args)

  -- `DtaDevEnterprise::objDump`, with one code for every failure
  unfoldable pub enterprise_obj_dump : List ℕ → List ℕ → List ℕ → List ℕ → M ℕ
  enterprise_obj_dump sp auth pass obj_id =
      if not_uid auth || not_uid obj_id
      then pure 0xff
      else dump_in (λ rc. 0xff) sp auth pass (table_command (hex_uid obj_id) eget dump_args)

  -- `rawCmd`, which both classes have in the same words.
  unfoldable pub raw_cmd : List ℕ → List ℕ → List ℕ → List ℕ → List ℕ → List ℕ → M ℕ
  raw_cmd sp hexauth pass hexinvoking hexmethod hexparms =
      if not_uid hexauth || not_uid hexinvoking || not_uid hexmethod
      then pure (error_code invalid_parameter)
      else if bad_parms hexparms
      then pure (error_code invalid_parameter)
      else dump_in (λ rc. rc) sp hexauth pass (raw_command hexinvoking hexmethod hexparms)
