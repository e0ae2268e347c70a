-- ===== src/Lexicon/Uid.antt =====
-- Common/DtaLexicon.h: the identifiers of users, tables and service providers.
use sedutil.Prelude.{ℕ, List, [], ◌∷◌}

-- The enum that indexes `OPALUID`.
pub data OpalUid : Type 0 where
  opal_smuid_uid opal_thissp_uid opal_adminsp_uid : OpalUid
  opal_lockingsp_uid enterprise_lockingsp_uid opal_anybody_uid : OpalUid
  opal_sid_uid opal_admin1_uid opal_user1_uid : OpalUid
  opal_user2_uid opal_psid_uid enterprise_bandmaster0_uid : OpalUid
  enterprise_erasemaster_uid opal_lockingrange_global opal_lockingrange_ace_rdlocked : OpalUid
  opal_lockingrange_ace_wrlocked opal_lockingrange_global_ace_rdlocked
        opal_lockingrange_global_ace_wrlocked :
      OpalUid
  opal_mbrcontrol_set_donetodor opal_mbrcontrol opal_mbr : OpalUid
  opal_authority_table opal_c_pin_table opal_locking_info_table : OpalUid
  enterprise_locking_info_table opal_c_pin_msid opal_c_pin_sid : OpalUid
  opal_c_pin_admin1 opal_half_uid_authority_obj_ref opal_half_uid_boolean_ace : OpalUid
  opal_uid_hexff : OpalUid

-- The rows of `OPALUID`.
abbrev pub opaluid : OpalUid → List ℕ
opaluid opal_smuid_uid = 0 ∷ 0 ∷ 0 ∷ 0 ∷ 0 ∷ 0 ∷ 0 ∷ 0xff ∷ []
opaluid opal_thissp_uid = 0 ∷ 0 ∷ 0 ∷ 0 ∷ 0 ∷ 0 ∷ 0 ∷ 1 ∷ []
opaluid opal_adminsp_uid = 0 ∷ 0 ∷ 2 ∷ 5 ∷ 0 ∷ 0 ∷ 0 ∷ 1 ∷ []
opaluid opal_lockingsp_uid = 0 ∷ 0 ∷ 2 ∷ 5 ∷ 0 ∷ 0 ∷ 0 ∷ 2 ∷ []
opaluid enterprise_lockingsp_uid = 0 ∷ 0 ∷ 2 ∷ 5 ∷ 0 ∷ 1 ∷ 0 ∷ 1 ∷ []
opaluid opal_anybody_uid = 0 ∷ 0 ∷ 0 ∷ 9 ∷ 0 ∷ 0 ∷ 0 ∷ 1 ∷ []
opaluid opal_sid_uid = 0 ∷ 0 ∷ 0 ∷ 9 ∷ 0 ∷ 0 ∷ 0 ∷ 6 ∷ []
opaluid opal_admin1_uid = 0 ∷ 0 ∷ 0 ∷ 9 ∷ 0 ∷ 1 ∷ 0 ∷ 1 ∷ []
opaluid opal_user1_uid = 0 ∷ 0 ∷ 0 ∷ 9 ∷ 0 ∷ 3 ∷ 0 ∷ 1 ∷ []
opaluid opal_user2_uid = 0 ∷ 0 ∷ 0 ∷ 9 ∷ 0 ∷ 3 ∷ 0 ∷ 2 ∷ []
opaluid opal_psid_uid = 0 ∷ 0 ∷ 0 ∷ 9 ∷ 0 ∷ 1 ∷ 0xff ∷ 1 ∷ []
opaluid enterprise_bandmaster0_uid = 0 ∷ 0 ∷ 0 ∷ 9 ∷ 0 ∷ 0 ∷ 0x80 ∷ 1 ∷ []
opaluid enterprise_erasemaster_uid = 0 ∷ 0 ∷ 0 ∷ 9 ∷ 0 ∷ 0 ∷ 0x84 ∷ 1 ∷ []
opaluid opal_lockingrange_global = 0 ∷ 0 ∷ 8 ∷ 2 ∷ 0 ∷ 0 ∷ 0 ∷ 1 ∷ []
opaluid opal_lockingrange_ace_rdlocked = 0 ∷ 0 ∷ 0 ∷ 8 ∷ 0 ∷ 3 ∷ 0xe0 ∷ 1 ∷ []
opaluid opal_lockingrange_ace_wrlocked = 0 ∷ 0 ∷ 0 ∷ 8 ∷ 0 ∷ 3 ∷ 0xe8 ∷ 1 ∷ []
opaluid opal_lockingrange_global_ace_rdlocked = 0 ∷ 0 ∷ 0 ∷ 8 ∷ 0 ∷ 3 ∷ 0xe0 ∷ 0 ∷ []
opaluid opal_lockingrange_global_ace_wrlocked = 0 ∷ 0 ∷ 0 ∷ 8 ∷ 0 ∷ 3 ∷ 0xe8 ∷ 0 ∷ []
opaluid opal_mbrcontrol_set_donetodor = 0 ∷ 0 ∷ 0 ∷ 8 ∷ 0 ∷ 3 ∷ 0xf8 ∷ 1 ∷ []
opaluid opal_mbrcontrol = 0 ∷ 0 ∷ 8 ∷ 3 ∷ 0 ∷ 0 ∷ 0 ∷ 1 ∷ []
opaluid opal_mbr = 0 ∷ 0 ∷ 8 ∷ 4 ∷ 0 ∷ 0 ∷ 0 ∷ 0 ∷ []
opaluid opal_authority_table = 0 ∷ 0 ∷ 0 ∷ 9 ∷ 0 ∷ 0 ∷ 0 ∷ 0 ∷ []
opaluid opal_c_pin_table = 0 ∷ 0 ∷ 0 ∷ 0x0b ∷ 0 ∷ 0 ∷ 0 ∷ 0 ∷ []
opaluid opal_locking_info_table = 0 ∷ 0 ∷ 8 ∷ 1 ∷ 0 ∷ 0 ∷ 0 ∷ 1 ∷ []
opaluid enterprise_locking_info_table = 0 ∷ 0 ∷ 8 ∷ 1 ∷ 0 ∷ 0 ∷ 0 ∷ 0 ∷ []
opaluid opal_c_pin_msid = 0 ∷ 0 ∷ 0 ∷ 0x0b ∷ 0 ∷ 0 ∷ 0x84 ∷ 2 ∷ []
opaluid opal_c_pin_sid = 0 ∷ 0 ∷ 0 ∷ 0x0b ∷ 0 ∷ 0 ∷ 0 ∷ 1 ∷ []
opaluid opal_c_pin_admin1 = 0 ∷ 0 ∷ 0 ∷ 0x0b ∷ 0 ∷ 1 ∷ 0 ∷ 1 ∷ []
opaluid opal_half_uid_authority_obj_ref = 0 ∷ 0 ∷ 0x0c ∷ 5 ∷ 0xff ∷ 0xff ∷ 0xff ∷ 0xff ∷ []
opaluid opal_half_uid_boolean_ace = 0 ∷ 0 ∷ 4 ∷ 0x0e ∷ 0xff ∷ 0xff ∷ 0xff ∷ 0xff ∷ []
opaluid opal_uid_hexff = 0xff ∷ 0xff ∷ 0xff ∷ 0xff ∷ 0xff ∷ 0xff ∷ 0xff ∷ 0xff ∷ []
