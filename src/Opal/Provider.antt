-- ===== src/Opal/Provider.antt =====
-- Common/DtaDevOpal.cpp: the shadow MBR, and the service providers from ownership to revert.
use sedutil.Prelude.{
  ℕ, ◌%◌, Bool, true, List, [], ◌∷◌, ◌++◌, none, some, length, take, ◌==◌, if◌then◌else◌,
}
use sedutil.Lexicon.Uid.{
  OpalUid, opal_lockingsp_uid, opal_adminsp_uid, opal_thissp_uid, opal_sid_uid, opal_psid_uid,
  opal_admin1_uid, opal_mbrcontrol, opal_c_pin_msid, opal_c_pin_sid, opal_uid_hexff,
}
use sedutil.Lexicon.Method.{activate, revert, revertsp}
use sedutil.Lexicon.Token.{
  OpalToken, token_code, opal_true, opal_false, mbrenable, mbrdone, pin, startlist, endlist,
  startname, endname, uint_3, uint_06, uint_00,
}
use sedutil.Lexicon.Status.{error_code, invalid_lifecycle}
use sedutil.Command.{Token, opal, short, tiny, vec, build, reset_method}
use sedutil.Response.{get_string}
use sedutil.Device.{modify, Platform, DtaDev, M, pure, ◌>>=◌, ◌>>◌, lift, gets}
use sedutil.HashPwd.{dta_hash_pwd}
use sedutil.Session.{
  DtaSession, new_session, dont_hash_pwd, expect_abort, start_uid, end_session, uid_vec,
}
use sedutil.Opal.{
  ◌>>?◌, range_uid, no_args, invoke, get_table, set_table, set_table_token, with_session, as_admin1,
}
use sedutil.Opal.Properties.{c_str}
use sedutil.Opal.Ranges.{reply8}

-- The arguments of RevertSP, with the name 0x060000 of KeepGlobalRangeKey.
unfoldable pub revert_args : ℕ → List Token
revert_args keep =
    opal startlist
    ∷ ((if keep == 0
          then []
          else opal startname
            ∷ vec (0x83 ∷ 0x06 ∷ 0x00 ∷ 0x00 ∷ [])
            ∷ opal opal_true
            ∷ opal endname
            ∷ [])
        ++ opal endlist ∷ [])

-- The arguments of Activate with a list of one range for the single user mode.
unfoldable pub activate_sum_args : ℕ → List Token
activate_sum_args lockingrange =
    opal startlist
    ∷ opal startname
    ∷ short uint_3
    ∷ tiny uint_06
    ∷ tiny uint_00
    ∷ tiny uint_00
    ∷ opal startlist
    ∷ vec (range_uid lockingrange)
    ∷ opal endlist
    ∷ opal endname
    ∷ opal endlist
    ∷ []

-- The bytes of a new password that is not hashed.
abbrev pub unhashed : List ℕ → List ℕ
unhashed newpassword = 0xd0 ∷ length (take 255 newpassword) % 256 ∷ take 255 newpassword

module _ (p : Platform) where
  unfoldable pub set_locking_sp_value : OpalUid → OpalToken → OpalToken → List ℕ → M ℕ
  set_locking_sp_value table_uid name value password =
      as_admin1 p password (λ s. set_table_token p s (uid_vec table_uid) name value)

  unfoldable pub set_mbr_done : ℕ → List ℕ → M ℕ
  set_mbr_done mbrstate password =
      set_locking_sp_value opal_mbrcontrol mbrdone (if mbrstate == 0 then opal_false else opal_true)
        password

  unfoldable pub set_mbr_enable : ℕ → List ℕ → M ℕ
  set_mbr_enable mbrstate password =
      set_mbr_done 1 password
      >>? set_locking_sp_value opal_mbrcontrol mbrenable
          (if mbrstate == 0 then opal_false else opal_true) password

  -- The session is deleted without an end of session after a revert that was accepted.
  unfoldable pub revert_locking_sp : List ℕ → ℕ → M ℕ
  unfolding revert_args
  revert_locking_sp password keep = do
    (rc, s) ← start_uid p new_session opal_lockingsp_uid (some password) opal_admin1_uid
    if rc == 0
        then (do
          rc' ← invoke p s (build (revert_args keep) true (reset_method opal_thissp_uid revertsp))
          end_session p (if rc' == 0 then expect_abort s else s)
          pure rc')
        else (do end_session p s; pure rc)

  unfoldable pub revert_tper : List ℕ → ℕ → ℕ → M ℕ
  revert_tper password psid admin_sp = do
    let s0 = if psid == 0 then new_session else dont_hash_pwd new_session
    (rc, s) ←
        start_uid p s0 opal_adminsp_uid (some password)
          (if psid == 0 then opal_sid_uid else opal_psid_uid)
    if rc == 0
        then (do
          rc' ←
              invoke p (expect_abort s) (build no_args true (reset_method opal_adminsp_uid revert))
          end_session p (expect_abort s)
          pure rc')
        else (do end_session p s; pure rc)

  -- The command, behind the test that the provider is Manufactured-Inactive.
  unfoldable pub activate_in : List Token → DtaSession → M ℕ
  activate_in args s = get_table p s (uid_vec opal_lockingsp_uid) 0x06 0x06 >>? (do
    lifecycle ← reply8 3
    inactive ←
        if lifecycle == 0x06 then (do state ← reply8 4; pure (state == 0x08)) else pure Bool.false
    if inactive
        then invoke p s (build args true (reset_method opal_lockingsp_uid activate))
        else pure (error_code invalid_lifecycle))

  unfoldable pub activate_locking_sp : List ℕ → M ℕ
  activate_locking_sp password =
      with_session p new_session opal_adminsp_uid (some password) (uid_vec opal_sid_uid) (λ rc. rc)
        (activate_in no_args)

  -- The flag that the discovery set is brought up to date.
  abbrev pub mark_enabled : DtaDev → DtaDev
  mark_enabled d = record d {
    disk_info = record d.disk_info {
      locking_info = record d.disk_info.locking_info { locking_enabled = 1 };
    };
  }

  unfoldable pub activate_locking_sp_sum : ℕ → List ℕ → M ℕ
  unfolding activate_sum_args
  activate_locking_sp_sum lockingrange password =
      with_session p new_session opal_adminsp_uid (some password) (uid_vec opal_sid_uid) (λ rc. rc)
        (λ s. activate_in (activate_sum_args lockingrange) s >>? (do modify mark_enabled; pure 0))

  unfoldable pub get_default_password : M ℕ
  get_default_password =
      with_session p new_session opal_adminsp_uid none (uid_vec opal_uid_hexff) (λ rc. rc)
        (λ s. get_table p s (uid_vec opal_c_pin_msid) (token_code pin) (token_code pin))

  unfoldable pub set_sid_password : List ℕ → List ℕ → Bool → Bool → M ℕ
  set_sid_password oldpassword newpassword hasholdpwd hashnewpwd =
      with_session p (if hasholdpwd then new_session else dont_hash_pwd new_session)
        opal_adminsp_uid (some oldpassword) (uid_vec opal_sid_uid) (λ rc. rc)
        (λ s. do
          hash ←
              gets (λ d. if hashnewpwd then dta_hash_pwd p d newpassword else unhashed newpassword)
          set_table p s (uid_vec opal_c_pin_sid) pin hash)

  -- The default password is read from the reply that `getDefaultPassword` left.
  unfoldable pub take_ownership : List ℕ → M ℕ
  take_ownership newpassword = get_default_password >>? (do
    msid ← gets (λ d. get_string d.response 4) >>= lift
    set_sid_password (c_str msid) newpassword Bool.false true)

  -- The password that is printed.
  unfoldable pub print_default_password : M ℕ
  print_default_password =
      get_default_password >>? (do gets (λ d. get_string d.response 4) >>= lift; pure 0)
