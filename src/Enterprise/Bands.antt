-- ===== src/Enterprise/Bands.antt =====
-- Common/DtaDevEnterprise.cpp: the commands on bands, which are the locking ranges.
use sedutil.Prelude.{
  ℕ, zero, suc, ◌+◌, ◌-◌, Bool, true, false, List, [], ◌∷◌, Option, none, some, ltb, ◌&&◌, ◌==◌,
  if◌then◌else◌, codes,
}
use sedutil.Outcome.{done}
use sedutil.Lexicon.Uid.{
  enterprise_lockingsp_uid, enterprise_bandmaster0_uid, enterprise_erasemaster_uid,
  opal_lockingrange_global,
}
use sedutil.Lexicon.Method.{eset, erase, genkey}
use sedutil.Lexicon.Token.{
  OpalToken, token_code, opal_true, opal_false, startlist, endlist, uint_00, dta_tokenid_uint,
}
use sedutil.Lexicon.Status.{
  error_code, unsuported_locking_range, invalid_parameter, lockingstate_code, readwrite, locked,
}
use sedutil.Command.{Token, opal, tiny, uint}
use sedutil.Response.{get_raw_token, get_string, token_is}
use sedutil.Device.{Platform, M, pure, ◌>>=◌, lift, gets}
use sedutil.Session.{DtaSession, new_session, dont_hash_pwd, uid_vec}
use sedutil.Opal.{◌>>?◌, table_command, no_args, invoke, with_session}
use sedutil.Opal.Properties.{c_str}
use sedutil.Opal.Ranges.{bit_token, reply64, flag}
use sedutil.Enterprise.{
  setband, is_null_uid, eset_args, object_command, MaxRanges, refused, supported, get_table,
  get_max_ranges, in_bounds, get_default_password, default_password,
}

-- The vectors `user` and `object` of a band.
abbrev pub band_user : ℕ → List ℕ
band_user band = setband (uid_vec enterprise_bandmaster0_uid) band

abbrev pub band_object : ℕ → List ℕ
band_object band = setband (uid_vec opal_lockingrange_global) band

abbrev pub configure_args : ℕ → List Token
configure_args enabled = eset_args (
    (codes "ReadLockEnabled", opal (bit_token enabled 1) ∷ [])
    ∷ (codes "WriteLockEnabled", opal (bit_token enabled 2) ∷ [])
    ∷ (codes "LockOnReset", opal startlist ∷ tiny uint_00 ∷ opal endlist ∷ [])
    ∷ [])

abbrev pub setup_args : ℕ → ℕ → List Token
setup_args start length = eset_args (
    (codes "RangeStart", uint start ∷ [])
    ∷ (codes "RangeLength", uint length ∷ [])
    ∷ (codes "ReadLockEnabled", opal opal_false ∷ [])
    ∷ (codes "WriteLockEnabled", opal opal_false ∷ [])
    ∷ (codes "ReadLocked", opal opal_false ∷ [])
    ∷ (codes "WriteLocked", opal opal_false ∷ [])
    ∷ (codes "LockOnReset", opal startlist ∷ opal endlist ∷ [])
    ∷ [])

abbrev pub lock_args : OpalToken → List Token
lock_args token =
    eset_args ((codes "WriteLocked", opal token ∷ []) ∷ (codes "ReadLocked", opal token ∷ []) ∷ [])

-- The value of both locks in a locking state; there is no state for reading only.
unfoldable pub locked_token : ℕ → Option OpalToken
locked_token lockingstate =
    if lockingstate == lockingstate_code readwrite
    then some opal_false
    else if lockingstate == lockingstate_code locked
    then some opal_true
    else none

-- A row of the table of bands, as it is printed.
pub record Band : Type 0 where
  pub name : List ℕ
  pub common_name : List ℕ
  pub range_start : ℕ
  pub range_length : ℕ
  pub read_lock_enabled : Bool
  pub write_lock_enabled : Bool
  pub read_locked : Bool
  pub write_locked : Bool
  pub lock_on_reset : Bool

unfoldable pub read_band : M Band
read_band = do
  name ← gets (λ d. get_string d.response 5) >>= lift
  common_name ← gets (λ d. get_string d.response 9) >>= lift
  range_start ← reply64 13
  range_length ← reply64 17
  read_lock_enabled ← flag 21
  write_lock_enabled ← flag 25
  read_locked ← flag 29
  write_locked ← flag 33
  kind ← gets (λ d. token_is d.response 37) >>= lift
  next ←
      if kind == token_code startlist then (gets (λ d. token_is d.response 38) >>= lift) else pure 0
  pure (record {
    name = name;
    common_name = common_name;
    range_start = range_start;
    range_length = range_length;
    read_lock_enabled = read_lock_enabled;
    write_lock_enabled = write_lock_enabled;
    read_locked = read_locked;
    write_locked = write_locked;
    lock_on_reset = (kind == token_code startlist) && (next == token_code dta_tokenid_uint);
  })

-- How a round of `listLockingRanges` went.
pub data Listed : Type 0 where
  no_session : ℕ → Listed
  no_row : Listed
  listed : Band → Listed

-- `failRC` and `one_succeeded`
abbrev pub noted : Listed → ℕ × Bool → ℕ × Bool
noted (no_session rc) (fail_rc, one) = (rc, one)
noted no_row (fail_rc, one) = (fail_rc, one)
noted (listed band) (fail_rc, one) = (fail_rc, true)

module _ (p : Platform) where
  -- A session of the locking provider; `plain` for a password that is not hashed.
  abbrev pub as_master : Bool → List ℕ → List ℕ → (DtaSession → M ℕ) → M ℕ
  as_master plain password user body =
      with_session p (if plain then dont_hash_pwd new_session else new_session)
        enterprise_lockingsp_uid (some password) user (λ rc. rc) body

  unfoldable pub configure_locking_range : ℕ → ℕ → List ℕ → M ℕ
  configure_locking_range lockingrange enabled password =
      as_master false password (band_user lockingrange)
        (λ s. invoke p s (object_command (band_object lockingrange) eset (configure_args enabled)))

  unfoldable pub rekey_locking_range : ℕ → List ℕ → M ℕ
  rekey_locking_range lockingrange password =
      as_master false password (band_user lockingrange) (λ s.
        get_table p s (band_object lockingrange) (codes "ActiveKey") (codes "ActiveKey") >>? (do
          key ← gets (λ d. get_raw_token d.response 5) >>= lift
          if is_null_uid key then pure 0 else invoke p s (table_command key genkey no_args)))

  -- The command is built before its session is started.
  unfoldable pub setup_locking_range : ℕ → ℕ → ℕ → List ℕ → M ℕ
  setup_locking_range lockingrange start length password = in_bounds p lockingrange (do
    cmd ← lift (object_command (band_object lockingrange) eset (setup_args start length))
    as_master false password (band_user lockingrange) (λ s. invoke p s (done cmd)))

  unfoldable pub lock_band : ℕ → List ℕ → Option OpalToken → M ℕ
  lock_band lockingrange password none = pure (error_code invalid_parameter)
  lock_band lockingrange password (some token) = in_bounds p lockingrange (do
    cmd ← lift (object_command (band_object lockingrange) eset (lock_args token))
    as_master false password (band_user lockingrange) (λ s. invoke p s (done cmd)))

  unfoldable pub set_locking_range : ℕ → ℕ → List ℕ → M ℕ
  unfolding locked_token lock_band
  set_locking_range lockingrange lockingstate password =
      lock_band lockingrange password (locked_token lockingstate)

  -- With an empty password the default password is fetched; the result says whether it is not empty.
  abbrev pub with_default : List ℕ → (List ℕ → List ℕ → M ℕ) → M ℕ
  with_default [] k =
      get_default_password p >>? (do default ← default_password; k default (c_str default))
  with_default (c ∷ password) k = k [] (c ∷ password)

  abbrev pub not_empty : List ℕ → Bool
  not_empty [] = false
  not_empty (_ ∷ _) = true

  unfoldable pub erase_locking_range : ℕ → List ℕ → M ℕ
  erase_locking_range lockingrange password = with_default password (λ default pwd.
      in_bounds p lockingrange (do
        cmd ← lift (object_command (band_object lockingrange) erase no_args)
        as_master (not_empty default) pwd (uid_vec enterprise_erasemaster_uid)
            (λ s. invoke p s (done cmd))))

  -- A round of `listLockingRanges`.
  unfoldable pub list_band : Bool → List ℕ → List ℕ → List ℕ → M Listed
  unfolding read_band
  list_band plain pwd user table =
      with_session p (if plain then dont_hash_pwd new_session else new_session)
        enterprise_lockingsp_uid (some pwd) user no_session
        (λ s. do
          rc ← get_table p s table (codes "Name") (codes "LockOnReset")
          if rc == 0 then (do band ← read_band; pure (listed band)) else pure no_row)

  -- The loop, for `n` bands from `i` on.
  unfoldable pub list_bands : ℕ → ℕ → Bool → List ℕ → List ℕ → List ℕ → ℕ × Bool → M (ℕ × Bool)
  list_bands zero i plain pwd user table notes = pure notes
  list_bands (suc n) i plain pwd user table notes = do
    r ← list_band plain pwd (setband user i) (setband table i)
    list_bands n (i + 1) plain pwd (setband user i) (setband table i) (noted r notes)

  abbrev pub list_from : ℕ → ℕ → List ℕ → List ℕ → M (ℕ × Bool)
  list_from start max default pwd =
      list_bands (max + 1 - start) start (not_empty default) pwd
        (uid_vec enterprise_bandmaster0_uid) (uid_vec opal_lockingrange_global) (0, false)

  unfoldable pub list_all : MaxRanges → List ℕ → List ℕ → M ℕ
  list_all (refused rc) default pwd = pure rc
  list_all (supported n) default pwd =
      if ltb n 1024
      then (do (fail_rc, one) ← list_from 0 n default pwd; pure (if one then 0 else fail_rc))
      else pure (error_code unsuported_locking_range)

  unfoldable pub list_by : Option ℕ → List ℕ → List ℕ → M ℕ
  unfolding list_all
  list_by none default pwd = do q ← get_max_ranges p; list_all q default pwd
  list_by (some n) default pwd =
      if ltb n 1024
      then (do (fail_rc, one) ← list_from n n default pwd; pure fail_rc)
      else pure (error_code unsuported_locking_range)

  -- One band by its number, or all of them. For all it is an error that none succeeded.
  unfoldable pub list_locking_ranges : List ℕ → Option ℕ → M ℕ
  unfolding list_by
  list_locking_ranges password rangeid =
      with_default password (λ default pwd. list_by rangeid default pwd)
