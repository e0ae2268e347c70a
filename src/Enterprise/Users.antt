-- ===== src/Enterprise/Users.antt =====
-- Common/DtaDevEnterprise.cpp: band masters and their passwords, the owner, and the setup.
use sedutil.Prelude.{
  ℕ, zero, suc, ◌+◌, ◌-◌, ◌%◌, ◌^◌, Bool, true, false, List, [], ◌∷◌, Option, none, some, not, drop,
  take, length, ltb, ◌&&◌, ◌||◌, ◌==◌, if◌then◌else◌, codes,
}
use sedutil.Outcome.{done}
use sedutil.Lexicon.Uid.{
  enterprise_bandmaster0_uid, enterprise_erasemaster_uid, opal_adminsp_uid, opal_sid_uid,
  opal_c_pin_sid,
}
use sedutil.Lexicon.Method.{eset}
use sedutil.Lexicon.Token.{opal_true}
use sedutil.Lexicon.Status.{
  error_code, unsuported_locking_range, invalid_parameter, lockingstate_code, readwrite,
}
use sedutil.Command.{opal}
use sedutil.Device.{Platform, M, pure, ◌>>=◌, ◌>>◌, lift, gets}
use sedutil.HashPwd.{dta_hash_pwd}
use sedutil.Session.{DtaSession, new_session, dont_hash_pwd, uid_vec}
use sedutil.Opal.{◌>>?◌, invoke, with_session}
use sedutil.Opal.Properties.{c_str}
use sedutil.Opal.Users.{atoi, begins_with}
use sedutil.Opal.Provider.{unhashed}
use sedutil.Enterprise.{
  setband, user2cpin, eset_args, object_command, MaxRanges, refused, supported, set_table,
  get_max_ranges, get_default_password, default_password,
}
use sedutil.Enterprise.Bands.{as_master, not_empty, configure_locking_range, set_locking_range}

-- The user that `setPassword` is asked for, or none for a name that it refuses.
unfoldable pub master_user : List ℕ → Option (List ℕ)
unfolding atoi
master_user userid =
    if ltb (length (take 15 userid)) 11
    then none
    else if begins_with (codes "BandMaster") userid
    then (let band = atoi (drop 10 userid) % 2 ^ 16 in
        if ltb 1023 band then none else some (setband (uid_vec enterprise_bandmaster0_uid) band))
    else if begins_with (codes "EraseMaster") userid
    then some (uid_vec enterprise_erasemaster_uid)
    else none

-- What `setBandsEnabled` sets in the row of a band master.
abbrev enabled_args : List sedutil.Command.Token
enabled_args = eset_args ((codes "Enabled", opal opal_true ∷ []) ∷ [])

module _ (p : Platform) where
  -- The default password, unless neither of the passwords is empty.
  abbrev pub default_for : List ℕ → List ℕ → (List ℕ → M ℕ) → M ℕ
  default_for password newpassword k =
      if not_empty p password && not_empty p newpassword
      then k []
      else (get_default_password p >>? (do default ← default_password; k (c_str default)))

  abbrev or_default : List ℕ → List ℕ → List ℕ
  or_default password default = if not_empty p password then password else default

  -- The hash of the new password, or a new password that stands for the default one as it is.
  unfoldable pub set_pin : List ℕ → List ℕ → List ℕ → DtaSession → M ℕ
  set_pin user newpassword default s = do
    pin ←
        gets
          (λ d. if not_empty p newpassword then dta_hash_pwd p d newpassword else unhashed default)
    set_table p s (user2cpin user) (codes "PIN") pin

  unfoldable pub change_pin : List ℕ → List ℕ → Option (List ℕ) → M ℕ
  unfolding set_pin
  change_pin password newpassword none = pure (error_code invalid_parameter)
  change_pin password newpassword (some user) = default_for password newpassword (λ default.
      as_master p (not (not_empty p password)) (or_default password default) user
        (set_pin user newpassword default))

  unfoldable pub set_password : List ℕ → List ℕ → List ℕ → M ℕ
  unfolding master_user change_pin
  set_password password userid newpassword = change_pin password newpassword (master_user userid)

  -- The loop of `setBandsEnabled`, for `n` bands from `i` on.
  unfoldable pub enable_bands : ℕ → ℕ → Bool → List ℕ → List ℕ → M ℕ
  enable_bands zero i use_msid pwd object = pure 0
  enable_bands (suc n) i use_msid pwd object =
      (do
        cmd ← lift (object_command (setband object i) eset enabled_args)
        as_master p use_msid pwd (uid_vec enterprise_erasemaster_uid) (λ s. invoke p s (done cmd)))
      >>? enable_bands n (i + 1) use_msid pwd (setband object i)

  -- The bands from `lo` to `hi`, with the default password for an empty one.
  abbrev pub enable_between : ℕ → ℕ → List ℕ → M ℕ
  enable_between lo hi password = default_for password password (λ default.
      enable_bands (hi + 1 - lo) lo (not (not_empty p password)) (or_default password default)
        (uid_vec enterprise_bandmaster0_uid))

  unfoldable pub enable_range : Option ℕ → List ℕ → MaxRanges → M ℕ
  enable_range lockingrange password (refused rc) = pure rc
  enable_range none password (supported n) =
      if ltb n 1024 then enable_between 0 n password else pure (error_code unsuported_locking_range)
  enable_range (some band) password (supported n) =
      if ltb n 1024
      then (if ltb n band
          then pure (error_code unsuported_locking_range)
          else enable_between band band password)
      else pure (error_code unsuported_locking_range)

  -- One band by its number, or all of them.
  unfoldable pub set_bands_enabled : Option ℕ → List ℕ → M ℕ
  unfolding enable_range
  set_bands_enabled lockingrange password = do
    q ← get_max_ranges p
    enable_range lockingrange password q

  -- The sessions of `initLSPUsers`, in which a user sets its own password.
  abbrev init_pin : List ℕ → List ℕ → List ℕ → M ℕ
  init_pin default newpassword user = as_master p true default user (λ s. do
    hash ← gets (λ d. dta_hash_pwd p d newpassword)
    set_table p s (user2cpin user) (codes "PIN") hash)

  -- The loop over the band masters; only the first one must succeed.
  unfoldable pub init_masters : ℕ → ℕ → List ℕ → List ℕ → List ℕ → M ℕ
  init_masters zero i default newpassword user = pure 0
  init_masters (suc n) i default newpassword user = do
    rc ← init_pin default newpassword (setband user i)
    if not (rc == 0) && (i == 0)
        then pure rc
        else init_masters n (i + 1) default newpassword (setband user i)

  unfoldable pub init_bands : List ℕ → List ℕ → MaxRanges → M ℕ
  init_bands default newpassword (refused rc) = pure rc
  init_bands default newpassword (supported n) =
      if (n == 0) || not (ltb n 1024)
      then pure (error_code unsuported_locking_range)
      else init_masters (n + 1) 0 default newpassword (uid_vec enterprise_bandmaster0_uid)

  unfoldable pub init_lsp_users : List ℕ → List ℕ → M ℕ
  unfolding init_bands
  init_lsp_users default newpassword =
      init_pin default newpassword (uid_vec enterprise_erasemaster_uid)
      >>? (do q ← get_max_ranges p; init_bands default newpassword q)

  -- The session of the owner, in which a new password is set.
  abbrev as_owner : Bool → List ℕ → List ℕ → Bool → M ℕ
  as_owner plain password newpassword hashnewpwd =
      with_session p (if plain then dont_hash_pwd new_session else new_session) opal_adminsp_uid
        (some password) (uid_vec opal_sid_uid) (λ rc. rc)
        (λ s. do
          hash ←
              gets (λ d. if hashnewpwd then dta_hash_pwd p d newpassword else unhashed newpassword)
          set_table p s (uid_vec opal_c_pin_sid) (codes "PIN") hash)

  unfoldable pub set_sid_password : List ℕ → List ℕ → Bool → Bool → M ℕ
  set_sid_password [] newpassword hasholdpwd hashnewpwd =
      get_default_password p
      >>? (do default ← default_password; as_owner true (c_str default) newpassword hashnewpwd)
  set_sid_password (c ∷ old) newpassword hasholdpwd hashnewpwd =
      as_owner (not hasholdpwd) (c ∷ old) newpassword hashnewpwd

  unfoldable pub take_ownership : List ℕ → M ℕ
  take_ownership newpassword = get_default_password p >>? (do
    default ← default_password
    set_sid_password (c_str default) newpassword false true
        >>? init_lsp_users (c_str default) newpassword)

  unfoldable pub initial_setup : List ℕ → M ℕ
  initial_setup password =
      take_ownership password
      >>? set_locking_range p 0 (lockingstate_code readwrite) password
      >>? configure_locking_range p 0 3 password

  -- The password that is printed.
  unfoldable pub print_default_password : M ℕ
  print_default_password = get_default_password p >>? (do default_password; pure 0)
