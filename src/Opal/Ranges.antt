-- ===== src/Opal/Ranges.antt =====
-- Common/DtaDevOpal.cpp: the commands on locking ranges.
use sedutil.Prelude.{
  ℕ, zero, suc, ◌+◌, ◌/◌, ◌%◌, ◌^◌, Bool, true, false, List, [], ◌∷◌, Option, none, some, not, ltb,
  set, ◌==◌, if◌then◌else◌,
}
use sedutil.Outcome.{Outcome}
use sedutil.Lexicon.Uid.{
  opal_lockingsp_uid, opal_admin1_uid, opal_locking_info_table, opal_lockingrange_global,
  opal_authority_table,
}
use sedutil.Lexicon.Method.{OpalMethod, genkey, erase}
use sedutil.Lexicon.Token.{
  OpalToken, token_code, opal_true, opal_false, rangestart, rangelength, readlockenabled,
  writelockenabled, readlocked, writelocked, activekey, maxranges, dta_tokenid_uint,
}
use sedutil.Lexicon.Status.{
  error_code, unsuported_locking_range, no_locking_info, invalid_parameter, lockingstate_code,
  readwrite, readonly, locked, archivelocked, archiveunlocked,
}
use sedutil.Command.{
  DtaCommand, Token, opal, uint, add_tokens, complete_special, change_invoking_uid, reset_method,
}
use sedutil.Response.{get_token_count, get_uint64, get_uint32, get_uint8, get_raw_token, token_is}
use sedutil.Device.{Platform, M, pure, ◌>>=◌, ◌>>◌, lift, gets}
use sedutil.Session.{DtaSession, new_session, uid_vec}
use sedutil.Opal.{
  ◌>>?◌, range_uid, user_auth, table_command, set_args, no_args, invoke, get_table, with_session,
  as_admin1,
}

-- `lrStatus_t` of a query that succeeded.
pub record LrStatus : Type 0 where
  pub lockingrange_num : ℕ
  pub start : ℕ
  pub size : ℕ
  pub rlk_ena : Bool
  pub wlk_ena : Bool
  pub r_locked : Bool
  pub w_locked : Bool

-- A query that failed sets nothing but `command_status`.
pub data LrQuery : Type 0 where
  failed : ℕ → LrQuery
  found : LrStatus → LrQuery

abbrev pub command_status : LrQuery → ℕ
command_status (failed rc) = rc
command_status (found status) = 0

-- response.getUint64(n), and the other reads of the member
abbrev pub reply64 : ℕ → M ℕ
reply64 n = gets (λ d. get_uint64 d.response n) >>= lift

abbrev reply32 : ℕ → M ℕ
reply32 n = gets (λ d. get_uint32 d.response n) >>= lift

abbrev pub reply8 : ℕ → M ℕ
reply8 n = gets (λ d. get_uint8 d.response n) >>= lift

abbrev pub flag : ℕ → M Bool
flag n = reply8 n >>= λ b. pure (not (b == 0))

-- The part of `getLockingRange_status` that reads the reply; it asks for 24 tokens and reads the
-- twenty-fifth.
unfoldable pub read_status : ℕ → M LrQuery
read_status lockingrange = do
  count ← gets (λ d. get_token_count d.response)
  if ltb count 24 then pure (failed (error_code no_locking_info)) else (do
    start ← reply64 4
    size ← reply64 8
    rlk_ena ← flag 12
    wlk_ena ← flag 16
    r_locked ← flag 20
    w_locked ← flag 24
    pure (
        found (record {
          lockingrange_num = lockingrange;
          start = start;
          size = size;
          rlk_ena = rlk_ena;
          wlk_ena = wlk_ena;
          r_locked = r_locked;
          w_locked = w_locked;
        })))

-- The read-locked and write-locked values of a locking state and whether only the first is set.
unfoldable pub lock_values : ℕ → Option (OpalToken × OpalToken × Bool)
lock_values lockingstate =
    if lockingstate == lockingstate_code readwrite
    then some (opal_false, opal_false, false)
    else if lockingstate == lockingstate_code archiveunlocked
    then some (opal_false, opal_true, true)
    else if lockingstate == lockingstate_code readonly
    then some (opal_false, opal_true, false)
    else if lockingstate == lockingstate_code archivelocked
    then some (opal_true, opal_true, true)
    else if lockingstate == lockingstate_code locked
    then some (opal_true, opal_true, false)
    else none

-- Every other column of a range that `setupLockingRange` writes.
abbrev unlocked_columns : OpalToken → List (OpalToken × Token)
unlocked_columns enabled =
    (readlockenabled, opal enabled)
    ∷ (writelockenabled, opal enabled)
    ∷ (readlocked, opal opal_false)
    ∷ (writelocked, opal opal_false)
    ∷ []

abbrev pub setup_columns : ℕ → ℕ → OpalToken → List (OpalToken × Token)
setup_columns start length enabled =
    (rangestart, uint start) ∷ (rangelength, uint length) ∷ unlocked_columns enabled

-- (enabled & bit) ? OPAL_TRUE : OPAL_FALSE, for the bits 1 and 2
abbrev pub bit_token : ℕ → ℕ → OpalToken
bit_token enabled bit = if enabled / bit % 2 == 0 then opal_false else opal_true

-- A Set call that ends with `completeSpecial`.
unfoldable pub special_command : List ℕ → List Token → Outcome DtaCommand
special_command table ts =
    sedutil.Outcome.◌>>=◌
      (add_tokens ts (change_invoking_uid table (reset_method opal_authority_table OpalMethod.set)))
      (complete_special true)

module _ (p : Platform) where
  -- The same as the user of a range in single user mode.
  abbrev pub as_user : ℕ → List ℕ → (DtaSession → M ℕ) → M ℕ
  as_user lockingrange password body =
      with_session p new_session opal_lockingsp_uid (some password) (user_auth (lockingrange + 1))
        (λ rc. rc) body

  unfoldable pub get_locking_range_status : ℕ → List ℕ → M LrQuery
  unfolding read_status
  get_locking_range_status lockingrange password =
      with_session p new_session opal_lockingsp_uid (some password) (uid_vec opal_admin1_uid) failed
        (λ s. do
          rc ←
              get_table p s (range_uid lockingrange) (token_code rangestart)
                (token_code writelocked)
          if rc == 0 then read_status lockingrange else pure (failed rc))

  -- What the query finds is printed.
  unfoldable pub print_locking_range_status : ℕ → List ℕ → M ℕ
  print_locking_range_status lockingrange password =
      get_locking_range_status lockingrange password >>= λ q. pure (command_status q)

  -- The values that are read are printed.
  abbrev print_values : M ℕ
  print_values = do reply64 4; reply64 8; reply8 12; reply8 16; reply8 20; reply8 24; pure 0

  -- The vector `LR` in the round `i`; its number is cut to a byte, and not tested for 0 again.
  abbrev pub listed_uid : ℕ → List ℕ
  listed_uid i =
      if i == 0
      then uid_vec opal_lockingrange_global
      else set (set (uid_vec opal_lockingrange_global) 6 0x03) 8 (i % 256)

  -- The loop of `listLockingRanges`, for the ranges from `i` on.
  unfoldable pub list_ranges : ℕ → ℕ → DtaSession → M ℕ
  list_ranges zero i s = pure 0
  list_ranges (suc n) i s =
      let rest = list_ranges n (i + 1) s in
      get_table p s (listed_uid i) (token_code rangestart) (token_code writelocked)
      >>? print_values
      >>? rest

  unfoldable pub list_locking_ranges : List ℕ → M ℕ
  list_locking_ranges password = as_admin1 p password (λ s.
      get_table p s (uid_vec opal_locking_info_table) (token_code maxranges) (token_code maxranges)
      >>? (do
        kind ← gets (λ d. token_is d.response 4) >>= lift
        if kind == token_code dta_tokenid_uint
            then (do max_ranges ← reply32 4; list_ranges ((max_ranges + 1) % 2 ^ 32) 0 s)
            else pure (error_code no_locking_info)))

  -- What both kinds of rekeying do in their session.
  unfoldable pub genkey_in : List ℕ → DtaSession → M ℕ
  genkey_in lr s = get_table p s lr (token_code activekey) (token_code activekey) >>? (do
    key ← gets (λ d. get_raw_token d.response 4) >>= lift
    invoke p s (table_command key genkey no_args))

  unfoldable pub rekey_locking_range : ℕ → List ℕ → M ℕ
  rekey_locking_range lockingrange password =
      as_admin1 p password (genkey_in (range_uid lockingrange))

  unfoldable pub rekey_locking_range_sum : List ℕ → List ℕ → List ℕ → M ℕ
  rekey_locking_range_sum lr uid password =
      with_session p new_session opal_lockingsp_uid (some password) uid (λ rc. rc) (genkey_in lr)

  unfoldable pub setup_locking_range : ℕ → ℕ → ℕ → List ℕ → M ℕ
  setup_locking_range lockingrange start length password =
      if ltb lockingrange 1
      then pure (error_code unsuported_locking_range)
      else (as_admin1 p password (λ s. invoke p s (
            table_command (range_uid lockingrange) OpalMethod.set
              (set_args (setup_columns start length opal_false))))
          >>? rekey_locking_range lockingrange password)

  unfoldable pub setup_locking_range_sum : ℕ → ℕ → ℕ → List ℕ → M ℕ
  setup_locking_range_sum lockingrange start length password =
      if ltb lockingrange 1
      then pure (error_code unsuported_locking_range)
      else (as_user lockingrange password (λ s. invoke p s (
            table_command (range_uid lockingrange) OpalMethod.set
              (set_args (setup_columns start length opal_true))))
          >>? rekey_locking_range_sum (range_uid lockingrange) (user_auth (lockingrange + 1))
              password)

  unfoldable pub configure_locking_range : ℕ → ℕ → List ℕ → M ℕ
  configure_locking_range lockingrange enabled password = as_admin1 p password (λ s. invoke p s (
      table_command (range_uid lockingrange) OpalMethod.set (
        set_args (
          (readlockenabled, opal (bit_token enabled 1))
          ∷ (writelockenabled, opal (bit_token enabled 2))
          ∷ []))))

  -- The columns that a change of state sets: an archive state leaves the write lock.
  abbrev pub lock_columns : OpalToken × OpalToken × Bool → List (OpalToken × Token)
  lock_columns (r, w, archiveuser) =
      (readlocked, opal r) ∷ (if archiveuser then [] else (writelocked, opal w) ∷ [])

  -- `setLockingRange` behind its switch; it ends its command with `completeSpecial`.
  unfoldable pub lock_range : ℕ → List ℕ → Option (OpalToken × OpalToken × Bool) → M ℕ
  lock_range lockingrange password none = pure (error_code invalid_parameter)
  lock_range lockingrange password (some v) =
      as_admin1 p password
        (λ s. invoke p s (special_command (range_uid lockingrange) (set_args (lock_columns v))))

  unfoldable pub set_locking_range : ℕ → ℕ → List ℕ → M ℕ
  unfolding lock_values lock_range
  set_locking_range lockingrange lockingstate password =
      lock_range lockingrange password (lock_values lockingstate)

  -- Single user mode has no archive states, and enables the locks with the same call.
  unfoldable pub lock_range_sum : ℕ → List ℕ → Option (OpalToken × OpalToken × Bool) → M ℕ
  lock_range_sum lockingrange password (some (r, w, false)) = as_user lockingrange password (λ s.
      invoke p s (
        table_command (range_uid lockingrange) OpalMethod.set (
          set_args (
            (readlockenabled, opal opal_true)
            ∷ (writelockenabled, opal opal_true)
            ∷ (readlocked, opal r)
            ∷ (writelocked, opal w)
            ∷ []))))
  lock_range_sum lockingrange password (some (r, w, true)) = pure (error_code invalid_parameter)
  lock_range_sum lockingrange password none = pure (error_code invalid_parameter)

  unfoldable pub set_locking_range_sum : ℕ → ℕ → List ℕ → M ℕ
  unfolding lock_values lock_range_sum
  set_locking_range_sum lockingrange lockingstate password =
      lock_range_sum lockingrange password (lock_values lockingstate)

  unfoldable pub erase_locking_range_sum : ℕ → List ℕ → M ℕ
  erase_locking_range_sum lockingrange password =
      as_admin1 p password (λ s. invoke p s (table_command (range_uid lockingrange) erase no_args))
