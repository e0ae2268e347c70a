-- ===== src/Options/Table.antt =====
-- Common/DtaOptions.cpp: the options, in the order of their tests.
use sedutil.Prelude.{ℕ, List, [], ◌∷◌, ◌++◌, codes, ltb, if◌then◌else◌, length}
use Prim.Native.String.{String}
use sedutil.Outcome.{Outcome, done}
use sedutil.Lexicon.Status.{
  error_code, invalid_command, lockingstate_code, readwrite, readonly, locked,
}
use sedutil.Options.{
  Action, Step, CommandOption, option_is, skip, one_of, mbrstate_target, lockingrange_target,
  lockingstate_target, password_field, userid_field, newpassword_field, pbafile_field, device_field,
  lrstart_field, lrlength_field, initial_setup, set_sid_password, setup_sum, set_admin1_pwd,
  set_password, set_password_sum, load_pba_image, print_locking_range_status, set_locking_range,
  revert_tper, revert_no_erase, set_locking_range_sum, revert_locking_sp, psid_revert,
  psid_revert_admin_sp, yes_i_really_want_to_erase_all, enable_locking_range, disable_locking_range,
  readonly_locking_range, setup_locking_range, setup_locking_range_sum, list_locking_ranges,
  list_locking_range, rekey_locking_range, set_bands_enabled, set_band_enabled, set_mbr_enable,
  set_mbr_done, enable_user, activate_locking_sp, activate_locking_sp_sum, erase_locking_range_sum,
  query, scan, is_valid_sed, erase_locking_range, take_ownership, validate_pbkdf2, obj_dump,
  print_default_password, raw_cmd, Result, failed, no_options, parse_from,
}

-- The numbers of the locking ranges.
abbrev a_range : Step
a_range = one_of lockingrange_target (
    (codes "0", 0)
    ∷ (codes "1", 1)
    ∷ (codes "2", 2)
    ∷ (codes "3", 3)
    ∷ (codes "4", 4)
    ∷ (codes "5", 5)
    ∷ (codes "6", 6)
    ∷ (codes "7", 7)
    ∷ (codes "8", 8)
    ∷ (codes "9", 9)
    ∷ (codes "10", 10)
    ∷ (codes "11", 11)
    ∷ (codes "12", 12)
    ∷ (codes "13", 13)
    ∷ (codes "14", 14)
    ∷ (codes "15", 15)
    ∷ [])

abbrev a_switch : Step
a_switch =
    one_of mbrstate_target
      ((codes "ON", 1) ∷ (codes "on", 1) ∷ (codes "off", 0) ∷ (codes "OFF", 0) ∷ [])

abbrev a_state : Step
a_state = one_of lockingstate_target (
    (codes "RW", lockingstate_code readwrite)
    ∷ (codes "rw", lockingstate_code readwrite)
    ∷ (codes "RO", lockingstate_code readonly)
    ∷ (codes "ro", lockingstate_code readonly)
    ∷ (codes "LK", lockingstate_code locked)
    ∷ (codes "lk", lockingstate_code locked)
    ∷ [])

abbrev named : String → Action → ℕ → List Step → CommandOption
named name action count steps = record {
  name = codes name;
  action = action;
  count = count;
  steps = steps;
}

abbrev first_options : List CommandOption
first_options =
    named "initialSetup" initial_setup 2 (option_is password_field ∷ option_is device_field ∷ [])
    ∷ named "setSIDPassword" set_sid_password 3
        (option_is password_field ∷ option_is newpassword_field ∷ option_is device_field ∷ [])
    ∷ named "setup_SUM" setup_sum 6 (
        a_range
        ∷ option_is lrstart_field
        ∷ option_is lrlength_field
        ∷ option_is password_field
        ∷ option_is newpassword_field
        ∷ option_is device_field
        ∷ [])
    ∷ named "setAdmin1Pwd" set_admin1_pwd 3
        (option_is password_field ∷ option_is newpassword_field ∷ option_is device_field ∷ [])
    ∷ named "loadPBAimage" load_pba_image 3
        (option_is password_field ∷ option_is pbafile_field ∷ option_is device_field ∷ [])
    ∷ named "revertTPer" revert_tper 2 (option_is password_field ∷ option_is device_field ∷ [])
    ∷ named "revertNoErase" revert_no_erase 2
        (option_is password_field ∷ option_is device_field ∷ [])
    ∷ named "PSIDrevert" psid_revert 2 (option_is password_field ∷ option_is device_field ∷ [])
    ∷ named "PSIDrevertAdminSP" psid_revert_admin_sp 2
        (option_is password_field ∷ option_is device_field ∷ [])
    ∷ named "yesIreallywanttoERASEALLmydatausingthePSID" yes_i_really_want_to_erase_all 2
        (option_is password_field ∷ option_is device_field ∷ [])
    ∷ named "enableuser" enable_user 2
        (option_is password_field ∷ option_is userid_field ∷ option_is device_field ∷ [])
    ∷ named "activateLockingSP" activate_locking_sp 2
        (option_is password_field ∷ option_is device_field ∷ [])
    ∷ named "activateLockingSP_SUM" activate_locking_sp_sum 3
        (a_range ∷ option_is password_field ∷ option_is device_field ∷ [])
    ∷ named "eraseLockingRange_SUM" erase_locking_range_sum 3
        (a_range ∷ option_is password_field ∷ option_is device_field ∷ [])
    ∷ named "query" query 1 (option_is device_field ∷ [])
    ∷ named "scan" scan 0 ([])
    ∷ named "isValidSED" is_valid_sed 1 (option_is device_field ∷ [])
    ∷ named "eraseLockingRange" erase_locking_range 3
        (a_range ∷ option_is password_field ∷ option_is device_field ∷ [])
    ∷ named "takeOwnership" take_ownership 2
        (option_is password_field ∷ option_is device_field ∷ [])
    ∷ named "revertLockingSP" revert_locking_sp 2
        (option_is password_field ∷ option_is device_field ∷ [])
    ∷ named "setPassword" set_password 4 (
        option_is password_field
        ∷ option_is userid_field
        ∷ option_is newpassword_field
        ∷ option_is device_field
        ∷ [])
    ∷ named "setPassword_SUM" set_password_sum 4 (
        option_is password_field
        ∷ option_is userid_field
        ∷ option_is newpassword_field
        ∷ option_is device_field
        ∷ [])
    ∷ named "validatePBKDF2" validate_pbkdf2 0 ([])
    ∷ []

abbrev switch_options : List CommandOption
switch_options =
    named "setMBREnable" set_mbr_enable 3
      (a_switch ∷ option_is password_field ∷ option_is device_field ∷ [])
    ∷ named "setMBRDone" set_mbr_done 3
        (a_switch ∷ option_is password_field ∷ option_is device_field ∷ [])
    ∷ named "printLockingRangeStatus" print_locking_range_status 3
        (a_range ∷ option_is password_field ∷ option_is device_field ∷ [])
    ∷ named "setLockingRange" set_locking_range 4
        (a_range ∷ a_state ∷ option_is password_field ∷ option_is device_field ∷ [])
    ∷ named "setLockingRange_SUM" set_locking_range_sum 4
        (a_range ∷ a_state ∷ option_is password_field ∷ option_is device_field ∷ [])
    ∷ named "enableLockingRange" enable_locking_range 3
        (a_range ∷ option_is password_field ∷ option_is device_field ∷ [])
    ∷ named "disableLockingRange" disable_locking_range 3
        (a_range ∷ option_is password_field ∷ option_is device_field ∷ [])
    ∷ []

abbrev range_options : List CommandOption
range_options =
    named "setupLockingRange" setup_locking_range 5 (
      a_range
      ∷ option_is lrstart_field
      ∷ option_is lrlength_field
      ∷ option_is password_field
      ∷ option_is device_field
      ∷ [])
    ∷ named "setupLockingRange_SUM" setup_locking_range_sum 5 (
        a_range
        ∷ option_is lrstart_field
        ∷ option_is lrlength_field
        ∷ option_is password_field
        ∷ option_is device_field
        ∷ [])
    ∷ named "readonlyLockingRange" readonly_locking_range 3
        (a_range ∷ option_is password_field ∷ option_is device_field ∷ [])
    ∷ named "listLockingRanges" list_locking_ranges 2
        (option_is password_field ∷ option_is device_field ∷ [])
    ∷ named "listLockingRange" list_locking_range 3
        (a_range ∷ option_is password_field ∷ option_is device_field ∷ [])
    ∷ named "rekeyLockingRange" rekey_locking_range 3
        (a_range ∷ option_is password_field ∷ option_is device_field ∷ [])
    ∷ named "setBandsEnabled" set_bands_enabled 2
        (option_is password_field ∷ option_is device_field ∷ [])
    ∷ named "setBandEnabled" set_band_enabled 3
        (a_range ∷ option_is password_field ∷ option_is device_field ∷ [])
    ∷ named "objDump" obj_dump 5 (skip 4 ∷ option_is device_field ∷ [])
    ∷ named "printDefaultPassword" print_default_password 1 (option_is device_field ∷ [])
    ∷ named "rawCmd" raw_cmd 7 (skip 6 ∷ option_is device_field ∷ [])
    ∷ []

unfoldable pub options : List CommandOption
options = first_options ++ switch_options ++ range_options

-- `DtaOptions`: a round for each argument is enough, as each round goes to a later one.
unfoldable pub dta_options : List (List ℕ) → Outcome Result
unfolding parse_from options
dta_options argv =
    if ltb (length argv) 2
    then done (failed (error_code invalid_command))
    else parse_from options argv (length argv) 1 2 no_options
