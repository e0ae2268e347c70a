-- ===== src/Main.antt =====
-- Common/sedutil.cpp: the main program. What is printed is not modelled.
pub mod Virtual
pub mod Open
pub mod Scan
pub mod Choice
pub mod Closing
pub mod Ends
pub mod Settled
pub mod Run
pub mod Strings
mod Tests
use sedutil.Prelude.{
  ℕ, zero, suc, ◌+◌, ◌-◌, ◌%◌, ◌^◌, Bool, true, false, not, ◌&&◌, ◌||◌, List, [], ◌∷◌, Option, none,
  some, length, get_elem?, ltb, ◌==◌, if◌then◌else◌, codes,
}
use sedutil.Outcome
use sedutil.Outcome.{Outcome, done, fault, exit, or_fault}
use sedutil.Lexicon.Status.{error_code, command_error, invalid_command}
use sedutil.Structures.{OpalDiskInfo, DeviceType, device_type_other, no_info}
use sedutil.Session.Reply.{no_response}
use sedutil.Device.{
  Platform, Request, DeviceClass, opal1, opal2, enterprise, DtaDev, M, pure, ◌>>=◌, ◌>>◌, lift,
  gets, modify,
}
use sedutil.Discovery.Requests.{know, discovery0, is_opal2, is_opal1, is_eprise, is_any_ssc}
use sedutil.Opal.Users.{is_space, is_digit, scan_digits, begins_with}
use sedutil.Opal.Setup as OpalSetup
use sedutil.Enterprise.Provider as EnterpriseProvider
use sedutil.Options
use sedutil.Options.{Action, DtaOptions, Result, failed, parsed, no_action}
use sedutil.Options.Table.{dta_options}
use sedutil.Main.Virtual.{Methods, methods_of}
use sedutil.Main.Open.{Machine, new_device, init_os, construct}
use sedutil.Main.Scan.{disk_scan}

-- `atoll`, cut to 64 bits in two's complement
abbrev pub scan_sign64 : List ℕ → ℕ
scan_sign64 [] = 0
scan_sign64 (c ∷ l) =
    if c == 45
    then (2 ^ 64 - scan_digits 0 l % 2 ^ 64) % 2 ^ 64
    else if c == 43
    then scan_digits 0 l % 2 ^ 64
    else scan_digits 0 (c ∷ l) % 2 ^ 64

unfoldable pub atoll : List ℕ → ℕ
atoll [] = 0
atoll (c ∷ l) = let rest = atoll l in if is_space c then rest else scan_sign64 (c ∷ l)

-- Which class the main program makes of the information.
unfoldable pub choose_class : OpalDiskInfo → Option DeviceClass
choose_class info =
    if not (is_opal2 info == 0)
    then some opal2
    else if not (is_opal1 info == 0)
    then some opal1
    else if not (is_eprise info == 0)
    then some enterprise
    else none

-- argv[i]; behind the last one it is a null pointer, which every use of it follows
abbrev pub arg : List (List ℕ) → ℕ → M (List ℕ)
arg argv i = lift (or_fault (get_elem? argv i))

-- argv[argc - n]
abbrev pub arg_from_end : List (List ℕ) → ℕ → M (List ℕ)
arg_from_end argv n = if ltb (length argv) n then lift fault else arg argv (length argv - n)

module _ (machine : Machine) (name : List ℕ) where
  -- The device of the class that the discovery found, and then what is done with it.
  unfoldable pub with_class : Option DeviceClass → Bool → (Methods → M ℕ) → M ℕ
  with_class none no_hash use_device = pure (error_code invalid_command)
  with_class (some class) no_hash use_device = do
    modify (λ d. new_device class d.requests)
    construct machine name class
    modify (λ d. record d { no_hash_passwords = no_hash })
    use_device (methods_of (machine.platform name) class)

  unfoldable pub with_device : Bool → (Methods → M ℕ) → M ℕ
  with_device no_hash use_device = do
    present ← init_os machine name
    info ← gets (λ d. d.disk_info)
    if not present || (is_any_ssc info == 0)
        then pure (error_code command_error)
        else with_class (choose_class info) no_hash use_device

-- The switch over the actions that are done with a device.
module _ (file : List ℕ → Option (List ℕ)) (argv : List (List ℕ)) (opts : DtaOptions)
    (ms : Methods) where
  abbrev pub password : M (List ℕ)
  password = arg argv opts.password

  abbrev pub newpassword : M (List ℕ)
  newpassword = arg argv opts.newpassword

  abbrev pub userid : M (List ℕ)
  userid = arg argv opts.userid

  abbrev range : ℕ
  range = opts.lockingrange

  unfoldable pub perform : Action → M ℕ
  perform Action.initial_setup = password >>= ms.initial_setup
  perform Action.setup_sum = (do
    start ← arg argv opts.lrstart
    len ← arg argv opts.lrlength
    admin ← password
    new ← newpassword
    ms.setup_sum range (atoll start) (atoll len) admin new)
  perform Action.set_sid_password = (do
    old ← password
    new ← newpassword
    ms.set_sid_password old new)
  perform Action.set_admin1_pwd = (do
    old ← password
    new ← newpassword
    ms.set_password old (codes "Admin1") new)
  perform Action.load_pba_image = (do
    pw ← password
    f ← arg argv opts.pbafile
    ms.load_pba pw (file f))
  perform Action.print_locking_range_status = password >>= ms.print_locking_range_status range
  perform Action.set_locking_range = password >>= ms.set_locking_range range opts.lockingstate
  perform Action.set_locking_range_sum =
      password >>= ms.set_locking_range_sum range opts.lockingstate
  perform Action.enable_locking_range = password >>= ms.configure_locking_range range 3
  perform Action.disable_locking_range = password >>= ms.configure_locking_range range 0
  perform Action.readonly_locking_range = password >>= ms.configure_locking_range range 2
  perform Action.setup_locking_range = (do
    start ← arg argv opts.lrstart
    len ← arg argv opts.lrlength
    pw ← password
    ms.setup_locking_range range (atoll start) (atoll len) pw)
  perform Action.setup_locking_range_sum = (do
    start ← arg argv opts.lrstart
    len ← arg argv opts.lrlength
    pw ← password
    ms.setup_locking_range_sum range (atoll start) (atoll len) pw)
  perform Action.list_locking_ranges = password >>= ms.list_locking_ranges none
  perform Action.list_locking_range = password >>= ms.list_locking_ranges (some range)
  perform Action.rekey_locking_range = password >>= ms.rekey_locking_range range
  perform Action.set_bands_enabled = password >>= ms.set_bands_enabled none
  perform Action.set_band_enabled = password >>= ms.set_bands_enabled (some range)
  perform Action.set_mbr_done = password >>= ms.set_mbr_done opts.mbrstate
  perform Action.set_mbr_enable = password >>= ms.set_mbr_enable opts.mbrstate
  perform Action.enable_user = (do pw ← password; user ← userid; ms.enable_user pw user)
  perform Action.activate_locking_sp = password >>= ms.activate_locking_sp
  perform Action.activate_locking_sp_sum = password >>= ms.activate_locking_sp_sum range
  perform Action.erase_locking_range_sum = password >>= ms.erase_locking_range_sum range
  perform Action.query = pure 0
  perform Action.take_ownership = password >>= ms.take_ownership
  perform Action.revert_locking_sp = (do pw ← password; ms.revert_locking_sp pw 0)
  perform Action.set_password = (do
    old ← password
    user ← userid
    new ← newpassword
    ms.set_password old user new)
  perform Action.set_password_sum = (do
    old ← password
    user ← userid
    new ← newpassword
    ms.set_new_password_sum old user new)
  perform Action.revert_tper = (do pw ← password; ms.revert_tper pw 0 0)
  perform Action.revert_no_erase = (do pw ← password; ms.revert_locking_sp pw 1)
  perform Action.yes_i_really_want_to_erase_all = (do pw ← password; ms.revert_tper pw 1 0)
  perform Action.psid_revert = (do pw ← password; ms.revert_tper pw 1 0)
  perform Action.psid_revert_admin_sp = (do pw ← password; ms.revert_tper pw 1 1)
  perform Action.erase_locking_range = password >>= ms.erase_locking_range range
  perform Action.obj_dump = (do
    sp ← arg_from_end argv 5
    auth ← arg_from_end argv 4
    pass ← arg_from_end argv 3
    obj ← arg_from_end argv 2
    ms.obj_dump sp auth pass obj)
  perform Action.print_default_password = ms.print_default_password
  perform Action.raw_cmd = (do
    sp ← arg_from_end argv 7
    auth ← arg_from_end argv 6
    pass ← arg_from_end argv 5
    invoking ← arg_from_end argv 4
    method ← arg_from_end argv 3
    parms ← arg_from_end argv 2
    ms.raw_cmd sp auth pass invoking method parms)
  perform Action.scan = pure (error_code invalid_command)
  perform Action.is_valid_sed = pure (error_code invalid_command)
  perform Action.validate_pbkdf2 = pure (error_code invalid_command)
  perform Action.deadbeef = pure (error_code invalid_command)

  abbrev pub dispatch : M ℕ
  dispatch = perform opts.action

-- An index behind the last argument is that of the program's own name.
abbrev pub device_index : List (List ℕ) → DtaOptions → ℕ
device_index argv opts = if ltb (length argv - 1) opts.device then 0 else opts.device

-- The actions that the switch takes without a device of a class.
pub data Task : Type 0 where
  scanning checking validating with_disk : Task

abbrev pub task_of : Action → Task
task_of Action.scan = scanning
task_of Action.is_valid_sed = checking
task_of Action.validate_pbkdf2 = validating
task_of _ = with_disk

module _ (machine : Machine) (argv : List (List ℕ)) (opts : DtaOptions) where
  abbrev pub on_device : M ℕ
  on_device = do
    name ← arg argv (device_index argv opts)
    with_device machine name opts.no_hash_passwords (dispatch machine.file argv opts)

  abbrev pub check_disk : M ℕ
  check_disk = do name ← arg argv opts.device; init_os machine name; pure 0

  abbrev pub run_task : Task → Outcome (ℕ × DtaDev)
  run_task scanning =
      sedutil.Outcome.◌>>=◌ (disk_scan machine) (λ rc. done (rc, new_device opal2 []))
  run_task checking = check_disk (new_device opal2 [])
  run_task validating = done (error_code invalid_command, new_device opal2 [])
  run_task with_disk = on_device (new_device opal2 [])

  unfoldable pub run_options : Outcome (ℕ × DtaDev)
  run_options = run_task (task_of opts.action)

-- `main`: the return code, and the device as it is left. Its first object is of the generic class,
-- which makes no use of its class, `opal2` here.
unfoldable pub main : Machine → List (List ℕ) → Outcome (ℕ × DtaDev)
unfolding run_options
main machine argv = sedutil.Outcome.◌>>=◌ (dta_options argv) (λ r. elim r [
  | failed rc ↦ done (error_code command_error, new_device opal2 [])
  | parsed opts ↦ run_options machine argv opts
])
