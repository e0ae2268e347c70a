-- ===== src/Opal/Commands.antt =====
-- Common/DtaDevOpal.h: the commands that the program asks of an Opal drive, as values.
use sedutil.Prelude.{ℕ, Bool, List, Option}
use sedutil.Lexicon.Token.{OpalToken}
use sedutil.Device.{Platform, M, pure}
use sedutil.Opal.Ranges
use sedutil.Opal.Users
use sedutil.Opal.Provider
use sedutil.Opal.Setup
use sedutil.Raw

pub data Command : Type 0 where
  initial_setup : List ℕ → Command
  setup_sum : ℕ → ℕ → ℕ → List ℕ → List ℕ → Command
  list_locking_ranges : List ℕ → Command
  setup_locking_range setup_locking_range_sum : ℕ → ℕ → ℕ → List ℕ → Command
  configure_locking_range : ℕ → ℕ → List ℕ → Command
  rekey_locking_range : ℕ → List ℕ → Command
  set_locking_range set_locking_range_sum : ℕ → ℕ → List ℕ → Command
  erase_locking_range_sum : ℕ → List ℕ → Command
  set_password set_new_password_sum : List ℕ → List ℕ → List ℕ → Command
  enable_user : List ℕ → List ℕ → OpalToken → Command
  set_mbr_done set_mbr_enable : ℕ → List ℕ → Command
  set_sid_password : List ℕ → List ℕ → Bool → Bool → Command
  take_ownership : List ℕ → Command
  activate_locking_sp : List ℕ → Command
  activate_locking_sp_sum : ℕ → List ℕ → Command
  load_pba : List ℕ → Option (List ℕ) → Command
  print_locking_range_status : ℕ → List ℕ → Command
  print_default_password : Command
  obj_dump : List ℕ → List ℕ → List ℕ → List ℕ → Command
  set_bands_enabled : Option ℕ → List ℕ → Command
  erase_locking_range : ℕ → List ℕ → Command
  rekey_locking_range_sum : List ℕ → List ℕ → List ℕ → Command
  raw_cmd : List ℕ → List ℕ → List ℕ → List ℕ → List ℕ → List ℕ → Command

unfoldable pub run : Platform → Command → M ℕ
run p (initial_setup pw) = Setup.initial_setup p pw
run p (setup_sum n start len admin pw) = Setup.setup_sum p n start len admin pw
run p (list_locking_ranges pw) = Ranges.list_locking_ranges p pw
run p (setup_locking_range n start len pw) = Ranges.setup_locking_range p n start len pw
run p (setup_locking_range_sum n start len pw) = Ranges.setup_locking_range_sum p n start len pw
run p (configure_locking_range n enabled pw) = Ranges.configure_locking_range p n enabled pw
run p (rekey_locking_range n pw) = Ranges.rekey_locking_range p n pw
run p (set_locking_range n state pw) = Ranges.set_locking_range p n state pw
run p (set_locking_range_sum n state pw) = Ranges.set_locking_range_sum p n state pw
run p (erase_locking_range_sum n pw) = Ranges.erase_locking_range_sum p n pw
run p (set_password pw user new) = Users.set_password p pw user new
run p (set_new_password_sum pw user new) = Users.set_new_password_sum p pw user new
run p (enable_user pw user status) = Users.enable_user p pw user status
run p (set_mbr_done state pw) = Provider.set_mbr_done p state pw
run p (set_mbr_enable state pw) = Provider.set_mbr_enable p state pw
run p (set_sid_password old new hashold hashnew) =
    Provider.set_sid_password p old new hashold hashnew
run p (take_ownership new) = Provider.take_ownership p new
run p (activate_locking_sp pw) = Provider.activate_locking_sp p pw
run p (activate_locking_sp_sum n pw) = Provider.activate_locking_sp_sum p n pw
run p (load_pba pw file) = Setup.load_pba p pw file
run p (print_locking_range_status n pw) = Ranges.print_locking_range_status p n pw
run p print_default_password = Provider.print_default_password p
-- These two only log.
run p (set_bands_enabled range pw) = pure 0
run p (erase_locking_range n pw) = pure 0
run p (rekey_locking_range_sum lr uid pw) = Ranges.rekey_locking_range_sum p lr uid pw
run p (obj_dump sp auth pw obj) = Raw.obj_dump p sp auth pw obj
run p (raw_cmd sp auth pw invoking method parms) = Raw.raw_cmd p sp auth pw invoking method parms
