-- ===== src/Enterprise/Commands.antt =====
-- Common/DtaDevEnterprise.h: the commands that the program asks of an Enterprise drive, as values.
-- The other functions of the class log and return a constant, or end by a revert.
use sedutil.Prelude.{ℕ, Bool, List, Option}
use sedutil.Device.{Platform, M}
use sedutil.Raw
use sedutil.Enterprise.Bands
use sedutil.Enterprise.Users

pub data Command : Type 0 where
  initial_setup take_ownership : List ℕ → Command
  configure_locking_range set_locking_range : ℕ → ℕ → List ℕ → Command
  setup_locking_range : ℕ → ℕ → ℕ → List ℕ → Command
  rekey_locking_range erase_locking_range : ℕ → List ℕ → Command
  list_locking_ranges set_bands_enabled : Option ℕ → List ℕ → Command
  set_password : List ℕ → List ℕ → List ℕ → Command
  set_sid_password : List ℕ → List ℕ → Bool → Bool → Command
  print_default_password : Command
  obj_dump : List ℕ → List ℕ → List ℕ → List ℕ → Command
  raw_cmd : List ℕ → List ℕ → List ℕ → List ℕ → List ℕ → List ℕ → Command

unfoldable pub run : Platform → Command → M ℕ
run p (initial_setup pw) = Users.initial_setup p pw
run p (take_ownership pw) = Users.take_ownership p pw
run p (configure_locking_range n enabled pw) = Bands.configure_locking_range p n enabled pw
run p (set_locking_range n state pw) = Bands.set_locking_range p n state pw
run p (setup_locking_range n start len pw) = Bands.setup_locking_range p n start len pw
run p (rekey_locking_range n pw) = Bands.rekey_locking_range p n pw
run p (erase_locking_range n pw) = Bands.erase_locking_range p n pw
run p (list_locking_ranges range pw) = Bands.list_locking_ranges p pw range
run p (set_bands_enabled range pw) = Users.set_bands_enabled p range pw
run p (set_password pw user new) = Users.set_password p pw user new
run p (set_sid_password old new hashold hashnew) = Users.set_sid_password p old new hashold hashnew
run p print_default_password = Users.print_default_password p
run p (obj_dump sp auth pw obj) = Raw.enterprise_obj_dump p sp auth pw obj
run p (raw_cmd sp auth pw inv method parms) = Raw.raw_cmd p sp auth pw inv method parms
