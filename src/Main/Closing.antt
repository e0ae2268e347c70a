-- ===== src/Main/Closing.antt =====
-- Common/sedutil.cpp: the methods that end the sessions which they start.
use sedutil.Prelude.{ℕ, true, List, Option}
use sedutil.Device.{Platform, DeviceClass, opal1, opal2, enterprise}
use sedutil.Opal.Closes.{Closes, pure-Closes}
use sedutil.Opal.Commands as OpalCommands
use sedutil.Lexicon.Token.{opal_true}
use sedutil.Opal.Calls
use sedutil.Opal.Calls.{get_locking_range_status-Closes, get_default_password-Closes}
use sedutil.Enterprise.Commands as EnterpriseCommands
use sedutil.Enterprise.Calls.{run_lem}
use sedutil.Main.Virtual.{Methods, opal_methods, enterprise_methods, methods_of}

-- Every method but the two reverts ends the sessions that it starts.
pub record Closing (p : Platform) (ms : Methods) : Type 0 where
  pub initial_setup : (pw : List ℕ) → Closes p (ms.initial_setup pw)
  pub setup_sum :
      (n : ℕ)
      → (start : ℕ) → (len : ℕ) → (admin : List ℕ) → (pw : List ℕ)
      → Closes p (ms.setup_sum n start len admin pw)
  pub set_sid_password : (old : List ℕ) → (new : List ℕ) → Closes p (ms.set_sid_password old new)
  pub set_password :
      (pw : List ℕ) → (user : List ℕ) → (new : List ℕ) → Closes p (ms.set_password pw user new)
  pub set_new_password_sum :
      (pw : List ℕ)
      → (user : List ℕ) → (new : List ℕ) → Closes p (ms.set_new_password_sum pw user new)
  pub load_pba : (pw : List ℕ) → (image : Option (List ℕ)) → Closes p (ms.load_pba pw image)
  pub print_locking_range_status :
      (n : ℕ) → (pw : List ℕ) → Closes p (ms.print_locking_range_status n pw)
  pub set_locking_range :
      (n : ℕ) → (state : ℕ) → (pw : List ℕ) → Closes p (ms.set_locking_range n state pw)
  pub set_locking_range_sum :
      (n : ℕ) → (state : ℕ) → (pw : List ℕ) → Closes p (ms.set_locking_range_sum n state pw)
  pub configure_locking_range :
      (n : ℕ) → (enabled : ℕ) → (pw : List ℕ) → Closes p (ms.configure_locking_range n enabled pw)
  pub setup_locking_range :
      (n : ℕ)
      → (start : ℕ) → (len : ℕ) → (pw : List ℕ) → Closes p (ms.setup_locking_range n start len pw)
  pub setup_locking_range_sum :
      (n : ℕ)
      → (start : ℕ) → (len : ℕ) → (pw : List ℕ)
      → Closes p (ms.setup_locking_range_sum n start len pw)
  pub list_locking_ranges :
      (band : Option ℕ) → (pw : List ℕ) → Closes p (ms.list_locking_ranges band pw)
  pub rekey_locking_range : (n : ℕ) → (pw : List ℕ) → Closes p (ms.rekey_locking_range n pw)
  pub set_bands_enabled :
      (band : Option ℕ) → (pw : List ℕ) → Closes p (ms.set_bands_enabled band pw)
  pub set_mbr_done : (state : ℕ) → (pw : List ℕ) → Closes p (ms.set_mbr_done state pw)
  pub set_mbr_enable : (state : ℕ) → (pw : List ℕ) → Closes p (ms.set_mbr_enable state pw)
  pub enable_user : (pw : List ℕ) → (user : List ℕ) → Closes p (ms.enable_user pw user)
  pub activate_locking_sp : (pw : List ℕ) → Closes p (ms.activate_locking_sp pw)
  pub activate_locking_sp_sum : (n : ℕ) → (pw : List ℕ) → Closes p (ms.activate_locking_sp_sum n pw)
  pub erase_locking_range_sum : (n : ℕ) → (pw : List ℕ) → Closes p (ms.erase_locking_range_sum n pw)
  pub take_ownership : (new : List ℕ) → Closes p (ms.take_ownership new)
  pub erase_locking_range : (n : ℕ) → (pw : List ℕ) → Closes p (ms.erase_locking_range n pw)
  pub obj_dump :
      (sp : List ℕ)
      → (auth : List ℕ) → (pass : List ℕ) → (obj : List ℕ) → Closes p (ms.obj_dump sp auth pass obj)
  pub raw_cmd :
      (sp : List ℕ)
      → (auth : List ℕ) → (pass : List ℕ) → (invoking : List ℕ) → (method : List ℕ)
      → (parms : List ℕ) → Closes p (ms.raw_cmd sp auth pass invoking method parms)
  pub print_default_password : Closes p ms.print_default_password

module _ (p : Platform) where
  opal_run : (c : OpalCommands.Command) → Closes p (OpalCommands.run p c)
  opal_run c = Calls.run-Closes p c

  bands_run : (c : EnterpriseCommands.Command) → Closes p (EnterpriseCommands.run p c)
  bands_run c = run_lem p c

  opal_methods-Closing : Closing p (opal_methods p)
  opal_methods-Closing = record {
    initial_setup = λ pw. opal_run (OpalCommands.Command.initial_setup pw);
    setup_sum =
        λ n start len admin pw. opal_run (OpalCommands.Command.setup_sum n start len admin pw);
    set_sid_password =
        λ old new. opal_run (OpalCommands.Command.set_sid_password old new true true);
    set_password = λ pw user new. opal_run (OpalCommands.Command.set_password pw user new);
    set_new_password_sum =
        λ pw user new. opal_run (OpalCommands.Command.set_new_password_sum pw user new);
    load_pba = λ pw file. opal_run (OpalCommands.Command.load_pba pw file);
    print_locking_range_status =
        λ n pw. opal_run (OpalCommands.Command.print_locking_range_status n pw);
    set_locking_range = λ n state pw. opal_run (OpalCommands.Command.set_locking_range n state pw);
    set_locking_range_sum =
        λ n state pw. opal_run (OpalCommands.Command.set_locking_range_sum n state pw);
    configure_locking_range =
        λ n enabled pw. opal_run (OpalCommands.Command.configure_locking_range n enabled pw);
    setup_locking_range =
        λ n start len pw. opal_run (OpalCommands.Command.setup_locking_range n start len pw);
    setup_locking_range_sum =
        λ n start len pw. opal_run (OpalCommands.Command.setup_locking_range_sum n start len pw);
    list_locking_ranges = λ range pw. opal_run (OpalCommands.Command.list_locking_ranges pw);
    rekey_locking_range = λ n pw. opal_run (OpalCommands.Command.rekey_locking_range n pw);
    set_bands_enabled = λ range pw. opal_run (OpalCommands.Command.set_bands_enabled range pw);
    set_mbr_done = λ state pw. opal_run (OpalCommands.Command.set_mbr_done state pw);
    set_mbr_enable = λ state pw. opal_run (OpalCommands.Command.set_mbr_enable state pw);
    enable_user = λ pw user. opal_run (OpalCommands.Command.enable_user pw user opal_true);
    activate_locking_sp = λ pw. opal_run (OpalCommands.Command.activate_locking_sp pw);
    activate_locking_sp_sum = λ n pw. opal_run (OpalCommands.Command.activate_locking_sp_sum n pw);
    erase_locking_range_sum = λ n pw. opal_run (OpalCommands.Command.erase_locking_range_sum n pw);
    take_ownership = λ new. opal_run (OpalCommands.Command.take_ownership new);
    erase_locking_range = λ n pw. opal_run (OpalCommands.Command.erase_locking_range n pw);
    obj_dump = λ sp auth pass obj. opal_run (OpalCommands.Command.obj_dump sp auth pass obj);
    raw_cmd = λ sp auth pass invoking method parms.
        opal_run (OpalCommands.Command.raw_cmd sp auth pass invoking method parms);
    print_default_password = opal_run OpalCommands.Command.print_default_password;
  }

  enterprise_methods-Closing : Closing p (enterprise_methods p)
  enterprise_methods-Closing = record {
    initial_setup = λ pw. bands_run (EnterpriseCommands.Command.initial_setup pw);
    setup_sum = λ n start len admin pw. pure-Closes _;
    set_sid_password =
        λ old new. bands_run (EnterpriseCommands.Command.set_sid_password old new true true);
    set_password = λ pw user new. bands_run (EnterpriseCommands.Command.set_password pw user new);
    set_new_password_sum = λ pw user new. pure-Closes _;
    load_pba = λ pw file. pure-Closes _;
    print_locking_range_status = λ n pw. pure-Closes _;
    set_locking_range =
        λ n state pw. bands_run (EnterpriseCommands.Command.set_locking_range n state pw);
    set_locking_range_sum = λ n state pw. pure-Closes _;
    configure_locking_range =
        λ n enabled pw. bands_run (EnterpriseCommands.Command.configure_locking_range n enabled pw);
    setup_locking_range =
        λ n start len pw. bands_run (EnterpriseCommands.Command.setup_locking_range n start len pw);
    setup_locking_range_sum = λ n start len pw. pure-Closes _;
    list_locking_ranges =
        λ range pw. bands_run (EnterpriseCommands.Command.list_locking_ranges range pw);
    rekey_locking_range = λ n pw. bands_run (EnterpriseCommands.Command.rekey_locking_range n pw);
    set_bands_enabled =
        λ range pw. bands_run (EnterpriseCommands.Command.set_bands_enabled range pw);
    set_mbr_done = λ state pw. pure-Closes _;
    set_mbr_enable = λ state pw. pure-Closes _;
    enable_user = λ pw user. pure-Closes _;
    activate_locking_sp = λ pw. pure-Closes _;
    activate_locking_sp_sum = λ n pw. pure-Closes _;
    erase_locking_range_sum = λ n pw. pure-Closes _;
    take_ownership = λ new. bands_run (EnterpriseCommands.Command.take_ownership new);
    erase_locking_range = λ n pw. bands_run (EnterpriseCommands.Command.erase_locking_range n pw);
    obj_dump = λ sp auth pass obj. bands_run (EnterpriseCommands.Command.obj_dump sp auth pass obj);
    raw_cmd = λ sp auth pass invoking method parms.
        bands_run (EnterpriseCommands.Command.raw_cmd sp auth pass invoking method parms);
    print_default_password = bands_run (EnterpriseCommands.Command.print_default_password);
  }

  pub methods_of-Closing : (class : DeviceClass) → Closing p (methods_of p class)
  methods_of-Closing opal2 = opal_methods-Closing
  methods_of-Closing opal1 = opal_methods-Closing
  methods_of-Closing enterprise = enterprise_methods-Closing
