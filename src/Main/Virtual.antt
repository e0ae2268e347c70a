-- ===== src/Main/Virtual.antt =====
-- Common/DtaDev.h: the virtual methods that the main program calls, and what the two classes make of
-- them; the generic class, in Common/DtaDevGeneric.cpp, makes an error of each. A file comes as its bytes, if it can be opened.
use sedutil.Prelude.{ℕ, true, List, Option}
use sedutil.Lexicon.Status.{error_code, invalid_parameter}
use sedutil.Lexicon.Token.{opal_true}
use sedutil.Device.{Platform, DeviceClass, opal1, opal2, enterprise, M, pure}
use sedutil.Opal.Provider as OpalProvider
use sedutil.Opal.Commands as OpalCommands
use sedutil.Enterprise.Provider as EnterpriseProvider
use sedutil.Enterprise.Commands as EnterpriseCommands

pub record Methods : Type 0 where
  pub initial_setup : List ℕ → M ℕ
  pub setup_sum : ℕ → ℕ → ℕ → List ℕ → List ℕ → M ℕ
  pub set_sid_password : List ℕ → List ℕ → M ℕ
  pub set_password : List ℕ → List ℕ → List ℕ → M ℕ
  pub set_new_password_sum : List ℕ → List ℕ → List ℕ → M ℕ
  pub load_pba : List ℕ → Option (List ℕ) → M ℕ
  pub print_locking_range_status : ℕ → List ℕ → M ℕ
  pub set_locking_range : ℕ → ℕ → List ℕ → M ℕ
  pub set_locking_range_sum : ℕ → ℕ → List ℕ → M ℕ
  pub configure_locking_range : ℕ → ℕ → List ℕ → M ℕ
  pub setup_locking_range : ℕ → ℕ → ℕ → List ℕ → M ℕ
  pub setup_locking_range_sum : ℕ → ℕ → ℕ → List ℕ → M ℕ
  pub list_locking_ranges : Option ℕ → List ℕ → M ℕ
  pub rekey_locking_range : ℕ → List ℕ → M ℕ
  pub set_bands_enabled : Option ℕ → List ℕ → M ℕ
  pub set_mbr_done : ℕ → List ℕ → M ℕ
  pub set_mbr_enable : ℕ → List ℕ → M ℕ
  pub enable_user : List ℕ → List ℕ → M ℕ
  pub activate_locking_sp : List ℕ → M ℕ
  pub activate_locking_sp_sum : ℕ → List ℕ → M ℕ
  pub erase_locking_range_sum : ℕ → List ℕ → M ℕ
  pub take_ownership : List ℕ → M ℕ
  pub revert_locking_sp : List ℕ → ℕ → M ℕ
  pub revert_tper : List ℕ → ℕ → ℕ → M ℕ
  pub erase_locking_range : ℕ → List ℕ → M ℕ
  pub obj_dump : List ℕ → List ℕ → List ℕ → List ℕ → M ℕ
  pub raw_cmd : List ℕ → List ℕ → List ℕ → List ℕ → List ℕ → List ℕ → M ℕ
  pub print_default_password : M ℕ

-- `DtaDevGeneric`: each method logs that it is not there.
abbrev pub generic_methods : Methods
generic_methods = record {
  initial_setup = λ pw. pure 0xff;
  setup_sum = λ n start len admin pw. pure 0xff;
  set_sid_password = λ old new. pure 0xff;
  set_password = λ pw user new. pure 0xff;
  set_new_password_sum = λ pw user new. pure 0xff;
  load_pba = λ pw file. pure 0xff;
  print_locking_range_status = λ n pw. pure 0xff;
  set_locking_range = λ n state pw. pure 0xff;
  set_locking_range_sum = λ n state pw. pure 0xff;
  configure_locking_range = λ n enabled pw. pure 0xff;
  setup_locking_range = λ n start len pw. pure 0xff;
  setup_locking_range_sum = λ n start len pw. pure 0xff;
  list_locking_ranges = λ range pw. pure 0xff;
  rekey_locking_range = λ n pw. pure 0xff;
  set_bands_enabled = λ range pw. pure 0xff;
  set_mbr_done = λ state pw. pure 0xff;
  set_mbr_enable = λ state pw. pure 0xff;
  enable_user = λ pw user. pure 0xff;
  activate_locking_sp = λ pw. pure 0xff;
  activate_locking_sp_sum = λ n pw. pure 0xff;
  erase_locking_range_sum = λ n pw. pure 0xff;
  take_ownership = λ new. pure 0xff;
  revert_locking_sp = λ pw keep. pure 0xff;
  revert_tper = λ pw psid admin_sp. pure 0xff;
  erase_locking_range = λ n pw. pure 0xff;
  obj_dump = λ sp auth pass obj. pure 0xff;
  raw_cmd = λ sp auth pass invoking method parms. pure 0xff;
  print_default_password = pure 0xff;
}

module _ (p : Platform) where
  abbrev opal : OpalCommands.Command → M ℕ
  opal c = OpalCommands.run p c

  abbrev bands : EnterpriseCommands.Command → M ℕ
  bands c = EnterpriseCommands.run p c

  -- `DtaDevOpal`.
  abbrev pub opal_methods : Methods
  opal_methods = record {
    initial_setup = λ pw. opal (OpalCommands.Command.initial_setup pw);
    setup_sum = λ n start len admin pw. opal (OpalCommands.Command.setup_sum n start len admin pw);
    set_sid_password = λ old new. opal (OpalCommands.Command.set_sid_password old new true true);
    set_password = λ pw user new. opal (OpalCommands.Command.set_password pw user new);
    set_new_password_sum =
        λ pw user new. opal (OpalCommands.Command.set_new_password_sum pw user new);
    load_pba = λ pw file. opal (OpalCommands.Command.load_pba pw file);
    print_locking_range_status =
        λ n pw. opal (OpalCommands.Command.print_locking_range_status n pw);
    set_locking_range = λ n state pw. opal (OpalCommands.Command.set_locking_range n state pw);
    set_locking_range_sum =
        λ n state pw. opal (OpalCommands.Command.set_locking_range_sum n state pw);
    configure_locking_range =
        λ n enabled pw. opal (OpalCommands.Command.configure_locking_range n enabled pw);
    setup_locking_range =
        λ n start len pw. opal (OpalCommands.Command.setup_locking_range n start len pw);
    setup_locking_range_sum =
        λ n start len pw. opal (OpalCommands.Command.setup_locking_range_sum n start len pw);
    list_locking_ranges = λ range pw. opal (OpalCommands.Command.list_locking_ranges pw);
    rekey_locking_range = λ n pw. opal (OpalCommands.Command.rekey_locking_range n pw);
    set_bands_enabled = λ range pw. opal (OpalCommands.Command.set_bands_enabled range pw);
    set_mbr_done = λ state pw. opal (OpalCommands.Command.set_mbr_done state pw);
    set_mbr_enable = λ state pw. opal (OpalCommands.Command.set_mbr_enable state pw);
    enable_user = λ pw user. opal (OpalCommands.Command.enable_user pw user opal_true);
    activate_locking_sp = λ pw. opal (OpalCommands.Command.activate_locking_sp pw);
    activate_locking_sp_sum = λ n pw. opal (OpalCommands.Command.activate_locking_sp_sum n pw);
    erase_locking_range_sum = λ n pw. opal (OpalCommands.Command.erase_locking_range_sum n pw);
    take_ownership = λ new. opal (OpalCommands.Command.take_ownership new);
    revert_locking_sp = λ pw keep. OpalProvider.revert_locking_sp p pw keep;
    revert_tper = λ pw psid admin_sp. OpalProvider.revert_tper p pw psid admin_sp;
    erase_locking_range = λ n pw. opal (OpalCommands.Command.erase_locking_range n pw);
    obj_dump = λ sp auth pass obj. opal (OpalCommands.Command.obj_dump sp auth pass obj);
    raw_cmd = λ sp auth pass invoking method parms.
        opal (OpalCommands.Command.raw_cmd sp auth pass invoking method parms);
    print_default_password = opal OpalCommands.Command.print_default_password;
  }

  -- `DtaDevEnterprise`; what such a drive has not got is a constant.
  abbrev pub enterprise_methods : Methods
  enterprise_methods = record {
    initial_setup = λ pw. bands (EnterpriseCommands.Command.initial_setup pw);
    setup_sum = λ n start len admin pw. pure 1;
    set_sid_password =
        λ old new. bands (EnterpriseCommands.Command.set_sid_password old new true true);
    set_password = λ pw user new. bands (EnterpriseCommands.Command.set_password pw user new);
    set_new_password_sum = λ pw user new. pure 0;
    load_pba = λ pw file. pure (error_code invalid_parameter);
    print_locking_range_status = λ n pw. pure 1;
    set_locking_range =
        λ n state pw. bands (EnterpriseCommands.Command.set_locking_range n state pw);
    set_locking_range_sum = λ n state pw. pure (error_code invalid_parameter);
    configure_locking_range =
        λ n enabled pw. bands (EnterpriseCommands.Command.configure_locking_range n enabled pw);
    setup_locking_range =
        λ n start len pw. bands (EnterpriseCommands.Command.setup_locking_range n start len pw);
    setup_locking_range_sum = λ n start len pw. pure 0;
    list_locking_ranges =
        λ range pw. bands (EnterpriseCommands.Command.list_locking_ranges range pw);
    rekey_locking_range = λ n pw. bands (EnterpriseCommands.Command.rekey_locking_range n pw);
    set_bands_enabled = λ range pw. bands (EnterpriseCommands.Command.set_bands_enabled range pw);
    set_mbr_done = λ state pw. pure 0;
    set_mbr_enable = λ state pw. pure 0;
    enable_user = λ pw user. pure (error_code invalid_parameter);
    activate_locking_sp = λ pw. pure (error_code invalid_parameter);
    activate_locking_sp_sum = λ n pw. pure (error_code invalid_parameter);
    erase_locking_range_sum = λ n pw. pure (error_code invalid_parameter);
    take_ownership = λ new. bands (EnterpriseCommands.Command.take_ownership new);
    revert_locking_sp = λ pw keep. EnterpriseProvider.revert_locking_sp p pw keep;
    revert_tper = λ pw psid admin_sp. EnterpriseProvider.revert_tper p pw psid admin_sp;
    erase_locking_range = λ n pw. bands (EnterpriseCommands.Command.erase_locking_range n pw);
    obj_dump = λ sp auth pass obj. bands (EnterpriseCommands.Command.obj_dump sp auth pass obj);
    raw_cmd = λ sp auth pass invoking method parms.
        bands (EnterpriseCommands.Command.raw_cmd sp auth pass invoking method parms);
    print_default_password = bands EnterpriseCommands.Command.print_default_password;
  }

  abbrev pub methods_of : DeviceClass → Methods
  methods_of opal2 = opal_methods
  methods_of opal1 = opal_methods
  methods_of enterprise = enterprise_methods
