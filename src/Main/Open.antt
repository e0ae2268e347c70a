-- ===== src/Main/Open.antt =====
-- linux/DtaDevOS.cpp: a device is opened, with the constructors of its classes in Common/DtaDevOpal1.cpp,
-- Common/DtaDevOpal2.cpp and Common/DtaDevEnterprise.cpp.
use sedutil.Prelude.{ℕ, Bool, true, false, ◌&&◌, ◌||◌, List, Option, ◌==◌, if◌then◌else◌, codes}
use sedutil.Outcome.{exit}
use sedutil.Structures.{OpalDiskInfo, DeviceType, device_type_other, no_info}
use sedutil.Session.Reply.{no_response}
use sedutil.Device.{
  Platform, Request, DeviceClass, opal1, opal2, enterprise, DtaDev, M, pure, ◌>>=◌, ◌>>◌, lift,
  gets, modify,
}
use sedutil.Discovery.Requests.{know, discovery0, is_opal2, is_opal1, is_eprise}
use sedutil.Opal.Users.{begins_with}
use sedutil.Opal.Setup as OpalSetup
use sedutil.Enterprise.Provider as EnterpriseProvider

-- What the operating system answers for a name of a device: whether the drive opens, what it says of
-- itself, and how it goes on. A file is its bytes, if it can be
-- opened; `entries` are the names in /dev, none if it cannot be opened.
pub record Machine : Type 0 where
  pub opens : List ℕ → Bool
  pub identified : List ℕ → OpalDiskInfo
  pub platform : List ℕ → Platform
  pub file : List ℕ → Option (List ℕ)
  pub entries : List (List ℕ)

-- A new object of a class, after the memset of `init`; `requests` are those the drive has had.
abbrev pub new_device : DeviceClass → List Request → DtaDev
new_device class requests = record {
  class = class;
  disk_info = no_info;
  no_hash_passwords = false;
  response = no_response;
  properties_response = no_response;
  tper_max_packet = 2048;
  tper_max_token = 1950;
  requests = requests;
}

abbrev pub is_other : DeviceType → Bool
is_other device_type_other = true
is_other _ = false

-- An assertion that does not hold ends the program.
abbrev pub assert_set : (OpalDiskInfo → ℕ) → M (Unit {0})
assert_set question = do
  info ← gets (λ d. d.disk_info)
  if question info == 0 then lift exit else pure tt

module _ (machine : Machine) (name : List ℕ) where
  -- `DtaDevOS::init`; the result is `isOpen`
  unfoldable pub init_os : M Bool
  init_os =
      if (begins_with (codes "/dev/nvme") name || begins_with (codes "/dev/s") name)
        && machine.opens name
      then (do
        modify (know (machine.identified name))
        if is_other (machine.identified name).dev_type
            then pure true
            else (do discovery0 (machine.platform name); pure true))
      else pure false

  -- The constructors of the three classes. That an exchange of the properties fails is logged.
  unfoldable pub construct : DeviceClass → M (Unit {0})
  construct opal2 = do
    init_os
    OpalSetup.properties_exchange (machine.platform name)
    assert_set is_opal2
  construct opal1 = do
    init_os
    OpalSetup.properties_exchange (machine.platform name)
    assert_set is_opal1
  construct enterprise = do
    init_os
    assert_set is_eprise
    EnterpriseProvider.properties_exchange (machine.platform name)
    pure tt
