-- ===== src/Linux/Host.antt =====
-- linux/DtaDevOS.cpp: the drivers as the machine that the main program runs on. A drive is identified
-- before it has any request, and says the same of itself each time.
use sedutil.Prelude.{
  ℕ, ◌≡◌, refl, arith, Bool, true, false, List, [], Option, some, length, codes, ◌==◌,
  if◌then◌else◌, inl, inr, Bool-cases,
}
use sedutil.Outcome.{done}
use sedutil.Structures.{OpalDiskInfo, no_info, device_type_other}
use sedutil.Device.{filled, Request, Reply, Platform, DeviceClass, DtaDev}
use sedutil.Discovery.Known.{Consistent}
use sedutil.Discovery.Requests.{is_any_ssc}
use sedutil.Opal.Users.{begins_with}
use sedutil.Linux.{Bus, NvmeStatus, errno, status, SgAnswer, Kernel, drive_send_cmd}
use sedutil.Linux.Identify.{
  identify_io, inquiry_io, controller_io, read_inquiry, read_identify, read_controller,
  identify_sata, identify_nvme,
}
use sedutil.Main.Open.{Machine, init_os}
use sedutil.Main.{choose_class}
use sedutil.Main.Choice.{choose_class-init_os}

pub record Host : Type 0 where
  pub kernel : List ℕ → Kernel
  pub opens : List ℕ → Bool
  pub file : List ℕ → Option (List ℕ)
  pub entries : List (List ℕ)
  pub pbkdf2 : List ℕ → List ℕ → ℕ → ℕ → List ℕ
  pub length-pbkdf2 :
      (password salt : List ℕ) (iter size : ℕ) → length (pbkdf2 password salt iter size) ≡ size
  pub polls : ℕ

module _ (host : Host) (name : List ℕ) where
  -- `identify` of the driver that the name asks for, on cleared information
  unfoldable pub identified : OpalDiskInfo × Bus
  unfolding identify_nvme identify_sata
  identified =
      if begins_with (codes "/dev/nvme") name
      then identify_nvme (host.kernel name) [] no_info
      else identify_sata (host.kernel name) [] no_info

  -- `DtaDevOS::sendCmd`; a device is open only if it has a driver.
  unfoldable pub os_send_cmd : List Request → Request → Reply
  unfolding identified
  os_send_cmd earlier req =
      if host.opens name
      then drive_send_cmd (host.kernel name) identified.1 earlier req
      else record { rc = 0xfe; buffer = [] }

  abbrev pub platform_of : Platform
  platform_of = record {
    send_cmd = os_send_cmd;
    pbkdf2 = host.pbkdf2;
    length-pbkdf2 = host.length-pbkdf2;
    polls = host.polls;
  }

abbrev pub linux : Host → Machine
linux host = record {
  opens = host.opens;
  identified = λ name. (identified host name).0;
  platform = platform_of host;
  file = host.file;
  entries = host.entries;
}

-- The identification leaves the flags of the subsystem classes alone.
read_inquiry-Consistent :
    (info : OpalDiskInfo) (answer : SgAnswer)
    → Consistent info
    → Consistent (read_inquiry answer info).0
unfolding read_inquiry
read_inquiry-Consistent info answer h = ground (arith, h)

read_identify-Consistent :
    (info : OpalDiskInfo) (answer inquired : SgAnswer)
    → Consistent info
    → Consistent (read_identify answer inquired info).0
unfolding read_identify
read_identify-Consistent info answer inquired h =
    ground
      (arith, read_inquiry-Consistent (record info { dev_type = device_type_other }) inquired h)

read_controller-Consistent :
    (info : OpalDiskInfo) (result : NvmeStatus) (ctrl : List ℕ)
    → Consistent info
    → Consistent (read_controller result ctrl info).0
unfolding read_controller
read_controller-Consistent info (errno e) ctrl h = h
read_controller-Consistent info (status s) ctrl h = ground (arith, h)

module _ (host : Host) (name : List ℕ) where
  identified-Consistent : Consistent (identified host name).0
  unfolding identified identify_nvme identify_sata
  identified-Consistent =
      let k = host.kernel name in
      elim (Bool-cases (begins_with (codes "/dev/nvme") name)) [
        | inl e ↦ rw e (
            read_controller-Consistent no_info (k.nvme_admin [] controller_io).result
              (filled 4096 (k.nvme_admin [] controller_io).buffer) refl)
        | inr e ↦
            rw e (
              read_identify-Consistent no_info (k.sg_io [] identify_io) (k.sg_io [] inquiry_io)
                refl)
      ]

  -- On Linux, a device that opens and turns out to have some subsystem class has one that the main
  -- program knows, whatever the kernel and the drive answer.
  pub choose_class-linux :
      (d d' : DtaDev)
      → init_os (linux host) name d ≡ done (true, d')
      → (is_any_ssc d'.disk_info == 0) ≡ false
      → (c : DeviceClass) × (choose_class d'.disk_info ≡ some c)
  choose_class-linux d d' = choose_class-init_os (linux host) name d d' identified-Consistent
