-- ===== src/Windows.antt =====
-- windows/DtaDevOS.cpp, windows/DtaDiskATA.cpp, windows/DtaDiskUSB.cpp and windows/DtaDiskNVMe.cpp: how a
-- request of the program goes to Windows. A `DeviceIoControl` is a parameter, `Control`: a drive may answer
-- as it likes, by all earlier requests. What is printed is not modelled.
pub mod Transport
pub mod Salt
mod Tests
use sedutil.Prelude.{
  ℕ, zero, suc, ◌+◌, ◌-◌, ◌*◌, ◌/◌, ◌%◌, ◌^◌, ◌≡◌, Bool, true, false, not, ◌&&◌, List, [], ◌∷◌,
  ◌++◌, Option, none, some, length, take, drop, codes, ◌==◌, if◌then◌else◌,
}
use sedutil.Outcome
use sedutil.Outcome.{Outcome, done}
use sedutil.Lexicon.Status.{error_code, open_err}
use sedutil.Structures.{
  AtaCommand, if_recv, if_send, identify, OpalDiskInfo, DeviceType, device_type_ata,
  device_type_usb, device_type_other, no_info,
}
use sedutil.Device.{
  Platform, Request, Reply, opal2, M, pure, ◌>>=◌, ◌>>◌, modify, filled, min_buffer_length,
}
use sedutil.Discovery.Requests.{know, discovery0}
use sedutil.Opal.Users.{to_string}
use sedutil.Linux.{ata_code, is_recv, is_identify}
use sedutil.Linux.Identify.{flip, part, no_data, of_type}
use sedutil.Main.Open.{new_device, is_other}

-- The subclasses of `DtaDiskType`.
pub data DiskType : Type 0 where
  ata usb nvme : DiskType

-- What the fields of an `ATA_PASS_THROUGH_DIRECT` ask for, with the buffer that is sent.
pub record AtaPassThrough : Type 0 where
  pub data_in : Bool
  pub task_file : List ℕ
  pub transfer : ℕ
  pub buffer : List ℕ

-- The same for a `SCSI_PASS_THROUGH_DIRECT`, whose `CdbLength` is the length of `cdb`.
pub record ScsiPassThrough : Type 0 where
  pub data_in : Bool
  pub cdb : List ℕ
  pub transfer : ℕ
  pub buffer : List ℕ

-- The result of the call, what `GetLastError` says after it, and what is left in the status and in the
-- buffer.
pub record Answer : Type 0 where
  pub succeeds : Bool
  pub last_error : ℕ
  pub scsi_status : ℕ
  pub buffer : List ℕ

pub record Control : Type 0 where
  pub ata_pass_through : List Request → AtaPassThrough → Answer
  pub scsi_pass_through : List Request → ScsiPassThrough → Answer

-- The direction that the requests take, but for the one to send.
abbrev pub data_in : AtaCommand → Bool
data_in if_send = false
data_in _ = true

unfoldable pub task_file : Request → List ℕ
task_file req =
    req.protocol
    ∷ req.size / 512 % 2 ^ 8
    ∷ 0
    ∷ req.com_id % 2 ^ 8
    ∷ req.com_id / 2 ^ 8 % 2 ^ 8
    ∷ 0
    ∷ ata_code req.command
    ∷ 0
    ∷ []

-- ATA PASS-THROUGH (12)
unfoldable pub usb_cdb : Request → List ℕ
usb_cdb req =
    0xa1
    ∷ (if is_recv req.command then 4 * 2 else if is_identify req.command then 4 * 2 else 5 * 2)
    ∷ (if is_recv req.command then 0x0e else if is_identify req.command then 0x0e else 0x06)
    ∷ req.protocol
    ∷ (if is_identify req.command then 1 else req.size / 512 % 2 ^ 8)
    ∷ 0
    ∷ req.com_id % 2 ^ 8
    ∷ req.com_id / 2 ^ 8 % 2 ^ 8
    ∷ 0
    ∷ ata_code req.command
    ∷ 0
    ∷ 0
    ∷ []

-- SECURITY PROTOCOL IN and OUT, with the lengths in bytes
abbrev pub security_cdb : ℕ → Request → List ℕ
security_cdb opcode req =
    opcode
    ∷ req.protocol
    ∷ req.com_id / 2 ^ 8 % 2 ^ 8
    ∷ req.com_id % 2 ^ 8
    ∷ 0
    ∷ 0
    ∷ req.size / 2 ^ 24 % 2 ^ 8
    ∷ req.size / 2 ^ 16 % 2 ^ 8
    ∷ req.size / 2 ^ 8 % 2 ^ 8
    ∷ req.size % 2 ^ 8
    ∷ 0
    ∷ 0
    ∷ []

-- The command for an NVMe drive, which Windows translates; IDENTIFY is an INQUIRY for 96 bytes.
abbrev pub nvme_cdb : AtaCommand → Request → List ℕ
nvme_cdb if_recv req = security_cdb 0xa2 req
nvme_cdb if_send req = security_cdb 0xb5 req
nvme_cdb identify req = 0x12 ∷ 0 ∷ 0 ∷ 0 ∷ 0x60 ∷ 0 ∷ []

unfoldable pub ata_reply : Answer → Reply
ata_reply answer = record { rc = if answer.last_error == 0 then 0 else 1; buffer = answer.buffer }

unfoldable pub nvme_reply : Answer → Reply
nvme_reply answer = record {
  rc = if (answer.scsi_status == 0) && answer.succeeds then 0 else 1;
  buffer = answer.buffer;
}

module _ (c : Control) where
  -- `sendCmd` of the three classes, for a disk that is open
  unfoldable pub send_cmd_open : DiskType → List Request → Request → Reply
  unfolding task_file usb_cdb ata_reply nvme_reply
  send_cmd_open ata earlier req = ata_reply (
      c.ata_pass_through earlier (record {
        data_in = data_in req.command;
        task_file = task_file req;
        transfer = req.size;
        buffer = req.buffer;
      }))
  send_cmd_open usb earlier req =
      let answer = c.scsi_pass_through earlier (record {
        data_in = data_in req.command;
        cdb = usb_cdb req;
        transfer = if is_identify req.command then 512 else req.size;
        buffer = req.buffer;
      }) in
      record { rc = answer.scsi_status % 2 ^ 8; buffer = answer.buffer }
  send_cmd_open nvme earlier req = nvme_reply (
      c.scsi_pass_through earlier (record {
        data_in = data_in req.command;
        cdb = nvme_cdb req.command req;
        transfer = req.size;
        buffer = req.buffer;
      }))

  unfoldable pub disk_send_cmd : Bool → DiskType → List Request → Request → Reply
  unfolding send_cmd_open
  disk_send_cmd false disk earlier req = record { rc = error_code open_err; buffer = [] }
  disk_send_cmd true disk earlier req = send_cmd_open disk earlier req

-- The words of an identification, in what ATA and USB disks answer; the layouts are the same.
unfoldable pub read_words : DeviceType → List ℕ → OpalDiskInfo → OpalDiskInfo
unfolding flip no_data
read_words type page info = if no_data page then of_type device_type_other info else record info {
  dev_type = type;
  serial_num = flip (part 20 20 page);
  firmware_rev = flip (part 46 8 page);
  model_num = flip (part 54 40 page);
}

-- `identify` of an NVMe drive, after the command; the serial number is not there.
unfoldable pub read_product : Reply → OpalDiskInfo → OpalDiskInfo
unfolding no_data filled
read_product reply info =
    let page = filled min_buffer_length reply.buffer in
    if not (reply.rc == 0) && not (reply.rc == 4)
    then info
    else if no_data page
    then of_type device_type_other info
    else record info {
      firmware_rev = part 32 4 page ++ drop 4 info.firmware_rev;
      model_num = part 16 16 page ++ drop 16 info.model_num;
    }

abbrev pub identify_request : ℕ → Request
identify_request size = record {
  command = identify;
  protocol = 0;
  com_id = 0;
  buffer = [];
  size = size;
}

-- `identify` of the three classes
unfoldable pub disk_identify : Control → Bool → DiskType → OpalDiskInfo → OpalDiskInfo
unfolding disk_send_cmd read_words read_product filled
disk_identify c opened ata info =
    read_words device_type_ata
      (filled min_buffer_length (disk_send_cmd c opened ata [] (identify_request 512)).buffer) info
disk_identify c opened usb info =
    read_words device_type_usb
      (filled min_buffer_length
        (disk_send_cmd c opened usb [] (identify_request min_buffer_length)).buffer)
      info
disk_identify c opened nvme info =
    read_product (disk_send_cmd c opened nvme [] (identify_request min_buffer_length)) info

-- What Windows answers for a name: whether the two calls of `CreateFile` succeed, the class for the bus
-- of the drive, if the query for it succeeds and finds one, and how it goes on.
pub record Computer : Type 0 where
  pub opens : List ℕ → Bool
  pub disk_opens : List ℕ → Bool
  pub attached : List ℕ → Option DiskType
  pub control : List ℕ → Control
  pub pbkdf2 : List ℕ → List ℕ → ℕ → ℕ → List ℕ
  pub length-pbkdf2 :
      (password salt : List ℕ) (iter size : ℕ) → length (pbkdf2 password salt iter size) ≡ size
  pub polls : ℕ

module _ (computer : Computer) (name : List ℕ) where
  abbrev pub disk_platform : DiskType → Platform
  disk_platform disk = record {
    send_cmd = disk_send_cmd (computer.control name) (computer.disk_opens name) disk;
    pbkdf2 = computer.pbkdf2;
    length-pbkdf2 = computer.length-pbkdf2;
    polls = computer.polls;
  }

  abbrev pub disk_info_of : DiskType → OpalDiskInfo
  disk_info_of disk = disk_identify (computer.control name) (computer.disk_opens name) disk no_info

  unfoldable pub init_disk : Option DiskType → M (Unit {0})
  unfolding disk_identify
  init_disk none = pure tt
  init_disk (some disk) = do
    modify (know (disk_info_of disk))
    if is_other (disk_info_of disk).dev_type then pure tt else discovery0 (disk_platform disk)

  -- `DtaDevOS::init`, on cleared information; the result is `isOpen`
  unfoldable pub init_windows : M Bool
  init_windows = do init_disk (computer.attached name); pure (computer.opens name)

abbrev pub max_disks : ℕ
max_disks = 20

-- sprintf_s(devname, 23, "\\\\.\\PhysicalDrive%i", i)
abbrev pub drive_name : ℕ → List ℕ
drive_name i = codes "\\\\.\\PhysicalDrive" ++ to_string i

-- The loop of the scan, with the number of disks that are left to the bound.
unfoldable pub scan_from : Computer → ℕ → Outcome ℕ
scan_from computer zero =
    sedutil.Outcome.◌>>=◌ (init_windows computer (drive_name max_disks) (new_device opal2 []))
      (λ opened. if opened.0 then done 1 else done 0)
scan_from computer (suc left) =
    let rest = scan_from computer left in
    sedutil.Outcome.◌>>=◌
      (init_windows computer (drive_name (max_disks - suc left)) (new_device opal2 []))
      (λ opened. if opened.0 then rest else done 0)

-- `DtaDevOS::diskScan`
unfoldable pub windows_scan : Computer → Outcome ℕ
unfolding scan_from
windows_scan computer = scan_from computer max_disks
