-- ===== src/Linux.antt =====
-- linux/DtaDevLinuxSata.cpp and linux/DtaDevLinuxNvme.cpp: how a request of the program goes to the
-- kernel. An `ioctl` is a parameter, `Kernel`: a drive may answer as it likes, by all earlier requests.
-- Memory is the list of its bytes from its start, with zeros behind.
pub mod Identify
pub mod Transport
pub mod Named
pub mod Host
mod Tests
use sedutil.Prelude.{
  ℕ, zero, suc, ◌+◌, ◌*◌, ◌/◌, ◌%◌, ◌^◌, Bool, true, false, not, ◌&&◌, List, [], ◌∷◌, Option, none,
  some, get_elem?, ◌==◌, if◌then◌else◌,
}
use sedutil.Structures.{AtaCommand, if_recv, if_send, identify, OpalDiskInfo}
use sedutil.Device.{Request, Reply}

-- The driver of a drive. A SATA drive becomes a SAS drive when `isSAS` is set.
pub data Bus : Type 0 where
  sata sas nvme : Bus

-- What the fields of an `sg_io_hdr_t` ask for, with the buffer that is sent.
pub record SgIo : Type 0 where
  pub cdb : List ℕ
  pub from_device : Bool
  pub dxfer_len : ℕ
  pub buffer : List ℕ

-- What the kernel leaves in it, in the sense bytes and in the buffer; `failed` is a negative result.
pub record SgAnswer : Type 0 where
  pub failed : Bool
  pub sense : List ℕ
  pub masked_status : ℕ
  pub resid : ℕ
  pub buffer : List ℕ

-- A `nvme_admin_cmd`, with the buffer.
pub record NvmeAdminCmd : Type 0 where
  pub opcode : ℕ
  pub nsid : ℕ
  pub cdw10 : ℕ
  pub cdw11 : ℕ
  pub data_len : ℕ
  pub buffer : List ℕ

-- A negative result, with its `errno`, or the status of the drive.
pub data NvmeStatus : Type 0 where
  errno status : ℕ → NvmeStatus

pub record NvmeAnswer : Type 0 where
  pub result : NvmeStatus
  pub buffer : List ℕ

pub record Kernel : Type 0 where
  pub sg_io : List Request → SgIo → SgAnswer
  pub nvme_admin : List Request → NvmeAdminCmd → NvmeAnswer

-- The values of `ATACOMMAND`.
abbrev pub ata_code : AtaCommand → ℕ
ata_code if_recv = 0x5c
ata_code if_send = 0x5e
ata_code identify = 0xec

abbrev pub is_recv : AtaCommand → Bool
is_recv if_recv = true
is_recv _ = false

abbrev pub is_identify : AtaCommand → Bool
is_identify identify = true
is_identify _ = false

abbrev pub byte_at : List ℕ → ℕ → ℕ
byte_at l i = elim (get_elem? l i) [ none ↦ 0 | some b ↦ b ]

-- ATA PASS-THROUGH (12)
unfoldable pub sata_cdb : Request → List ℕ
sata_cdb req =
    0xa1
    ∷ (if is_recv req.command then 4 * 2 else 5 * 2)
    ∷ (if is_recv req.command then 0x0e else 0x06)
    ∷ req.protocol
    ∷ req.size / 512 % 2 ^ 8
    ∷ 0
    ∷ req.com_id % 2 ^ 8
    ∷ req.com_id / 2 ^ 8 % 2 ^ 8
    ∷ 0
    ∷ ata_code req.command
    ∷ 0
    ∷ 0
    ∷ []

-- Sense bytes that are neither zero nor an answer of an ATA drive are a failure.
abbrev pub sense_code : List ℕ → ℕ
sense_code sense =
    if not ((byte_at sense 0 == 0) && (byte_at sense 1 == 0))
      && not ((byte_at sense 0 == 0x72) && (byte_at sense 1 == 0x0b))
    then 0xff
    else byte_at sense 11

unfoldable pub sata_reply : SgAnswer → Reply
sata_reply answer =
    if answer.failed
    then record { rc = 0xff; buffer = [] }
    else record { rc = sense_code answer.sense; buffer = answer.buffer }

-- SECURITY PROTOCOL IN and OUT, with the lengths in blocks of 512 bytes
unfoldable pub sas_cdb : ℕ → Request → List ℕ
sas_cdb opcode req =
    opcode
    ∷ req.protocol
    ∷ req.com_id / 2 ^ 8 % 2 ^ 8
    ∷ req.com_id % 2 ^ 8
    ∷ 0x80
    ∷ 0
    ∷ req.size / 512 / 2 ^ 24 % 2 ^ 8
    ∷ req.size / 512 / 2 ^ 16 % 2 ^ 8
    ∷ req.size / 512 / 2 ^ 8 % 2 ^ 8
    ∷ req.size / 512 % 2 ^ 8
    ∷ 0
    ∷ 0
    ∷ []

unfoldable pub sas_reply : SgAnswer → Reply
sas_reply answer =
    if answer.failed
    then record { rc = 0xff; buffer = [] }
    else if answer.masked_status == 0
    then record { rc = 0; buffer = answer.buffer }
    else record { rc = 0xff; buffer = answer.buffer }

-- The shift of the protocol is that of an `int`, which is defined below 128.
unfoldable pub nvme_command : Request → NvmeAdminCmd
nvme_command req = record {
  opcode = if is_recv req.command then 0x82 else 0x81;
  nsid = 0;
  cdw10 = (req.protocol * 2 ^ 24 + req.com_id * 2 ^ 8) % 2 ^ 32;
  cdw11 = req.size;
  data_len = req.size;
  buffer = req.buffer;
}

-- The result is cut to the byte that the function returns.
unfoldable pub nvme_rc : NvmeStatus → ℕ
nvme_rc (errno e) = e % 2 ^ 8
nvme_rc (status s) = s % 2 ^ 8

module _ (k : Kernel) where
  -- `DtaDevLinuxSata::sendCmd`, where `isSAS` is not set
  unfoldable pub send_cmd_sata : List Request → Request → Reply
  unfolding sata_cdb sata_reply
  send_cmd_sata earlier req = sata_reply (
      k.sg_io earlier (record {
        cdb = sata_cdb req;
        from_device = is_recv req.command;
        dxfer_len = req.size;
        buffer = req.buffer;
      }))

  abbrev sas_io : ℕ → Bool → List Request → Request → Reply
  sas_io opcode from_device earlier req = sas_reply (
      k.sg_io earlier (record {
        cdb = sas_cdb opcode req;
        from_device = from_device;
        dxfer_len = req.size;
        buffer = req.buffer;
      }))

  abbrev pub sas_by : AtaCommand → List Request → Request → Reply
  sas_by if_recv earlier req = sas_io 0xa2 true earlier req
  sas_by if_send earlier req = sas_io 0xb5 false earlier req
  sas_by identify earlier req = record { rc = 0xff; buffer = [] }

  -- `DtaDevLinuxSata::sendCmd_SAS`
  unfoldable pub send_cmd_sas : List Request → Request → Reply
  unfolding sas_cdb sas_reply
  send_cmd_sas earlier req = sas_by req.command earlier req

  -- `DtaDevLinuxNvme::sendCmd`
  unfoldable pub send_cmd_nvme : List Request → Request → Reply
  unfolding nvme_command nvme_rc
  send_cmd_nvme earlier req =
      let answer = k.nvme_admin earlier (nvme_command req) in
      record { rc = nvme_rc answer.result; buffer = answer.buffer }

  -- The virtual `sendCmd` of the drive.
  unfoldable pub drive_send_cmd : Bus → List Request → Request → Reply
  drive_send_cmd sata earlier req = send_cmd_sata earlier req
  drive_send_cmd sas earlier req = send_cmd_sas earlier req
  drive_send_cmd nvme earlier req = send_cmd_nvme earlier req
