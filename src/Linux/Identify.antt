-- ===== src/Linux/Identify.antt =====
-- linux/DtaDevLinuxSata.cpp and linux/DtaDevLinuxNvme.cpp: what a drive says of itself.
use sedutil.Prelude.{
  ℕ, ◌+◌, ◌*◌, ◌-◌, ◌%◌, ◌^◌, Bool, true, not, ◌&&◌, ◌||◌, List, [], ◌∷◌, take, drop, replicate,
  ◌==◌, if◌then◌else◌, bytes_eq,
}
use sedutil.Structures.{
  OpalDiskInfo, DeviceType, device_type_ata, device_type_sas, device_type_nvme, device_type_other,
}
use sedutil.Device.{Request, filled, min_buffer_length}
use sedutil.Linux.{
  Bus, sata, sas, nvme, SgIo, SgAnswer, NvmeAdminCmd, NvmeStatus, errno, status, Kernel, byte_at,
}

-- Neighbours change places.
unfoldable pub flip : List ℕ → List ℕ
flip (a ∷ b ∷ l) = b ∷ a ∷ flip l
flip (a ∷ []) = a ∷ []
flip [] = []

-- `n` bytes of a buffer from an offset
abbrev pub part : ℕ → ℕ → List ℕ → List ℕ
part offset n buffer = take n (drop offset buffer)

-- `safecopy`: the source is cut to the size of the target, or zeros follow it.
unfoldable pub safecopy : ℕ → List ℕ → List ℕ
unfolding filled
safecopy size source = filled size source

abbrev pub identify_io : SgIo
identify_io = record {
  cdb = 0xa1 ∷ 4 * 2 ∷ 0x0e ∷ 0 ∷ 1 ∷ 0 ∷ 0 ∷ 0 ∷ 0 ∷ 0xec ∷ 0 ∷ 0 ∷ [];
  from_device = true;
  dxfer_len = 512;
  buffer = [];
}

-- INQUIRY for the 36 bytes of standard data
abbrev pub inquiry_io : SgIo
inquiry_io = record {
  cdb = 0x12 ∷ 0 ∷ 0 ∷ 0 ∷ 36 ∷ 0 ∷ [];
  from_device = true;
  dxfer_len = min_buffer_length;
  buffer = [];
}

abbrev pub of_type : DeviceType → OpalDiskInfo → OpalDiskInfo
of_type type info = record info { dev_type = type }

-- The bytes that were moved, in 32 bits, are those of the standard data, and it is a disk.
abbrev is_disk : SgAnswer → Bool
is_disk answer =
    ((min_buffer_length + 2 ^ 32 - answer.resid % 2 ^ 32) % 2 ^ 32 == 36)
    && (byte_at answer.buffer 0 % 2 ^ 5 == 0)

-- `identify_SAS` of what the kernel answers
unfoldable pub read_inquiry : SgAnswer → OpalDiskInfo → OpalDiskInfo × Bus
unfolding safecopy
read_inquiry answer info =
    if answer.failed || not (answer.masked_status == 0) || not (is_disk answer)
    then (of_type device_type_other info, sata)
    else (let page = filled min_buffer_length answer.buffer in
        (
          record info {
            serial_num = safecopy 20 (part 8 8 page);
            firmware_rev = safecopy 8 (part 32 4 page);
            model_num = safecopy 40 (part 16 16 page);
            dev_type = device_type_sas;
          },
          sas,
        ))

-- !memcmp(nullz.data(), buffer, 512)
unfoldable pub no_data : List ℕ → Bool
no_data page = bytes_eq (replicate 512 0) (take 512 page)

-- `DtaDevLinuxSata::identify` of what the kernel answers, and the later answer to `identify_SAS`
unfoldable pub read_identify : SgAnswer → SgAnswer → OpalDiskInfo → OpalDiskInfo × Bus
unfolding flip read_inquiry
read_identify answer inquired info =
    let page = filled min_buffer_length answer.buffer in
    if answer.failed || no_data page
    then read_inquiry inquired (of_type device_type_other info)
    else (
      record info {
        dev_type = device_type_ata;
        serial_num = flip (part 20 20 page);
        firmware_rev = flip (part 46 8 page);
        model_num = flip (part 54 40 page);
      },
      sata,
    )

-- `DtaDevLinuxNvme::identify` of what the kernel answers
unfoldable pub read_controller : NvmeStatus → List ℕ → OpalDiskInfo → OpalDiskInfo × Bus
read_controller (errno e) ctrl info = (of_type device_type_other info, nvme)
read_controller (status s) ctrl info =
    if s == 0
    then (
      record info {
        dev_type = device_type_nvme;
        serial_num = part 4 20 ctrl;
        model_num = part 24 40 ctrl;
        firmware_rev = part 64 8 ctrl;
      },
      nvme,
    )
    else (of_type device_type_other info, nvme)

-- IDENTIFY for the controller
abbrev pub controller_io : NvmeAdminCmd
controller_io = record {
  opcode = 0x06;
  nsid = 0;
  cdw10 = 1;
  cdw11 = 0;
  data_len = 4096;
  buffer = [];
}

module _ (k : Kernel) where
  unfoldable pub identify_sata : List Request → OpalDiskInfo → OpalDiskInfo × Bus
  unfolding read_identify
  identify_sata earlier info =
      read_identify (k.sg_io earlier identify_io) (k.sg_io earlier inquiry_io) info

  unfoldable pub identify_nvme : List Request → OpalDiskInfo → OpalDiskInfo × Bus
  unfolding read_controller
  identify_nvme earlier info =
      let answer = k.nvme_admin earlier controller_io in
      read_controller answer.result (filled 4096 answer.buffer) info
