-- ===== src/Windows/Salt.antt =====
-- windows/DtaDiskATA.cpp, windows/DtaDiskUSB.cpp and windows/DtaDiskNVMe.cpp: the serial number that an
-- identification finds is the salt of the passwords. The drives write their labels by their standards.
use sedutil.Prelude.{
  bytes_eq, if◌then◌else◌, ℕ, ◌≡◌, refl, ap, Bool, true, false, not, ◌&&◌, List, replicate, ◌==◌,
  inl, inr, Bool-cases, [],
}
use sedutil.Structures.{OpalDiskInfo, no_info}
use sedutil.Device.{Platform, Request, Reply, DtaDev, filled, min_buffer_length}
use sedutil.HashPwd.{dta_hash_pwd, dta_hash_password}
use sedutil.Discovery.Requests.{know}
use sedutil.Linux.{sata, byte_at}
use sedutil.Linux.Identify.{identify_sata, read_identify, no_data}
use sedutil.Linux.Named.{Labels, ata_page, identify_command, labelled, drive_identify}
use sedutil.Windows.{
  DiskType, ata, usb, nvme, Answer, Control, disk_send_cmd, send_cmd_open, ata_reply, read_words,
  read_product, disk_identify, task_file, usb_cdb,
}

abbrev no_answer : Answer
no_answer = record { succeeds = false; last_error = 87; scsi_status = 0; buffer = [] }

abbrev page_answer : Labels → Answer
page_answer l = record { succeeds = true; last_error = 0; scsi_status = 0; buffer = ata_page l }

-- Windows with a disk that has the labels, and tells them for IDENTIFY DEVICE.
abbrev pub labelled_disk : Labels → Control
labelled_disk l = record {
  ata_pass_through = λ earlier io.
      if (byte_at io.task_file 6 == 0xec) && io.data_in && (io.transfer == 512)
      then page_answer l
      else no_answer;
  scsi_pass_through = λ earlier io.
      if bytes_eq io.cdb identify_command && io.data_in && (io.transfer == 512)
      then page_answer l
      else no_answer;
}

-- The disks that answer with the words of an ATA identification.
abbrev pub has_words : DiskType → Bool
has_words nvme = false
has_words _ = true

module _ (l : Labels) (info : OpalDiskInfo) (earlier : List Request) where
  serial-labelled_disk :
      (disk : DiskType)
      → has_words disk ≡ true
      → (disk_identify (labelled_disk l) true disk info).serial_num
        ≡ (drive_identify sata (labelled sata l) earlier info).0.serial_num
  unfolding disk_identify disk_send_cmd send_cmd_open ata_reply read_words identify_sata
      read_identify no_data filled task_file usb_cdb
  serial-labelled_disk ata h = refl
  serial-labelled_disk usb h = refl
  serial-labelled_disk nvme h = cc h

  -- A password has the same hash on Windows, where the drive is an ATA or a USB disk, and on Linux over
  -- SATA, for a drive that writes its labels as an ATA drive does.
  pub dta_hash_pwd-labelled_disk :
      (disk : DiskType)
      → has_words disk ≡ true
      → (p : Platform) (d : DtaDev) (password : List ℕ)
      → dta_hash_pwd p (know (disk_identify (labelled_disk l) true disk info) d) password
        ≡ dta_hash_pwd p (know (drive_identify sata (labelled sata l) earlier info).0 d) password
  unfolding dta_hash_pwd
  dta_hash_pwd-labelled_disk disk h p d password =
      ap (λ serial. dta_hash_pwd p (know (record info { serial_num = serial }) d) password)
        (serial-labelled_disk disk h)

read_product-serial :
    (reply : Reply) (info : OpalDiskInfo) → (read_product reply info).serial_num ≡ info.serial_num
unfolding read_product
read_product-serial reply info = elim (Bool-cases (not (reply.rc == 0) && not (reply.rc == 4))) [
  | inl e ↦ rw e refl
  | inr e ↦ elim (Bool-cases (no_data (filled min_buffer_length reply.buffer))) [
    | inl f ↦ rw (e, f) refl
    | inr f ↦ rw (e, f) refl
  ]
]

-- On Windows every NVMe drive has one salt: a password that is hashed for it is hashed with twenty zero
-- bytes, whatever the drive says of itself.
pub dta_hash_pwd-nvme :
    (c : Control) (opened : Bool) (p : Platform) (d : DtaDev) (password : List ℕ)
    → d.no_hash_passwords ≡ false
    → dta_hash_pwd p (know (disk_identify c opened nvme no_info) d) password
      ≡ dta_hash_password p password (replicate 20 0) 75000 32
unfolding dta_hash_pwd disk_identify
dta_hash_pwd-nvme c opened p d password h = rw (h, read_product-serial _ no_info) refl
