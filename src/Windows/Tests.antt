-- ===== src/Windows/Tests.antt =====
-- Tests of the Windows layer.
use sedutil.Prelude.{◌++◌, ◌≡◌, refl, true, false, List, [], ◌∷◌, codes, replicate}
use sedutil.Structures.{if_send, no_info}
use sedutil.Device.{Request, Reply, opal2}
use sedutil.HashPwd.{dta_hash_pwd, dta_hash_password}
use sedutil.Discovery.Requests.{know}
use sedutil.Samples.{sample}
use sedutil.Linux.{sata}
use sedutil.Linux.Named.{Labels, labelled, drive_identify}
use sedutil.Main.Open.{new_device}
use sedutil.Opal.Users.{decimal}
use sedutil.Windows.{drive_name, usb, nvme, Control, disk_send_cmd, disk_identify, send_cmd_open}
use sedutil.Windows.Transport.{control_of}
use sedutil.Windows.Salt.{labelled_disk, dta_hash_pwd-labelled_disk, dta_hash_pwd-nvme}

abbrev request : Request
request = record { command = if_send; protocol = 1; com_id = 0x07fe; buffer = 7 ∷ []; size = 2048 }

abbrev refuses : List Request → Request → Reply
refuses earlier req = record { rc = 5; buffer = req.buffer }

abbrev labels : Labels
labels = record { serial = replicate 20 65; firmware = replicate 8 66; model = replicate 40 67 }

dta_hash_pwd-labelled_disk_example :
    dta_hash_pwd sample
      (know (disk_identify (labelled_disk labels) true usb no_info) (new_device opal2 []))
      (codes "secret")
    ≡ dta_hash_pwd sample
        (know (drive_identify sata (labelled sata labels) [] no_info).0 (new_device opal2 []))
        (codes "secret")
dta_hash_pwd-labelled_disk_example =
    dta_hash_pwd-labelled_disk labels no_info [] usb refl sample (new_device opal2 [])
      (codes "secret")

dta_hash_pwd-nvme_example :
    dta_hash_pwd sample
      (know (disk_identify (labelled_disk labels) true nvme no_info) (new_device opal2 []))
      (codes "secret")
    ≡ dta_hash_password sample (codes "secret") (replicate 20 0) 75000 32
dta_hash_pwd-nvme_example =
    dta_hash_pwd-nvme (labelled_disk labels) true sample (new_device opal2 []) (codes "secret") refl

-- A call that does not succeed leaves the status at zero, which USB takes for a success.
abbrev unplugged : Control
unplugged = record (control_of (λ rc. rc) refuses) {
  scsi_pass_through =
      λ earlier io. record { succeeds = false; last_error = 2; scsi_status = 0; buffer = [] };
}

failure_lost : (disk_send_cmd unplugged true usb [] request).rc ≡ 0
unfolding disk_send_cmd send_cmd_open
failure_lost = refl

-- The name begins with two backslashes.
name_bytes : drive_name 12 ≡ 92 ∷ 92 ∷ 46 ∷ 92 ∷ (codes "PhysicalDrive" ++ (49 ∷ 50 ∷ []))
unfolding decimal
name_bytes = refl
