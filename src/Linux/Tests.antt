-- ===== src/Linux/Tests.antt =====
-- Tests of the Linux layer, with a drive that describes itself as one of Opal 2.
use sedutil.Prelude.{
  ℕ, ◌≡◌, refl, ap, arith, true, List, [], ◌∷◌, codes, replicate, length-replicate, none, some,
  if◌then◌else◌, ◌==◌, ◌++◌,
}
use sedutil.Outcome.{done}
use sedutil.Structures.{if_send, no_info}
use sedutil.Device.{Platform, Request, Reply, DeviceClass, opal2, DtaDev}
use sedutil.Discovery.Encode.{opalv200, data_of}
use sedutil.Discovery.Loop.{learn, reply_of}
use sedutil.Discovery.Refinement.{features, ns_features, other_ns, discovery0-learn}
use sedutil.Discovery.Requests.{discovery_request, discovery0, is_any_ssc}
use sedutil.Linux.{sata, sas, status, Kernel, nvme_command, nvme_rc, send_cmd_nvme, drive_send_cmd}
use sedutil.Linux.Transport.{nvme_request, kernel_of, drive_send_cmd-carried}
use sedutil.Linux.Identify.{identify_nvme, read_controller}
use sedutil.Linux.Named.{Labels, labelled, labels_on, drive_identify, drive_identify-labelled}
use sedutil.Linux.Host.{Host, linux, identified, os_send_cmd, choose_class-linux}
use sedutil.Main.{choose_class}
use sedutil.Main.Open.{new_device, init_os}

abbrev header : List ℕ
header = replicate 44 0

abbrev first : List ℕ
first =
    reply_of features header
      (opalv200 (record no_info.opal20_info { base_com_id = 0x1004; num_com_ids = 1 }) ∷ [])

abbrev empty_ns : List ℕ
empty_ns = reply_of ns_features header (other_ns 0x0404 (1 ∷ 2 ∷ []) ∷ [])

abbrev describes : List Request → Request → Reply
describes earlier req =
    if req.com_id == 1
    then record { rc = 0; buffer = first }
    else record { rc = 0; buffer = empty_ns }

-- A request and its answer over the bus of a SAS drive.
abbrev request : Request
request = record { command = if_send; protocol = 1; com_id = 0x07fe; buffer = 7 ∷ []; size = 2048 }

abbrev refuses : List Request → Request → Reply
refuses earlier req = record { rc = 5; buffer = req.buffer }

drive_send_cmd-carried_example :
    drive_send_cmd (kernel_of refuses) sas [] request ≡ record { rc = 0xff; buffer = 7 ∷ [] }
drive_send_cmd-carried_example =
    drive_send_cmd-carried refuses [] request sas
      (refl, omega arith, omega arith, refl, omega arith) (omega arith)

abbrev labels : Labels
labels = record { serial = replicate 20 65; firmware = replicate 8 66; model = replicate 40 67 }

drive_identify-labelled_example :
    drive_identify sata (labelled sata labels) [] no_info ≡ (labels_on sata labels no_info, sata)
drive_identify-labelled_example = drive_identify-labelled labels no_info [] sata (refl, refl, refl)

-- A status with a zero low byte reads as success.
abbrev command_specific : Kernel
command_specific = record (kernel_of refuses) {
  nvme_admin = λ earlier cmd. record { result = status 0x100; buffer = [] };
}

status_lost : (send_cmd_nvme command_specific [] request).rc ≡ 0
unfolding send_cmd_nvme nvme_rc
status_lost = refl

abbrev kernel : Kernel
kernel = record (kernel_of describes) {
  nvme_admin = λ earlier cmd.
      if cmd.opcode == 6
      then record {
        result = status 0;
        buffer = replicate 4 0 ++ (replicate 20 65 ++ (replicate 40 67 ++ replicate 8 66));
      }
      else (kernel_of describes).nvme_admin earlier cmd;
}

abbrev host : Host
host = record {
  kernel = λ name. kernel;
  opens = λ name. true;
  file = λ name. none;
  entries = [];
  pbkdf2 = λ password salt iter size. replicate size 0;
  length-pbkdf2 = λ password salt iter size. length-replicate size 0;
  polls = 3;
}

abbrev disk : List ℕ
disk = codes "/dev/nvme0"

abbrev start : DtaDev
start = record (new_device opal2 []) { disk_info = (identified host disk).0 }

abbrev known : DtaDev
known = record start {
  disk_info = learn ns_features (other_ns 0x0404 (1 ∷ 2 ∷ []) ∷ []) (
      learn features
        (opalv200 (record no_info.opal20_info { base_com_id = 0x1004; num_com_ids = 1 }) ∷ [])
        start.disk_info);
  requests = discovery_request 2 ∷ discovery_request 1 ∷ [];
}

discovered : discovery0 ((linux host).platform disk) start ≡ done (tt, known)
unfolding data_of os_send_cmd identified identify_nvme read_controller drive_send_cmd send_cmd_nvme
    nvme_command nvme_rc kernel_of nvme_request
discovered =
    discovery0-learn ((linux host).platform disk) start header
      (opalv200 (record no_info.opal20_info { base_com_id = 0x1004; num_com_ids = 1 })) [] header
      (other_ns 0x0404 (1 ∷ 2 ∷ [])) [] refl (ground arith) (omega arith) refl (ground arith)
      (omega arith) refl refl

opened : init_os (linux host) disk (new_device opal2 []) ≡ done (true, known)
unfolding init_os identified identify_nvme read_controller
opened =
    ap
      (λ o.
        sedutil.Device.◌>>=◌ (λ (d : DtaDev). o) (λ u. sedutil.Device.pure true)
          (new_device opal2 []))
      discovered

choose_class-linux_example : (c : DeviceClass) × (choose_class known.disk_info ≡ some c)
unfolding is_any_ssc
choose_class-linux_example = choose_class-linux host disk (new_device opal2 []) known opened refl
