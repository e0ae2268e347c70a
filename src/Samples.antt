-- ===== src/Samples.antt =====
-- A drive to try the definitions on: it accepts every command, and answers each with the reply to
-- a StartSession call, for the host session 105 and the drive session 4097.
use sedutil.Prelude.{ℕ, List, [], ◌∷◌, false, replicate, length-replicate}
use sedutil.Outcome.{Outcome, done}
use sedutil.Structures.{if_recv, if_send, identify, OpalDiskInfo, no_info, DeviceType}
use sedutil.Command.Layout.{finished}
use sedutil.Session.Reply.{no_response}
use sedutil.Device.{Platform, Request, Reply, DtaDev, opal2}

abbrev pub sync_session : List ℕ
sync_session =
    0xf8 ∷ 0xa8 ∷ 0 ∷ 0 ∷ 0 ∷ 0 ∷ 0 ∷ 0 ∷ 0 ∷ 0xff ∷ 0xa8 ∷ 0 ∷ 0 ∷ 0 ∷ 0 ∷ 0 ∷ 0 ∷ 0xff ∷ 0x03
    ∷ 0xf0 ∷ 0x84 ∷ 0 ∷ 0 ∷ 0 ∷ 105 ∷ 0x84 ∷ 0 ∷ 0 ∷ 0x10 ∷ 0x01 ∷ 0xf1 ∷ 0xf9 ∷ 0xf0 ∷ 0 ∷ 0 ∷ 0
    ∷ 0xf1 ∷ []

abbrev pub accepts : List Request → Request → Reply
accepts earlier req = elim req.command [
  | if_recv ↦ record { rc = 0; buffer = finished 0 0 0 sync_session }
  | if_send ↦ record { rc = 0; buffer = [] }
  | identify ↦ record { rc = 0; buffer = [] }
]

abbrev pub sample : Platform
sample = record {
  send_cmd = accepts;
  pbkdf2 = λ password salt iter size. replicate size 0;
  length-pbkdf2 = λ password salt iter size. length-replicate size 0;
  polls = 3;
}

-- A discovery that found nothing but a ComID.
abbrev info : OpalDiskInfo
info = record no_info {
  opal20_info = record no_info.opal20_info { base_com_id = 0x07fe };
  locking = 1;
  dev_type = DeviceType.device_type_ata;
  serial_num = replicate 20 65;
}

abbrev pub drive : DtaDev
drive = record {
  class = opal2;
  disk_info = info;
  no_hash_passwords = false;
  response = no_response;
  properties_response = no_response;
  tper_max_packet = 2048;
  tper_max_token = 1950;
  requests = [];
}

-- The device that a call leaves.
abbrev pub left_by {ℓ} : {A : Type ℓ} → Outcome (A × DtaDev) → DtaDev
left_by (done (a, d)) = d
left_by _ = drive
