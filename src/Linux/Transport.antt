-- ===== src/Linux/Transport.antt =====
-- linux/DtaDevLinuxSata.cpp and linux/DtaDevLinuxNvme.cpp: the requests on their way to the drive. The
-- other end is a kernel and a drive that read the commands by their standards.
use sedutil.Prelude.{
  ℕ, ◌+◌, ◌*◌, ◌/◌, ◌%◌, ◌^◌, ◌<◌, ◌≡◌, refl, ap, sym, subst, arith, true, false, ◌&&◌, List, [],
  ◌∷◌, Option, none, some, ◌==◌, if◌then◌else◌, inl, inr, Bool-cases, Bool,
}
use sedutil.Structures.{AtaCommand, if_recv, if_send, identify}
use sedutil.Device.{Request, Reply}
use sedutil.Linux.{
  Bus, sata, sas, nvme, SgAnswer, NvmeAdminCmd, status, NvmeAnswer, Kernel, ata_code, is_recv,
  is_identify, sata_cdb, sata_reply, sas_cdb, sas_reply, nvme_command, nvme_rc, send_cmd_sata,
  send_cmd_sas, send_cmd_nvme, drive_send_cmd, sas_by,
}

-- TRUSTED RECEIVE and TRUSTED SEND, with the protocol and the direction that go with them
abbrev ata_command : ℕ → ℕ → ℕ → Option AtaCommand
ata_command how flags command =
    if (command == 0x5c) && (how == 8) && (flags == 0x0e)
    then some if_recv
    else if (command == 0x5e) && (how == 10) && (flags == 0x06)
    then some if_send
    else none

-- The direction in which the data of a command go; inward is to the host.
abbrev same_way : Bool → AtaCommand → Bool
same_way true if_recv = true
same_way false if_send = true
same_way _ _ = false

-- The request, where the bytes that the host moves are those that the command announces, and go the
-- way of the command. Else nothing reaches the drive.
abbrev pub as_request : Option AtaCommand → ℕ → ℕ → ℕ → Bool → ℕ → List ℕ → Option Request
as_request none protocol com_id size inward transfer buffer = none
as_request (some command) protocol com_id size inward transfer buffer =
    if same_way inward command && (transfer == size)
    then some (record {
      command = command;
      protocol = protocol;
      com_id = com_id;
      buffer = buffer;
      size = size;
    })
    else none

-- A flag tells whether a length counts blocks.
abbrev unit_of : ℕ → ℕ
unit_of flags = if flags / 2 ^ 7 % 2 == 1 then 512 else 1

-- What a SCSI command of twelve bytes asks of the drive.
unfoldable pub scsi_request : List ℕ → Bool → ℕ → List ℕ → Option Request
scsi_request (op ∷ a ∷ b ∷ c ∷ d ∷ e ∷ f ∷ g ∷ h ∷ i ∷ j ∷ k ∷ []) inward transfer buffer =
    if op == 0xa1
    then as_request (ata_command a b i) c (g * 2 ^ 8 + f) (d * 512) inward transfer buffer
    else as_request (if op == 0xa2 then some if_recv else if op == 0xb5 then some if_send else none)
        a (b * 2 ^ 8 + c) ((f * 2 ^ 24 + g * 2 ^ 16 + h * 2 ^ 8 + i) * unit_of d) inward transfer
        buffer
scsi_request _ inward transfer buffer = none

-- What an admin command of NVMe asks of it.
unfoldable pub nvme_request : NvmeAdminCmd → Option Request
nvme_request cmd =
    as_request
      (if cmd.opcode == 0x82
        then some if_recv
        else if cmd.opcode == 0x81
        then some if_send
        else none)
      (cmd.cdw10 / 2 ^ 24) (cmd.cdw10 / 2 ^ 8 % 2 ^ 16) cmd.cdw11 (cmd.opcode == 0x82) cmd.data_len
      cmd.buffer

abbrev refused_sg : SgAnswer
refused_sg = record { failed = true; sense = []; masked_status = 0; resid = 0; buffer = [] }

-- The sense data carries the error register; the status is good for a result of zero.
abbrev sg_of : Reply → SgAnswer
sg_of reply = record {
  failed = false;
  sense = 0x72 ∷ 0x0b ∷ 0 ∷ 0 ∷ 0 ∷ 0 ∷ 0 ∷ 14 ∷ 9 ∷ 12 ∷ 0 ∷ reply.rc ∷ [];
  masked_status = if reply.rc == 0 then 0 else 1;
  resid = 0;
  buffer = reply.buffer;
}

abbrev sg_by : (Request → Reply) → Option Request → SgAnswer
sg_by drive none = refused_sg
sg_by drive (some req) = sg_of (drive req)

abbrev nvme_by : (Request → Reply) → Option Request → NvmeAnswer
nvme_by drive none = record { result = status 2; buffer = [] }
nvme_by drive (some req) =
    let reply = drive req in record { result = status reply.rc; buffer = reply.buffer }

-- A kernel with a drive that answers requests.
unfoldable pub kernel_of : (List Request → Request → Reply) → Kernel
unfolding scsi_request nvme_request
kernel_of drive = record {
  sg_io = λ earlier io.
      sg_by (drive earlier) (scsi_request io.cdb io.from_device io.dxfer_len io.buffer);
  nvme_admin = λ earlier cmd. nvme_by (drive earlier) (nvme_request cmd);
}

-- Requests to send or receive whole blocks, fewer than 256 of them.
abbrev pub Sendable : Request → Type 0
Sendable req =
    (is_identify req.command ≡ false)
    × (req.protocol < 2 ^ 8)
    × (req.com_id < 2 ^ 16)
    × (req.size % 512 ≡ 0)
    × (req.size < 2 ^ 8 * 512)

-- Over SAS any failure becomes one code.
abbrev pub carried : Bus → Reply → Reply
carried sata reply = reply
carried nvme reply = reply
carried sas reply = record reply { rc = if reply.rc == 0 then 0 else 0xff }

-- A command that a byte tells apart.
pub by_command :
    (f : AtaCommand → Option AtaCommand)
    → f if_recv ≡ some if_recv
    → f if_send ≡ some if_send
    → (a : AtaCommand) → is_identify a ≡ false
    → f a ≡ some a
by_command f r s if_recv h = r
by_command f r s if_send h = s
by_command f r s identify h = cc h

module _ (req : Request) (h : Sendable req) where
  pub com_id_bytes : req.com_id / 2 ^ 8 % 2 ^ 8 * 2 ^ 8 + req.com_id % 2 ^ 8 ≡ req.com_id
  com_id_bytes = let (c, p, i, s, n) = h in omega arith

  pub way : same_way (is_recv req.command) req.command ≡ true
  way = go req.command h.0
    where
      go : (a : AtaCommand) → is_identify a ≡ false → same_way (is_recv a) a ≡ true
      go if_recv e = refl
      go if_send e = refl
      go identify e = cc e

  pub whole : (req.size == req.size) ≡ true
  whole = ground arith

  pub scsi_request-sata_cdb :
      scsi_request (sata_cdb req) (is_recv req.command) req.size req.buffer ≡ some req
  unfolding scsi_request sata_cdb
  scsi_request-sata_cdb =
      let (c, p, i, s, n) = h in
      let blocks : req.size / 512 % 2 ^ 8 * 512 ≡ req.size = omega arith in
      let which =
        by_command
          (λ a.
            ata_command (if is_recv a then 8 else 10) (if is_recv a then 14 else 6) (ata_code a))
          refl refl req.command c in
      rw (which, com_id_bytes, blocks, way, whole) refl

  scsi_request-sas_cdb :
      (op : ℕ)
      → (op == 0xa1) ≡ false
      → (if op == 0xa2 then some if_recv else if op == 0xb5 then some if_send else none)
        ≡ some req.command
      → (inward : Bool) → same_way inward req.command ≡ true
      → scsi_request (sas_cdb op req) inward req.size req.buffer ≡ some req
  unfolding scsi_request sas_cdb
  scsi_request-sas_cdb op other which inward same =
      let (c, p, i, s, n) = h in
      let blocks : (req.size / 512 / 2 ^ 24 % 2 ^ 8 * 2 ^ 24
              + req.size / 512 / 2 ^ 16 % 2 ^ 8 * 2 ^ 16
              + req.size / 512 / 2 ^ 8 % 2 ^ 8 * 2 ^ 8
              + req.size / 512 % 2 ^ 8)
            * 512
          ≡ req.size =
        omega arith in
      rw (other, which, com_id_bytes, blocks, same, whole) refl

  nvme_request-nvme_command : nvme_request (nvme_command req) ≡ some req
  unfolding nvme_request nvme_command
  nvme_request-nvme_command =
      let (c, p, i, s, n) = h in
      let which =
        by_command
          (λ a.
            let op = if is_recv a then 0x82 else 0x81 in
            if op == 0x82 then some if_recv else if op == 0x81 then some if_send else none)
          refl refl req.command c in
      let protocol : (req.protocol * 2 ^ 24 + req.com_id * 2 ^ 8) % 2 ^ 32 / 2 ^ 24 ≡ req.protocol =
        omega arith in
      let com_id : (req.protocol * 2 ^ 24 + req.com_id * 2 ^ 8) % 2 ^ 32 / 2 ^ 8 % 2 ^ 16
          ≡ req.com_id =
        omega arith in
      let inward : ((if is_recv req.command then 0x82 else 0x81) == 0x82) ≡ is_recv req.command =
        elim (Bool-cases (is_recv req.command)) [ inl e ↦ rw e refl | inr e ↦ rw e refl ] in
      rw (which, protocol, com_id, inward, way, whole) refl

module _ (drive : List Request → Request → Reply) (earlier : List Request) (req : Request) where
  sas_carried :
      (op : ℕ) (inward : Bool)
      → scsi_request (sas_cdb op req) inward req.size req.buffer ≡ some req
      → sas_reply (sg_by (drive earlier) (scsi_request (sas_cdb op req) inward req.size req.buffer))
        ≡ carried sas (drive earlier req)
  unfolding sas_reply
  sas_carried op inward same = elim (Bool-cases ((drive earlier req).rc == 0)) [
    | inl e ↦ rw (same, e) refl
    | inr e ↦ rw (same, e) refl
  ]

  -- A request to send or receive whole blocks, fewer than 256 of them, reaches the drive as it is over
  -- each of the three buses, where only a transfer of the announced length and direction reaches it, and
  -- its reply comes back: the bytes, and the code if it is one byte, which SAS makes one code for all
  -- failures.
  pub drive_send_cmd-carried :
      (bus : Bus)
      → Sendable req
      → (drive earlier req).rc < 2 ^ 8
      → drive_send_cmd (kernel_of drive) bus earlier req ≡ carried bus (drive earlier req)
  unfolding drive_send_cmd send_cmd_sata send_cmd_sas send_cmd_nvme sata_reply nvme_rc kernel_of
  drive_send_cmd-carried sata h small = rw (scsi_request-sata_cdb req h) refl
  drive_send_cmd-carried nvme h small =
      let code : (drive earlier req).rc % 2 ^ 8 ≡ (drive earlier req).rc = omega arith in
      rw (nvme_request-nvme_command req h, code) refl
  drive_send_cmd-carried sas h small = go req.command refl
    where
      Goal : AtaCommand → Type 0
      Goal a = sas_by (kernel_of drive) a earlier req ≡ carried sas (drive earlier req)

      go : (a : AtaCommand) → a ≡ req.command → Goal req.command
      go if_recv e = subst Goal e (
          sas_carried 0xa2 true
            (scsi_request-sas_cdb req h 0xa2 refl (ap some e) true (ap (same_way true) (sym e))))
      go if_send e = subst Goal e (
          sas_carried 0xb5 false
            (scsi_request-sas_cdb req h 0xb5 refl (ap some e) false (ap (same_way false) (sym e))))
      go identify e = cc (h.0, e)
