-- ===== src/Windows/Transport.antt =====
-- windows/DtaDiskATA.cpp, windows/DtaDiskUSB.cpp and windows/DtaDiskNVMe.cpp: the requests on their way to
-- the drive. The other end is Windows and a drive that read the commands by their standards.
use sedutil.Prelude.{
  ℕ, ◌+◌, ◌*◌, ◌^◌, ◌≡◌, refl, Bool, true, false, not, ◌&&◌, List, [], ◌∷◌, Option, none, some,
  ◌==◌, if◌then◌else◌,
}
use sedutil.Structures.{AtaCommand, if_recv, if_send, identify}
use sedutil.Device.{Request, Reply}
use sedutil.Linux.{is_recv, is_identify}
use sedutil.Linux.Transport.{as_request, scsi_request, Sendable}
use sedutil.Windows.{DiskType, usb, Answer, Control, data_in, task_file}

-- What the registers of an ATA command and its direction ask of the drive.
unfoldable pub task_request : List ℕ → Bool → ℕ → List ℕ → Option Request
task_request (features ∷ count ∷ a ∷ mid ∷ high ∷ b ∷ command ∷ d ∷ []) inward transfer buffer =
    as_request
      (if (command == 0x5c) && inward
        then some if_recv
        else if (command == 0x5e) && not inward
        then some if_send
        else none)
      features (high * 2 ^ 8 + mid) (count * 512) inward transfer buffer
task_request _ inward transfer buffer = none

-- A reply of the drive; `error_of` is what `GetLastError` says after a call with its result.
abbrev answer_of : (ℕ → ℕ) → Option Reply → Answer
answer_of error_of none = record { succeeds = false; last_error = 87; scsi_status = 0; buffer = [] }
answer_of error_of (some reply) = record {
  succeeds = true;
  last_error = error_of reply.rc;
  scsi_status = reply.rc;
  buffer = reply.buffer;
}

abbrev reply_by : (Request → Reply) → Option Request → Option Reply
reply_by drive none = none
reply_by drive (some req) = some (drive req)

-- Windows with a drive that answers requests.
unfoldable pub control_of : (ℕ → ℕ) → (List Request → Request → Reply) → Control
unfolding scsi_request task_request
control_of error_of drive = record {
  ata_pass_through = λ earlier io.
      answer_of error_of
        (reply_by (drive earlier) (task_request io.task_file io.data_in io.transfer io.buffer));
  scsi_pass_through = λ earlier io.
      answer_of error_of
        (reply_by (drive earlier) (scsi_request io.cdb io.data_in io.transfer io.buffer));
}

-- Any failure becomes the code 1, but over USB.
abbrev pub carried_by : DiskType → Reply → Reply
carried_by usb reply = reply
carried_by _ reply = record reply { rc = if reply.rc == 0 then 0 else 1 }

module _ (req : Request) (h : Sendable req) where
  inward : data_in req.command ≡ is_recv req.command
  inward = go req.command h.0
    where
      go : (a : AtaCommand) → is_identify a ≡ false → data_in a ≡ is_recv a
      go if_recv e = refl
      go if_send e = refl
      go identify e = cc e
