-- ===== src/Lexicon/Status.antt =====
-- Common/DtaLexicon.h and Common/DtaConstants.h: locking states, method status codes and the
-- return codes of the program.
use sedutil.Prelude.{ℕ}

-- Locking state for a locking range.
pub data OpalLockingstate : Type 0 where
  readwrite readonly locked : OpalLockingstate
  archivelocked archiveunlocked : OpalLockingstate

abbrev pub lockingstate_code : OpalLockingstate → ℕ
lockingstate_code readwrite = 0x01
lockingstate_code readonly = 0x02
lockingstate_code locked = 0x03
lockingstate_code archivelocked = 0x04
lockingstate_code archiveunlocked = 0x05

-- Method status codes.
pub data OpalStatuscode : Type 0 where
  success not_authorized sp_busy : OpalStatuscode
  sp_failed sp_disabled sp_frozen : OpalStatuscode
  no_sessions_available uniqueness_conflict insufficient_space : OpalStatuscode
  insufficient_rows invalid_function invalid_parameter : OpalStatuscode
  invalid_reference tper_malfunction transaction_failure : OpalStatuscode
  response_overflow authority_locked_out fail : OpalStatuscode

abbrev pub status_code : OpalStatuscode → ℕ
status_code success = 0x00
status_code not_authorized = 0x01
status_code sp_busy = 0x03
status_code sp_failed = 0x04
status_code sp_disabled = 0x05
status_code sp_frozen = 0x06
status_code no_sessions_available = 0x07
status_code uniqueness_conflict = 0x08
status_code insufficient_space = 0x09
status_code insufficient_rows = 0x0a
status_code invalid_function = 0x0b
status_code invalid_parameter = 0x0c
status_code invalid_reference = 0x0d
status_code tper_malfunction = 0x0f
status_code transaction_failure = 0x10
status_code response_overflow = 0x11
status_code authority_locked_out = 0x12
status_code fail = 0x3f

-- `DTAERROR_…`, the codes that a command returns besides method status codes.
pub data DtaError : Type 0 where
  unsuported_locking_range object_create_failed invalid_parameter : DtaError
  open_err invalid_lifecycle invalid_command : DtaError
  auth_failed command_error no_method_status : DtaError
  no_locking_info : DtaError

abbrev pub error_code : DtaError → ℕ
error_code unsuported_locking_range = 0x81
error_code object_create_failed = 0x82
error_code invalid_parameter = 0x83
error_code open_err = 0x84
error_code invalid_lifecycle = 0x85
error_code invalid_command = 0x86
error_code auth_failed = 0x87
error_code command_error = 0x88
error_code no_method_status = 0x89
error_code no_locking_info = 0x8a
