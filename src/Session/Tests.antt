-- ===== src/Session/Tests.antt =====
-- Sessions on the sample drive.
use sedutil.Prelude.{ℕ, ◌≡◌, refl, arith, true, [], ◌∷◌, none, inr}
use sedutil.Outcome.{done, exit, fault, hung}
use sedutil.Lexicon.Uid.{opal_lockingsp_uid, opal_smuid_uid}
use sedutil.Lexicon.Method.{startsession}
use sedutil.Endian.{bytes32, swap32}
use sedutil.Command.{
  DtaCommand, add_cstring, add_eod, add_token, add_tokens, add_uid, add_uint, build, complete, emit,
  emit_all, emit_number, finish, output_buffer_size, pad, reset, set_hsn, set_lengths,
  set_subpkt_length, set_com_id, set_tsn, store, poke_all, reset_method,
}
use sedutil.Device.{DtaDev, com_id, com_id_of, exec, filled, receive, send_cmd, is_eprise}
use sedutil.Response.{
  DtaResponse, collect, get_token_count, get_uint64, get_uint32, get_uint8, init, read32,
  read_header, read_tokens, take_bytes, token_is, token_length,
}
use sedutil.Session.{
  DtaSession, new_session, send_command, start, started, start_args, credentials, session_timeout,
}
use sedutil.Session.Course.{start_lem}
use sedutil.Samples.{sample, drive}
use sedutil.Session.Reply.{no_response, check_reply, method_status_present, session_numbers}
use sedutil.Session.Status.{status_list, check_reply-status}

abbrev refusal : DtaResponse
refusal = record {
  h = record {
    outstanding_data = 0;
    min_transfer = 0;
    cp_length = 1;
    pkt_length = 1;
    subpkt_length = 1;
  };
  response = (0xf0 ∷ []) ∷ (0xf1 ∷ []) ∷ (0xf9 ∷ []) ∷ status_list 1 (0 ∷ []) (0 ∷ []);
}

check_reply-status_example : check_reply refusal ≡ done 1
unfolding token_is
check_reply-status_example =
    check_reply-status refusal ((0xf0 ∷ []) ∷ (0xf1 ∷ []) ∷ (0xf9 ∷ []) ∷ []) 1 (0 ∷ []) (0 ∷ [])
      refl (omega arith) (ground arith, ground arith, ground arith) (omega arith) 0xf0 refl

-- A session of anybody with the locking service provider.
abbrev start_call : DtaCommand
start_call =
    elim (build (start_args sample new_session drive opal_lockingsp_uid none []) true
      (reset_method opal_smuid_uid startsession)) [
        | done c ↦ c
        | exit ↦ reset
        | fault ↦ reset
        | hung ↦ reset
      ]

abbrev answered : (ℕ × DtaResponse) × DtaDev
answered = elim (send_command sample new_session start_call no_response drive) [
  | done x ↦ x
  | exit ↦ ((1, refusal), drive)
  | fault ↦ ((1, refusal), drive)
  | hung ↦ ((1, refusal), drive)
]

abbrev opened : (ℕ × DtaSession) × DtaDev
opened = elim (start sample new_session opal_lockingsp_uid none [] drive) [
  | done x ↦ x
  | exit ↦ ((1, new_session), drive)
  | fault ↦ ((1, new_session), drive)
  | hung ↦ ((1, new_session), drive)
]

start_lem_example : (opened.0.1.hsn ≡ swap32 105) × (opened.0.1.tsn ≡ swap32 4097)
unfolding add_cstring add_eod add_token add_tokens add_uid add_uint complete emit emit_all
    emit_number finish output_buffer_size pad reset set_hsn set_lengths set_subpkt_length set_com_id
    set_tsn store poke_all reset_method com_id com_id_of exec filled receive send_cmd is_eprise
    bytes32 swap32 collect get_token_count get_uint64 get_uint32 get_uint8 init read32 read_header
    read_tokens take_bytes token_is token_length send_command start started start_args credentials
    session_timeout check_reply method_status_present session_numbers
start_lem_example =
    start_lem sample new_session opal_lockingsp_uid none [] drive refl start_call answered.0.1
      answered.1 105 4097 refl refl (omega arith, inr refl) (omega arith, inr refl)
