-- ===== src/Opal/Tests.antt =====
-- The commands on the sample drive.
use sedutil.Prelude.{
  ℕ, ◌≡◌, refl, true, List, [], ◌∷◌, codes, inr, replicate, ◌≢◌, ◌+◌, ◌≤◌, ◌++◌, some, All, length,
  arith,
}
use sedutil.Outcome.{done, fault, hung}
use sedutil.Opal.Properties.{scan_properties}
use sedutil.Opal.Properties.Ends.{scan_properties-ne-hung}
use sedutil.Lexicon.Uid.{opal_mbrcontrol, opal_lockingsp_uid, opal_admin1_uid}
use sedutil.Lexicon.Method.{OpalMethod}
use sedutil.Lexicon.Token.{mbrdone, opal_true}
use sedutil.Command.{max_buffer_length}
use sedutil.Command.Encode.{token_bytes}
use sedutil.Response.{DtaResponse}
use sedutil.Response.Tokens.{Framed, concat, kept}
use sedutil.Wire.{IsToken}
use sedutil.Wire.Calls.{call_tokens}
use sedutil.Session.{uid_vec}
use sedutil.Session.Trace.{end_packet}
use sedutil.Opal.{range_uid, no_args}
use sedutil.Opal.Closes.{with_session_ends}
use sedutil.Opal.Wire.{invoke_table, range_uid-Framed}
use sedutil.Opal.Users.{to_string, get_auth4_user}
use sedutil.Opal.UserIds.{get_auth4_user-to_string}
use sedutil.Device.{Request}
use sedutil.Command.{
  add_cstring, add_eod, add_token, add_tokens, add_uid, add_uint, complete, emit, emit_all,
  emit_number, finish, output_buffer_size, pad, reset, set_hsn, set_lengths, set_subpkt_length,
  set_com_id, set_tsn, store, poke_all, reset_method, change_invoking_uid,
}
use sedutil.Device.{DtaDev, M, com_id, com_id_of, exec, filled, receive, send_cmd, is_eprise}
use sedutil.Device.Exec.{last_sent}
use sedutil.Endian.{bytes32, swap32}
use sedutil.Response.{
  collect, get_token_count, get_uint64, get_uint32, get_uint8, init, read32, read_header,
  read_tokens, take_bytes, token_is, token_length,
}
use sedutil.Session.{
  DtaSession, new_session, send_command, start, started, end_session, start_args, credentials,
  session_timeout, password_token,
}
use sedutil.Opal.Ranges.{read_status}
use sedutil.Opal.Status.{read_status-24}
use sedutil.Opal.Setup.{write_blocks}
use sedutil.Opal.Image.{Covers, write_all, write_blocks-Covers}
use sedutil.Session.Reply.{no_response, check_reply, method_status_present, session_numbers}
use sedutil.HashPwd.{dta_hash_pwd, dta_hash_password}
use sedutil.Samples.{sample, drive, left_by}
use sedutil.Opal.{with_session, invoke, set_table, set_table_token, table_command}
use sedutil.Opal.Provider.{set_mbr_done, set_locking_sp_value}
use sedutil.Opal.Commands.{Command, run}
use sedutil.Opal.Calls.{run-Closes}
use sedutil.Session.Course.{Sessions}

abbrev mbr_done : Command
mbr_done = Command.set_mbr_done 1 (codes "secret")

abbrev finished_drive : DtaDev
finished_drive = left_by (run sample mbr_done drive)

ran : run sample mbr_done drive ≡ done (0, finished_drive)
unfolding add_cstring add_eod add_token add_tokens add_uid add_uint complete emit emit_all
    emit_number finish output_buffer_size pad reset set_hsn set_lengths set_subpkt_length set_com_id
    set_tsn store poke_all reset_method change_invoking_uid com_id com_id_of exec filled receive
    send_cmd is_eprise bytes32 swap32 collect get_token_count get_uint64 get_uint32 get_uint8 init
    read32 read_header read_tokens take_bytes token_is token_length send_command start started
    end_session start_args credentials session_timeout password_token check_reply
    method_status_present session_numbers dta_hash_pwd dta_hash_password with_session invoke
    set_table set_table_token table_command set_mbr_done set_locking_sp_value run
ran = refl

run-Closes_example : Sessions sample drive finished_drive
run-Closes_example = run-Closes sample mbr_done drive 0 finished_drive ran

abbrev set_done : DtaSession → M ℕ
set_done s = set_table_token sample s (uid_vec opal_mbrcontrol) mbrdone opal_true

abbrev admin : List ℕ
admin = uid_vec opal_admin1_uid

ran_body :
    with_session sample new_session opal_lockingsp_uid
      (some (codes "secret"))
      admin
      (λ rc. rc)
      set_done
      drive
    ≡ done (0, finished_drive)
unfolding add_cstring add_eod add_token add_tokens add_uid add_uint complete emit emit_all
    emit_number finish output_buffer_size pad reset set_hsn set_lengths set_subpkt_length set_com_id
    set_tsn store poke_all reset_method change_invoking_uid com_id com_id_of exec filled receive
    send_cmd is_eprise bytes32 swap32 collect get_token_count get_uint64 get_uint32 get_uint8 init
    read32 read_header read_tokens take_bytes token_is token_length send_command start started
    end_session start_args credentials session_timeout password_token check_reply
    method_status_present session_numbers dta_hash_pwd dta_hash_password with_session invoke
    set_table set_table_token table_command set_mbr_done set_locking_sp_value run
ran_body = refl

with_session_ends_example :
    (rc : ℕ) × (s' : DtaSession) × (d1 : DtaDev) × (start sample new_session opal_lockingsp_uid
        (some (codes "secret"))
        admin
        drive
      ≡ done ((rc, s'), d1))
    × (last_sent finished_drive.requests ≡ some (end_packet s' finished_drive))
with_session_ends_example =
    with_session_ends sample new_session opal_lockingsp_uid (some (codes "secret")) admin (λ rc. rc)
      set_done drive 0 finished_drive refl ran_body

abbrev erase_one : M ℕ
erase_one = invoke sample new_session (table_command (range_uid 1) OpalMethod.erase no_args)

abbrev erased_drive : DtaDev
erased_drive = left_by (erase_one drive)

erased : erase_one drive ≡ done (0, erased_drive)
unfolding add_cstring add_eod add_token add_tokens add_uid add_uint complete emit emit_all
    emit_number finish output_buffer_size pad reset set_hsn range_uid set_lengths set_subpkt_length
    set_com_id set_tsn store poke_all reset_method change_invoking_uid com_id com_id_of exec filled
    receive send_cmd is_eprise bytes32 swap32 collect get_token_count get_uint64 get_uint32
    get_uint8 init read32 read_header read_tokens take_bytes token_is token_length send_command
    start started end_session start_args credentials session_timeout password_token check_reply
    method_status_present session_numbers dta_hash_pwd dta_hash_password with_session invoke
    set_table set_table_token table_command set_mbr_done set_locking_sp_value run
erased = refl

abbrev ok : All IsToken no_args
ok = (inr (omega arith, omega arith), (inr (omega arith, omega arith), tt))

fits :
    length (concat (call_tokens (range_uid 1) OpalMethod.erase no_args true)) + 59
    ≤ max_buffer_length
unfolding range_uid token_bytes
fits = omega arith

invoke_table_example :
    (req : Request) × (r : DtaResponse) × (last_sent erased_drive.requests ≡ some req)
    × (req.protocol ≡ 1)
    × (req.com_id ≡ com_id drive)
    × (init req.buffer ≡ done r)
    × (r.response ≡ kept (call_tokens (range_uid 1) OpalMethod.erase no_args true))
invoke_table_example =
    invoke_table sample new_session drive (range_uid 1) OpalMethod.erase no_args 0 erased_drive
      (range_uid-Framed 1).0 (range_uid-Framed 1).1 ok fits erased

range_uid-Framed_example : (length (range_uid 7) ≡ 9) × Framed (range_uid 7)
range_uid-Framed_example = range_uid-Framed 7

get_auth4_user-to_string_example :
    get_auth4_user (codes "User" ++ to_string 2) 10
    ≡ (0, 0xa8 ∷ 0 ∷ 0 ∷ 0 ∷ 0x0b ∷ 0 ∷ 3 ∷ 0 ∷ 2 ∷ [])
get_auth4_user-to_string_example = get_auth4_user-to_string 2 10

abbrev short_reply : DtaDev
short_reply = record drive { response = record no_response { response = replicate 24 (1 ∷ []) } }

read_status-24_example : read_status 1 short_reply ≡ fault
unfolding get_uint64 get_uint8
read_status-24_example = read_status-24 1 short_reply 1 1 1 1 1 refl refl refl refl refl refl

write_blocks-Covers_example :
    (blocks : List (ℕ × List ℕ)) × (write_blocks sample 4 2 0 (7 ∷ 8 ∷ 9 ∷ []) new_session
      ≡ write_all sample new_session blocks)
    × Covers 2 0 (7 ∷ 8 ∷ 9 ∷ []) blocks
write_blocks-Covers_example =
    write_blocks-Covers sample new_session 2 4 2 0 (7 ∷ 8 ∷ 9 ∷ []) (omega arith) (omega arith)
      (omega arith)

scan_properties-ne-hung_example :
    scan_properties
      (get_token_count (record no_response { response = (0xf2 ∷ []) ∷ [] }) + 1)
      0
      (record no_response { response = (0xf2 ∷ []) ∷ [] })
      (2048, 1950)
    ≢ hung
scan_properties-ne-hung_example =
    scan_properties-ne-hung (record no_response { response = (0xf2 ∷ []) ∷ [] }) (2048, 1950)
