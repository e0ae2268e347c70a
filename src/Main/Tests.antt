-- ===== src/Main/Tests.antt =====
-- Tests of the main program.
use sedutil.Prelude.{
  ◌==◌, if◌then◌else◌, ℕ, ◌≡◌, refl, List, [], ◌∷◌, codes, true, none, some, get_elem?, arith,
}
use sedutil.Outcome.{done}
use sedutil.Command.{
  add_cstring, add_eod, add_token, add_tokens, add_uid, add_uint, complete, emit, emit_all,
  emit_number, finish, output_buffer_size, pad, reset, set_hsn, set_lengths, set_subpkt_length,
  set_com_id, set_tsn, store, poke_all, reset_method, change_invoking_uid,
}
use sedutil.Device.{DtaDev, com_id, com_id_of, exec, filled, receive, send_cmd, is_eprise}
use sedutil.Endian.{bytes32, swap32}
use sedutil.Response.{
  collect, get_token_count, get_uint64, get_uint32, get_uint8, init, read32, read_header,
  read_tokens, take_bytes, token_is, token_length,
}
use sedutil.Session.{
  send_command, start, started, end_session, start_args, credentials, session_timeout,
  password_token,
}
use sedutil.Session.Reply.{check_reply, method_status_present, session_numbers}
use sedutil.HashPwd.{dta_hash_pwd, dta_hash_password}
use sedutil.Samples.{sample, drive, left_by}
use sedutil.Opal.{with_session, invoke, set_table, set_table_token, table_command}
use sedutil.Opal.Provider.{set_mbr_done, set_locking_sp_value}
use sedutil.Opal.Commands.{run}
use sedutil.Session.Course.{Sessions}
use sedutil.Device.{opal2}
use sedutil.Options.{
  DtaOptions, no_options, Action, parsed, find, run_step, run_steps, second, behind_dashes,
  parse_command, read_flag, parse_from,
}
use sedutil.Options.Table.{options, dta_options}
use sedutil.Structures.{no_info}
use sedutil.Main.Open.{Machine}
use sedutil.Discovery.Requests.{discovery0, is_any_ssc, is_opal2}
use sedutil.Opal.Setup as OpalSetup
use sedutil.Opal.Setup.{properties_args}
use sedutil.Opal.Properties.{scan_properties, read_property, c_str}
use sedutil.Response.{get_string}
use sedutil.Main.Open.{init_os, construct}
use sedutil.Main.Run.{Settled, main-Settled}
use sedutil.Main.{
  main, run_options, with_device, with_class, choose_class, dispatch, perform, device_index,
}
use sedutil.Main.Virtual.{methods_of}
use sedutil.Main.Ends.{dispatch-Closes}
use sedutil.Main.Strings.{device_index_lem}

abbrev disk : List ℕ
disk = codes "/dev/sda"

abbrev mbr_argv : List (List ℕ)
mbr_argv = codes "sedutil-cli" ∷ codes "--setMBRDone" ∷ codes "on" ∷ codes "secret" ∷ disk ∷ []

abbrev mbr_options : DtaOptions
mbr_options = record no_options {
  action = Action.set_mbr_done;
  mbrstate = 1;
  password = 3;
  device = 4;
}

mbr_parsed : dta_options mbr_argv ≡ done (parsed mbr_options)
unfolding find run_step run_steps second behind_dashes parse_command read_flag parse_from options
    dta_options
mbr_parsed = refl

device_index_lem_example :
    (device_index mbr_argv mbr_options ≡ 4)
    × ((name : List ℕ) × (get_elem? mbr_argv (device_index mbr_argv mbr_options) ≡ some name))
device_index_lem_example =
    device_index_lem mbr_argv mbr_options (ground arith) (omega arith) mbr_parsed refl

abbrev finished_drive : DtaDev
finished_drive =
    left_by (dispatch (λ name. none) mbr_argv mbr_options (methods_of sample opal2) drive)

ran :
    dispatch (λ name. none) mbr_argv mbr_options (methods_of sample opal2) drive
    ≡ done (0, finished_drive)
unfolding add_cstring add_eod add_token add_tokens add_uid add_uint complete emit emit_all
    emit_number finish output_buffer_size pad reset set_hsn set_lengths set_subpkt_length set_com_id
    set_tsn store poke_all reset_method change_invoking_uid com_id com_id_of exec filled receive
    send_cmd is_eprise bytes32 swap32 collect get_token_count get_uint64 get_uint32 get_uint8 init
    read32 read_header read_tokens take_bytes token_is token_length send_command start started
    end_session start_args credentials session_timeout password_token check_reply
    method_status_present session_numbers dta_hash_pwd dta_hash_password with_session invoke
    set_table set_table_token table_command set_mbr_done set_locking_sp_value run perform
ran = refl

dispatch-Closes_example : Sessions sample drive finished_drive
dispatch-Closes_example =
    dispatch-Closes sample opal2 (λ name. none) mbr_argv mbr_options drive 0 finished_drive refl ran

-- A machine with three disks and a partition.
abbrev three_disks : Machine
three_disks = record {
  opens = λ name. true;
  identified = λ name. no_info;
  platform = λ name. sample;
  file = λ name. none;
  entries = codes "sdb" ∷ codes "nvme0" ∷ codes "sda1" ∷ codes "sda" ∷ [];
}

-- A machine with a drive that answers no discovery, and says at once that it is one of Opal 2.
abbrev one_disk : Machine
one_disk = record three_disks {
  identified = λ name. record drive.disk_info { any_opal_ssc = 1; opal20 = 1 };
  platform = λ name. record sample {
    send_cmd = λ earlier req.
        if req.com_id == 1 then record { rc = 1; buffer = [] } else sample.send_cmd earlier req;
  };
}

abbrev left_disk : DtaDev
left_disk = left_by (main one_disk mbr_argv)

went : main one_disk mbr_argv ≡ done (0, left_disk)
unfolding add_cstring add_eod add_token add_tokens add_uid add_uint complete emit emit_all
    emit_number finish output_buffer_size pad reset set_hsn set_lengths set_subpkt_length set_com_id
    set_tsn store poke_all reset_method change_invoking_uid com_id com_id_of exec filled receive
    send_cmd is_eprise bytes32 swap32 collect get_token_count get_uint64 get_uint32 get_uint8 init
    read32 read_header read_tokens take_bytes token_is token_length send_command start started
    end_session start_args credentials session_timeout password_token check_reply
    method_status_present session_numbers dta_hash_pwd dta_hash_password with_session invoke
    set_table set_table_token table_command set_mbr_done set_locking_sp_value run perform main
    run_options find run_step run_steps second behind_dashes parse_command read_flag parse_from
    options dta_options with_device with_class init_os discovery0 construct
    OpalSetup.properties_exchange properties_args scan_properties read_property c_str choose_class
    is_opal2 is_any_ssc get_string
went = refl

main-Settled_example : Settled one_disk left_disk
main-Settled_example = main-Settled one_disk mbr_argv mbr_options refl 0 left_disk mbr_parsed went
