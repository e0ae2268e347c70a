-- ===== src/Pba/Tests.antt =====
-- Tests of the pre-boot authorisation.
use sedutil.Prelude.{
  All, ◌==◌, if◌then◌else◌, ℕ, ◌≡◌, refl, arith, List, [], ◌∷◌, codes, none, bytes_eq,
}
use mathlib.Core.List.{map}
use sedutil.Outcome.{done}
use sedutil.Command.{
  add_cstring, add_eod, add_token, add_tokens, add_uid, add_uint, complete, complete_special,
  special_bytes, emit, emit_all, emit_number, finish, output_buffer_size, pad, reset, set_hsn,
  set_lengths, set_subpkt_length, set_com_id, set_tsn, store, poke_all, reset_method,
  change_invoking_uid,
}
use sedutil.Device.{DtaDev, com_id, com_id_of, exec, filled, receive, send_cmd, is_eprise}
use sedutil.Endian.{bytes32, swap32}
use sedutil.Response.{
  collect, get_token_count, get_uint64, get_uint32, get_uint8, init, read32, read_header,
  read_tokens, take_bytes, token_is, token_length,
}
use sedutil.Session.{
  send_command, start, started, end_session, start_args, credentials, session_timeout,
  password_token,
}
use sedutil.Session.Reply.{check_reply, method_status_present, session_numbers}
use sedutil.HashPwd.{dta_hash_pwd, dta_hash_password}
use sedutil.Samples.{sample, drive, left_by}
use sedutil.Opal.{with_session, invoke, set_table, set_table_token, table_command}
use sedutil.Opal.{range_uid}
use sedutil.Opal.Provider.{set_mbr_done, set_locking_sp_value}
use sedutil.Opal.Ranges.{special_command, lock_range, lock_values, set_locking_range}
use sedutil.Opal.Commands.{run}
use sedutil.Structures.{no_info, device_type_other}
use sedutil.Device.{opal2}
use sedutil.Discovery.Requests.{is_opal1, is_opal2, locked, mbr_enabled}
use sedutil.Main.Open.{Machine, new_device, init_os}
use sedutil.Pba.{
  Verdict, Visited, get_pass_phrase, unlock, use_opal, visit_present, visit, visit_all,
}
use sedutil.Discovery.Requests.{discovery0}
use sedutil.Opal.Setup as OpalSetup
use sedutil.Opal.Setup.{properties_args}
use sedutil.Opal.Properties.{scan_properties, read_property, c_str}
use sedutil.Response.{get_string}
use sedutil.Main.Open.{construct}
use sedutil.Pba.Sessions.{Rests, visit_all-Rests}
use sedutil.Pba.Typing.{letter, slip, escape, get_pass_phrase-keys_of}
use sedutil.Pba.Drives.{before_closed, visit_all-before_closed}

-- The keys a x y and two backspaces, escape, b and return.
get_pass_phrase-keys_of_example :
    get_pass_phrase (97 ∷ 120 ∷ 121 ∷ 127 ∷ 127 ∷ 27 ∷ 98 ∷ 10 ∷ []) ≡ done (97 ∷ 98 ∷ [])
get_pass_phrase-keys_of_example =
    get_pass_phrase-keys_of (letter 97 ∷ slip (120 ∷ 121 ∷ []) ∷ escape ∷ letter 98 ∷ []) []
      (ground arith)

-- Only the first device opens, and it is of no type that is known.
abbrev machine : Machine
machine = record {
  opens = λ name. bytes_eq name (codes "/dev/sda");
  identified = λ name. record no_info { dev_type = device_type_other };
  platform = λ name. sample;
  file = λ name. none;
  entries = [];
}

abbrev names : List (List ℕ)
names = codes "sda" ∷ codes "sdb" ∷ codes "sdc" ∷ []

abbrev seen : List Visited
seen =
    record {
      name = codes "sda";
      verdict = Verdict.not_opal;
      device = record (new_device opal2 []) {
        disk_info = record no_info { dev_type = device_type_other };
      };
    }
    ∷ []

saw : visit_all machine (codes "secret") names ≡ done seen
unfolding visit_all visit visit_present init_os is_opal1 is_opal2
saw = refl

visit_all-before_closed_example : map (λ (v : Visited). v.name) seen ≡ before_closed machine names
visit_all-before_closed_example = visit_all-before_closed machine (codes "secret") names seen saw

-- A machine whose drive answers no discovery, and says at once that it is one of Opal 2, locked, with a
-- shadow MBR.
abbrev locked_disk : Machine
locked_disk = record machine {
  identified = λ name. record drive.disk_info {
    any_opal_ssc = 1;
    opal20 = 1;
    locking_info = record drive.disk_info.locking_info { locked = 1; mbr_enabled = 1 };
  };
  platform = λ name. record sample {
    send_cmd = λ earlier req.
        if req.com_id == 1 then record { rc = 1; buffer = [] } else sample.send_cmd earlier req;
  };
}

abbrev after : DtaDev
after = left_by (visit locked_disk (codes "/dev/sda") (codes "secret") (new_device opal2 []))

abbrev unlocked : List Visited
unlocked = record { name = codes "sda"; verdict = Verdict.opal_unlocked; device = after } ∷ []

ran : visit_all locked_disk (codes "secret") names ≡ done unlocked
unfolding add_cstring add_eod add_token add_tokens add_uid add_uint complete emit emit_all
    emit_number finish output_buffer_size pad reset set_hsn set_lengths set_subpkt_length set_com_id
    set_tsn store poke_all reset_method change_invoking_uid com_id com_id_of exec filled receive
    send_cmd is_eprise bytes32 swap32 collect get_token_count get_uint64 get_uint32 get_uint8 init
    read32 read_header read_tokens take_bytes token_is token_length send_command start started
    end_session start_args credentials session_timeout password_token check_reply
    method_status_present session_numbers dta_hash_pwd dta_hash_password with_session invoke
    set_table set_table_token table_command set_mbr_done set_locking_sp_value run complete_special
    special_bytes range_uid special_command lock_range lock_values set_locking_range unlock use_opal
    locked mbr_enabled visit_all visit visit_present init_os discovery0 construct
    OpalSetup.properties_exchange properties_args scan_properties read_property c_str is_opal1
    is_opal2 get_string
ran = refl

visit_all-Rests_example : All (Rests locked_disk) unlocked
visit_all-Rests_example = visit_all-Rests locked_disk (codes "secret") names unlocked ran
