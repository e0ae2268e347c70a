-- ===== src/Enterprise/Tests.antt =====
-- The commands on a sample drive of the Enterprise class, which has seven bands.
use sedutil.Prelude.{ℕ, ◌≡◌, refl, List, [], ◌∷◌, codes, ◌⊎◌, inl, arith, ◌==◌, if◌then◌else◌}
use sedutil.Outcome.{done}
use sedutil.Structures.{if_recv, if_send, identify, EnterpriseInfo}
use sedutil.Lexicon.Status.{lockingstate_code, readwrite, locked}
use sedutil.Command.{
  add_cstring, add_eod, add_token, add_tokens, add_uid, add_uint, complete, emit, emit_all,
  emit_number, finish, output_buffer_size, pad, reset, set_hsn, set_lengths, set_subpkt_length,
  set_com_id, set_tsn, store, poke_all, reset_method, reset_vecs, change_invoking_uid,
}
use sedutil.Command.Layout.{finished}
use sedutil.Device.{
  Platform, Request, Reply, DtaDev, enterprise, com_id, com_id_of, exec, filled, receive, send_cmd,
  is_eprise,
}
use sedutil.Device.Exec.{last_sent}
use sedutil.Endian.{bytes32, swap32}
use sedutil.Response.{
  collect, get_token_count, get_uint64, get_uint32, get_uint16, get_uint8, init, read32,
  read_header, read_tokens, take_bytes, token_is, token_length,
}
use sedutil.Session.{
  send_command, start, started, end_session, start_args, credentials, session_timeout,
  password_token, authenticate_session, authenticate_args,
}
use sedutil.Session.Reply.{check_reply, method_status_present, session_numbers}
use sedutil.HashPwd.{dta_hash_pwd, dta_hash_password}
use sedutil.Samples.{sample, drive, left_by}
use sedutil.Opal.{with_session, invoke, table_command}
use sedutil.Session.Course.{EndsSession}
use sedutil.Enterprise.{
  setband, object_command, get_table, query_max_ranges, after_query, get_max_ranges,
  with_max_ranges,
}
use sedutil.Enterprise.Bands.{band_user, band_object, locked_token, lock_band, set_locking_range}
use sedutil.Enterprise.BandIds.{band_user-inj, band_user_alias}
use sedutil.Enterprise.Bounds.{Supports, set_locking_range-Supports}
use sedutil.Enterprise.Commands.{Command, run}
use sedutil.Enterprise.Calls.{run-Closes_enterprise}

-- The reply to a StartSession call, which also tells seven bands.
abbrev numbers : List ℕ
numbers =
    0xf8 ∷ 0xa8 ∷ 0 ∷ 0 ∷ 0 ∷ 0 ∷ 0 ∷ 0 ∷ 0 ∷ 0xff ∷ 0xa8 ∷ 0 ∷ 0 ∷ 0 ∷ 0 ∷ 0 ∷ 0 ∷ 0xff ∷ 0x03
    ∷ 0xf0 ∷ 0x84 ∷ 0 ∷ 0 ∷ 0 ∷ 105 ∷ 0x84 ∷ 0 ∷ 0 ∷ 0 ∷ 7 ∷ 0xf1 ∷ 0xf9 ∷ 0xf0 ∷ 0 ∷ 0 ∷ 0 ∷ 0xf1
    ∷ []

-- The reply to an Authenticate call.
abbrev accepted : List ℕ
accepted = 0xf0 ∷ 1 ∷ 0xf1 ∷ 0xf9 ∷ 0xf0 ∷ 0 ∷ 0 ∷ 0 ∷ 0xf1 ∷ []

-- The last byte of the method of a call is at this offset, 0x0c for an Authenticate call.
abbrev answers : List Request → List ℕ
answers [] = numbers
answers (req ∷ _) = if sedutil.Enterprise.element req.buffer 74 == 0x0c then accepted else numbers

abbrev serves : List Request → Request → Reply
serves earlier req = elim req.command [
  | if_recv ↦ record { rc = 0; buffer = finished 0 0 0 (answers earlier) }
  | if_send ↦ record { rc = 0; buffer = [] }
  | identify ↦ record { rc = 0; buffer = [] }
]

abbrev banded : Platform
banded = record sample { send_cmd = serves }

abbrev ssc : EnterpriseInfo
ssc = record { range_crossing = 0; base_com_id = 0x07fe; num_com_id = 1 }

abbrev bands : DtaDev
bands = record drive {
  class = enterprise;
  disk_info = record drive.disk_info { enterprise = 1; any_opal_ssc = 1; enterprise_info = ssc };
}

abbrev lock_three : Command
lock_three = Command.set_locking_range 3 3 (codes "secret")

abbrev locked_bands : DtaDev
locked_bands = left_by (run banded lock_three bands)

ran : run banded lock_three bands ≡ done (0, locked_bands)
unfolding add_cstring add_eod add_token add_tokens add_uid add_uint complete emit emit_all
    emit_number finish output_buffer_size pad reset set_hsn set_lengths set_subpkt_length set_com_id
    set_tsn store poke_all reset_method reset_vecs change_invoking_uid com_id com_id_of exec filled
    receive send_cmd is_eprise bytes32 swap32 collect get_token_count get_uint64 get_uint32
    get_uint16 get_uint8 init read32 read_header read_tokens take_bytes token_is token_length
    send_command start started end_session start_args credentials session_timeout password_token
    authenticate_session authenticate_args check_reply method_status_present session_numbers
    dta_hash_pwd dta_hash_password with_session invoke table_command object_command setband
    get_table query_max_ranges after_query get_max_ranges with_max_ranges locked_token lock_band
    set_locking_range run
ran = refl

run-Closes_enterprise_example :
    (last_sent locked_bands.requests ≡ last_sent bands.requests)
    ⊎ EndsSession (last_sent locked_bands.requests)
run-Closes_enterprise_example = run-Closes_enterprise banded lock_three bands 0 locked_bands ran

locking : set_locking_range banded 3 3 (codes "secret") bands ≡ done (0, locked_bands)
unfolding run
locking = ran

set_locking_range-Supports_example :
    ((3 ≡ lockingstate_code readwrite) ⊎ (3 ≡ lockingstate_code locked)) × Supports banded 3 bands
set_locking_range-Supports_example =
    set_locking_range-Supports banded 3 3 (codes "secret") bands locked_bands locking

abbrev one_band : ℕ
one_band = 7

band_user-inj_example : one_band ≡ 7
band_user-inj_example = band_user-inj one_band 7 (omega arith) (omega arith) (inl refl)

band_user_alias_example : (band_user 300 ≡ band_user 44) × (band_object 300 ≡ band_object 44)
band_user_alias_example = band_user_alias 300 (omega arith)
