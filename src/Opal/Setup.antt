-- ===== src/Opal/Setup.antt =====
-- Common/DtaDevOpal.cpp: the sequences of commands that set a drive up, the exchange of properties,
-- and the image that is written to the shadow MBR.
use sedutil.Prelude.{
  ℕ, zero, suc, ◌+◌, ◌-◌, ◌/◌, ◌%◌, ◌^◌, true, List, [], ◌∷◌, ◌++◌, Option, none, some, length,
  take, drop, not, ◌&&◌, ◌||◌, ltb, ◌==◌, if◌then◌else◌, codes,
}
use sedutil.Outcome.{hung}
use sedutil.Lexicon.Uid.{opal_smuid_uid, opal_mbr}
use sedutil.Lexicon.Method.{OpalMethod, properties}
use sedutil.Lexicon.Token.{startlist, endlist, startname, endname, hostproperties, where_, values}
use sedutil.Lexicon.Status.{error_code, invalid_command, open_err, lockingstate_code, readwrite}
use sedutil.Command.{
  Token, opal, uint, vec, cstring, build, reset_method, header_size, max_buffer_length,
}
use sedutil.Response.{get_token_count}
use sedutil.Device.{modify, Platform, M, pure, ◌>>=◌, ◌>>◌, lift, gets}
use sedutil.Session.{DtaSession, new_session, send_command}
use sedutil.Opal.{◌>>?◌, invoke, as_admin1}
use sedutil.Opal.Ranges.{
  LrQuery, failed, found, get_locking_range_status, setup_locking_range_sum,
  configure_locking_range, set_locking_range, set_locking_range_sum, erase_locking_range_sum,
}
use sedutil.Opal.Properties.{scan_properties}
use sedutil.Opal.Users.{to_string, set_new_password_sum}
use sedutil.Opal.Provider.{
  take_ownership, activate_locking_sp, activate_locking_sp_sum, set_mbr_done, set_mbr_enable,
}

abbrev pub property : List ℕ → ℕ → List Token
property name value = opal startname ∷ cstring name ∷ uint value ∷ opal endname ∷ []

-- The properties of the host.
unfoldable pub properties_args : List Token
properties_args =
    opal startlist
    ∷ opal startname
    ∷ opal hostproperties
    ∷ opal startlist
    ∷ (property (codes "MaxComPacketSize") 2048
        ++ (property (codes "MaxPacketSize") 2028
            ++ (property (codes "MaxIndTokenSize") 1992
                ++ (property (codes "MaxPackets") 1
                    ++ (property (codes "MaxSubpackets") 1
                        ++ (property (codes "MaxMethods") 1
                            ++ opal endlist ∷ opal endname ∷ opal endlist ∷ []))))))

-- The tokens of one block of the image: its offset, and its bytes behind the head of a long atom.
unfoldable pub block_args : ℕ → List ℕ → List Token
block_args filepos block =
    opal startlist
    ∷ opal startname
    ∷ opal where_
    ∷ uint filepos
    ∷ opal endname
    ∷ opal startname
    ∷ opal values
    ∷ vec
        (0xe2 ∷ length block / 2 ^ 16 % 256 ∷ length block / 2 ^ 8 % 256 ∷ length block % 256 ∷ [])
    ∷ vec block
    ∷ opal endname
    ∷ opal endlist
    ∷ []

-- `blockSize`, in the arithmetic of a uint32_t
unfoldable pub block_size : ℕ → ℕ → ℕ
block_size max_packet max_token =
    let token_room = (max_token + 2 ^ 32 - 4) % 2 ^ 32 in
    let packet = if ltb max_packet max_buffer_length then max_packet else max_buffer_length in
    let size = if ltb token_room packet then token_room else packet in
    (size + 2 ^ 32 - (header_size + 50)) % 2 ^ 32

module _ (p : Platform) where
  unfoldable pub initial_setup : List ℕ → M ℕ
  initial_setup password =
      take_ownership p password
      >>? activate_locking_sp p password
      >>? configure_locking_range p 0 0x00 password
      >>? set_locking_range p 0 (lockingstate_code readwrite) password
      >>? set_mbr_done p 1 password
      >>? set_mbr_enable p 1 password

  -- The initial part of `setup_SUM`, for a drive whose locking provider is not enabled.
  abbrev pub first_setup : ℕ → ℕ → ℕ → List ℕ → M ℕ
  first_setup lockingrange start length admin1_password =
      take_ownership p admin1_password
      >>? activate_locking_sp_sum p lockingrange admin1_password
      >>? setup_locking_range_sum p lockingrange start length []

  -- The part that verifies and corrects the range.
  unfoldable pub correct_found : ℕ → ℕ → ℕ → LrQuery → M ℕ
  correct_found lockingrange start length (failed rc) = pure rc
  correct_found lockingrange start length (found lr) =
      if not (start == lr.start) || not (length == lr.size)
      then setup_locking_range_sum p lockingrange start length []
      else pure 0

  unfoldable pub correct_range : ℕ → ℕ → ℕ → List ℕ → M ℕ
  unfolding correct_found
  correct_range lockingrange start length admin1_password = do
    status ← get_locking_range_status p lockingrange admin1_password
    correct_found lockingrange start length status

  -- `setup_SUM` behind its tests; the initial part is for a provider that is not enabled.
  unfoldable pub sum_steps : ℕ → ℕ → ℕ → ℕ → List ℕ → List ℕ → M ℕ
  unfolding correct_range
  sum_steps enabled lockingrange start length admin1_password password =
      (if enabled == 0 then first_setup lockingrange start length admin1_password else pure 0)
      >>? erase_locking_range_sum p lockingrange admin1_password
      >>? correct_range lockingrange start length admin1_password
      >>? set_locking_range_sum p lockingrange (lockingstate_code readwrite) []
      >>? set_new_password_sum p [] (codes "User" ++ to_string (lockingrange + 1)) password

  unfoldable pub setup_sum : ℕ → ℕ → ℕ → List ℕ → List ℕ → M ℕ
  unfolding sum_steps
  setup_sum lockingrange start length admin1_password password = do
    info ← gets (λ d. d.disk_info)
    if (info.locking == 0) || (info.single_user == 0)
        then pure (error_code invalid_command)
        else if not (info.locking_info.locking_enabled == 0) && (info.single_user_info.any == 0)
        then pure (error_code invalid_command)
        else sum_steps info.locking_info.locking_enabled lockingrange start length admin1_password
            password

  -- The session is used for its `sendCommand` only; it is never started, nor deleted.
  unfoldable pub properties_exchange : M ℕ
  unfolding properties_args scan_properties
  properties_exchange = do
    cmd ← lift (build properties_args true (reset_method opal_smuid_uid properties))
    r ← gets (λ d. d.properties_response)
    (rc, r') ← send_command p new_session cmd r
    modify (λ d. record d { properties_response = r' })
    if rc == 0
        then (do
          modify (λ d. record d { disk_info = record d.disk_info { properties = 1 } })
          sizes ← gets (λ d. (d.tper_max_packet, d.tper_max_token))
          (max_packet, max_token) ← lift (scan_properties (get_token_count r' + 1) 0 r' sizes)
          modify (λ d. record d { tper_max_packet = max_packet; tper_max_token = max_token })
          pure 0)
        else pure rc

  -- The loop of `loadPBA` from `filepos` on, where `rest` is what is left of the file.
  unfoldable pub write_blocks : ℕ → ℕ → ℕ → List ℕ → DtaSession → M ℕ
  unfolding block_args
  write_blocks zero size filepos rest s = lift hung
  write_blocks (suc fuel) size filepos [] s = pure 0
  write_blocks (suc fuel) size filepos (b ∷ rest) s =
      let short = if ltb (length (b ∷ rest)) size then length (b ∷ rest) else size in
      let next = write_blocks fuel short (filepos + short) (drop short (b ∷ rest)) s in
      invoke p s (
        build (block_args filepos (take short (b ∷ rest))) true
          (reset_method opal_mbr OpalMethod.set))
      >>? next

  -- The file is its bytes, or nothing if it cannot be opened. It is shorter than 2 ^ 32 bytes, as
  -- the offsets are.
  unfoldable pub load_pba : List ℕ → Option (List ℕ) → M ℕ
  unfolding block_size
  load_pba password none = pure (error_code open_err)
  load_pba password (some file) = do
    size ← gets (λ d. block_size d.tper_max_packet d.tper_max_token)
    as_admin1 p password (write_blocks (length file + 1) size 0 file)
