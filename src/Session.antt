-- ===== src/Session.antt =====
-- Common/DtaSession.cpp: sessions with a security provider.
-- `lastRC` is written and returned and never read, and `bufferpos` is not used: neither is kept.
-- The build defines no MULTISTART. A `new` that fails throws, so the tests for NULL are not modelled.
pub mod Reply
pub mod Status
pub mod Trace
pub mod Course
mod Tests
use sedutil.Prelude.{
  ℕ, ◌+◌, ◌-◌, ◌%◌, ◌^◌, Bool, true, false, List, [], ◌∷◌, ◌++◌, Option, none, some, not, ◌&&◌,
  ◌||◌, ◌==◌, bytes_eq, if◌then◌else◌, codes,
}
use sedutil.Lexicon.Uid.{OpalUid, opaluid, opal_smuid_uid, opal_thissp_uid, opal_uid_hexff}
use sedutil.Lexicon.Method.{startsession, eauthenticate, authenticate}
use sedutil.Lexicon.Token.{
  token_code, startlist, endlist, startname, endname, endofsession, uint_00, uint_01, uint_03,
  short_code, bytestring8,
}
use sedutil.Lexicon.Status.{error_code, auth_failed}
use sedutil.Command.{
  DtaCommand, Token, opal, tiny, uid, uint, vec, cstring, build, reset, reset_method, set_com_id,
  set_tsn, set_hsn,
}
use sedutil.Response.{DtaResponse, get_uint8}
use sedutil.Session.Reply.{no_response, check_reply, session_numbers}
use sedutil.Device.{Platform, DtaDev, M, pure, ◌>>=◌, ◌>>◌, lift, gets, com_id, is_eprise, exec}
use sedutil.HashPwd.{dta_hash_pwd}

pub record DtaSession : Type 0 where
  pub tsn : ℕ
  pub hsn : ℕ
  pub will_abort : Bool
  pub hash_pwd : Bool
  pub security_protocol : ℕ

-- The constructor, with the initial values of the class.
abbrev pub new_session : DtaSession
new_session = record {
  tsn = 0;
  hsn = 0;
  will_abort = false;
  hash_pwd = true;
  security_protocol = 0x01;
}

unfoldable pub set_protocol : ℕ → DtaSession → DtaSession
set_protocol value s = record s { security_protocol = value }

unfoldable pub dont_hash_pwd : DtaSession → DtaSession
dont_hash_pwd s = record s { hash_pwd = false }

unfoldable pub expect_abort : DtaSession → DtaSession
expect_abort s = record s { will_abort = true }

-- The nine bytes that are pushed to a vector for a UID.
abbrev pub uid_vec : OpalUid → List ℕ
uid_vec u = short_code bytestring8 ∷ opaluid u

module _ (p : Platform) where
  unfoldable pub send_command : DtaSession → DtaCommand → DtaResponse → M (ℕ × DtaResponse)
  send_command s cmd response = do
    id ← gets com_id
    (rc, r) ←
        exec p (set_com_id id (set_tsn s.tsn (set_hsn s.hsn cmd))) response s.security_protocol
    if rc == 0 then (do status ← lift (check_reply r); pure (status, r)) else pure (rc, r)

  -- The token of a password: hashed, or as it was entered.
  unfoldable pub password_token : DtaSession → DtaDev → List ℕ → Token
  password_token s d password =
      if s.hash_pwd then vec (dta_hash_pwd p d password) else cstring password

  -- The user and the password, which go into the call but for an Enterprise drive.
  unfoldable pub credentials : DtaSession → DtaDev → Option (List ℕ) → List ℕ → List Token
  credentials s d none sign_authority = []
  credentials s d (some host_challenge) sign_authority =
      if not (bytes_eq (uid_vec opal_uid_hexff) sign_authority) && not (is_eprise d)
      then opal startname
        ∷ tiny uint_00
        ∷ password_token s d host_challenge
        ∷ opal endname
        ∷ opal startname
        ∷ tiny uint_03
        ∷ vec sign_authority
        ∷ opal endname
        ∷ []
      else []

  unfoldable pub session_timeout : DtaDev → List Token
  session_timeout d =
      if is_eprise d
      then opal startname ∷ cstring (codes "SessionTimeout") ∷ uint 60000 ∷ opal endname ∷ []
      else []

  -- The arguments of the StartSession call.
  unfoldable pub start_args : DtaSession → DtaDev → OpalUid → Option (List ℕ) → List ℕ → List Token
  unfolding credentials session_timeout
  start_args s d sp host_challenge sign_authority =
      opal startlist
      ∷ uint 105
      ∷ uid sp
      ∷ tiny uint_01
      ∷ (credentials s d host_challenge sign_authority ++ (session_timeout d ++ opal endlist ∷ []))

  -- The arguments of the Authenticate call; an empty password is left out.
  unfoldable pub authenticate_args : DtaSession → DtaDev → List ℕ → List ℕ → List Token
  authenticate_args s d authority [] = opal startlist ∷ vec authority ∷ opal endlist ∷ []
  authenticate_args s d authority (c ∷ challenge) =
      opal startlist
      ∷ vec authority
      ∷ opal startname
      ∷ (if is_eprise d then cstring (codes "Challenge") else tiny uint_00)
      ∷ password_token s d (c ∷ challenge)
      ∷ opal endname
      ∷ opal endlist
      ∷ []

  unfoldable pub authenticate_session : DtaSession → List ℕ → List ℕ → M ℕ
  unfolding authenticate_args
  authenticate_session s authority challenge = do
    args ← gets (λ d. authenticate_args s d authority challenge)
    method ← gets (λ d. if is_eprise d then eauthenticate else authenticate)
    cmd ← lift (build args true (reset_method opal_thissp_uid method))
    (rc, response) ← send_command s cmd no_response
    if rc == 0
        then (do
          accepted ← lift (get_uint8 response 1)
          pure (if accepted == 0 then error_code auth_failed else 0))
        else pure rc

  -- What `start` does with the session numbers of the reply: for an Enterprise drive it goes on to
  -- authenticate.
  unfoldable pub started : DtaSession → Option (List ℕ) → List ℕ → Bool → M (ℕ × DtaSession)
  started s none sign_authority eprise = pure (0, s)
  started s (some challenge) sign_authority true = do
    rc ← authenticate_session s sign_authority challenge
    pure (rc, s)
  started s (some challenge) sign_authority false = pure (0, s)

  -- start(OPAL_UID, char *, vector<uint8_t>)
  unfoldable pub start : DtaSession → OpalUid → Option (List ℕ) → List ℕ → M (ℕ × DtaSession)
  unfolding start_args started
  start s sp host_challenge sign_authority = do
    args ← gets (λ d. start_args s d sp host_challenge sign_authority)
    cmd ← lift (build args true (reset_method opal_smuid_uid startsession))
    (rc, response) ← send_command s cmd no_response
    if rc == 0
        then (do
          (host, tper) ← lift (session_numbers response)
          eprise ← gets is_eprise
          started (record s { hsn = host; tsn = tper }) host_challenge sign_authority eprise)
        else pure (rc, s)

  -- start(OPAL_UID, char *, OPAL_UID)
  unfoldable pub start_uid : DtaSession → OpalUid → Option (List ℕ) → OpalUid → M (ℕ × DtaSession)
  start_uid s sp host_challenge sign_authority = start s sp host_challenge (uid_vec sign_authority)

  -- start(OPAL_UID)
  unfoldable pub start_anonymous : DtaSession → OpalUid → M (ℕ × DtaSession)
  start_anonymous s sp = start_uid s sp none opal_uid_hexff

  -- The destructor. A failure of the call is only logged.
  unfoldable pub end_session : DtaSession → M (Unit {0})
  end_session s = if s.will_abort then pure tt else (do
    cmd ← lift (build (opal endofsession ∷ []) false reset)
    send_command s cmd no_response
    pure tt)
