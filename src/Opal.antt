-- ===== src/Opal.antt =====
-- Common/DtaDevOpal.cpp: the commands of an Opal drive. This file has what they share: a session
-- around a command, the access to tables, and the identifiers of ranges and users.
-- What a command logs or prints is not modelled. The member `session` is an argument.
pub mod Ranges
pub mod Properties
pub mod Users
pub mod Provider
pub mod Setup
pub mod Commands
pub mod Closes
pub mod Calls
pub mod Image
pub mod Status
mod Tests
pub mod Wire
pub mod UserIds
use sedutil.Prelude.{
  ℕ, zero, suc, ◌+◌, ◌%◌, ◌^◌, Bool, true, List, [], ◌∷◌, Option, some, length, set, take, ◌==◌,
  if◌then◌else◌,
}
use sedutil.Outcome.{Outcome}
use sedutil.Lexicon.Uid.{
  OpalUid, opaluid, opal_authority_table, opal_lockingrange_global, opal_user1_uid,
  opal_lockingsp_uid, opal_admin1_uid,
}
use sedutil.Lexicon.Method.{OpalMethod, get}
use sedutil.Lexicon.Token.{
  OpalToken, token_code, short_code, bytestring8, startlist, endlist, startname, endname, values,
  startcolumn, endcolumn,
}
use sedutil.Command.{DtaCommand, Token, opal, uint, vec, build, reset_method, change_invoking_uid}
use sedutil.Response.{DtaResponse}
use sedutil.Device.{modify, Platform, DtaDev, M, pure, ◌>>=◌, ◌>>◌, lift, gets}
use sedutil.Session.{DtaSession, new_session, send_command, start, end_session, uid_vec}

-- `if ((lastRC = m) != 0) return lastRC;` and then the rest
infixr 4 ◌>>?◌
abbrev pub ◌>>?◌ : M ℕ → M ℕ → M ℕ
m >>? k = m >>= λ rc. if rc == 0 then k else pure rc

-- The vector `LR`: the global range, or another range by its number.
unfoldable pub range_uid : ℕ → List ℕ
range_uid lockingrange =
    if lockingrange == 0
    then uid_vec opal_lockingrange_global
    else set (set (uid_vec opal_lockingrange_global) 6 0x03) 8 lockingrange

-- The vector `auth` of the single user mode, whose last byte is the number of the user.
unfoldable pub user_auth : ℕ → List ℕ
user_auth user = set (uid_vec opal_user1_uid) 8 (user % 256)

-- A method call on a row of a table: `reset`, `changeInvokingUid`, the arguments, `complete`.
unfoldable pub table_command : List ℕ → OpalMethod → List Token → Outcome DtaCommand
table_command table method ts =
    build ts true (change_invoking_uid table (reset_method opal_authority_table method))

-- The arguments of a Set call: a list of columns and their values.
abbrev pub columns : List (OpalToken × Token) → List Token
columns [] = opal endlist ∷ opal endname ∷ opal endlist ∷ []
columns ((name, value) ∷ l) = opal startname ∷ opal name ∷ value ∷ opal endname ∷ columns l

abbrev pub set_args : List (OpalToken × Token) → List Token
set_args l = opal startlist ∷ opal startname ∷ opal values ∷ opal startlist ∷ columns l

-- The arguments of a Get call.
abbrev pub get_args : ℕ → ℕ → List Token
get_args startcol endcol =
    opal startlist
    ∷ opal startlist
    ∷ opal startname
    ∷ opal startcolumn
    ∷ uint startcol
    ∷ opal endname
    ∷ opal startname
    ∷ opal endcolumn
    ∷ uint endcol
    ∷ opal endname
    ∷ opal endlist
    ∷ opal endlist
    ∷ []

-- An empty list of arguments.
abbrev pub no_args : List Token
no_args = opal startlist ∷ opal endlist ∷ []

module _ (p : Platform) where
  -- session->sendCommand(cmd, response)
  unfoldable pub invoke : DtaSession → Outcome DtaCommand → M ℕ
  invoke s made = do
    cmd ← lift made
    r ← gets (λ d. d.response)
    (rc, r') ← send_command p s cmd r
    modify (λ d. record d { response = r' })
    pure rc

  -- getTable
  unfoldable pub get_table : DtaSession → List ℕ → ℕ → ℕ → M ℕ
  get_table s table startcol endcol = invoke s (table_command table get (get_args startcol endcol))

  -- setTable(vector<uint8_t>, OPAL_TOKEN, vector<uint8_t>)
  unfoldable pub set_table : DtaSession → List ℕ → OpalToken → List ℕ → M ℕ
  set_table s table name value =
      invoke s (table_command table OpalMethod.set (set_args ((name, vec value) ∷ [])))

  -- setTable(vector<uint8_t>, OPAL_TOKEN, OPAL_TOKEN)
  unfoldable pub set_table_token : DtaSession → List ℕ → OpalToken → OpalToken → M ℕ
  set_table_token s table name value = set_table s table name (token_code value ∷ [])

  -- A session that is started, used and deleted. When it does not start it is deleted as well, and
  -- the result tells the return code.
  unfoldable pub with_session {ℓ} :
      {A : Type ℓ}
      → DtaSession
      → OpalUid
      → Option (List ℕ)
      → List ℕ
      → (ℕ → A)
      → (DtaSession → M A)
      → M A
  with_session s sp password authority failed body = do
    (rc, s') ← start p s sp password authority
    a ← if rc == 0 then body s' else pure (failed rc)
    end_session p s'
    pure a

  -- The same as an administrator of the locking service provider.
  abbrev pub as_admin1 : List ℕ → (DtaSession → M ℕ) → M ℕ
  as_admin1 password body =
      with_session new_session opal_lockingsp_uid (some password) (uid_vec opal_admin1_uid)
        (λ rc. rc) body
