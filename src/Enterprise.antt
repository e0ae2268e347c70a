-- ===== src/Enterprise.antt =====
-- Common/DtaDevEnterprise.cpp: the commands of an Enterprise drive. This file has what they share:
-- the identifiers of bands, the calls with their columns by name, and the number of the bands.
-- The sessions around the commands are those of the Opal drives.
pub mod Bands
pub mod Users
pub mod Provider
pub mod Commands
pub mod Closes
pub mod Calls
pub mod BandIds
pub mod Wire
pub mod Bounds
mod Tests
use sedutil.Prelude.{
  ℕ, zero, suc, ◌+◌, ◌/◌, ◌%◌, ◌^◌, Bool, true, List, [], ◌∷◌, ◌++◌, Option, none, some, set, ltb,
  ◌==◌, ◌||◌, not, if◌then◌else◌, codes, bytes_eq,
}
use Prim.Native.Nat.{bit_or, bit_and}
use sedutil.Outcome.{Outcome}
use sedutil.Lexicon.Uid.{
  OpalUid, opaluid, enterprise_lockingsp_uid, enterprise_locking_info_table,
  opal_locking_info_table, opal_adminsp_uid, opal_c_pin_msid, opal_uid_hexff,
}
use sedutil.Lexicon.Method.{OpalMethod, opalmethod, eset, eget}
use sedutil.Lexicon.Token.{short_code, bytestring8, startlist, endlist, startname, endname}
use sedutil.Lexicon.Status.{error_code, unsuported_locking_range}
use sedutil.Command.{DtaCommand, Token, opal, vec, cstring, build, reset_vecs}
use sedutil.Response.{get_uint16, get_string}
use sedutil.Device.{Platform, M, pure, ◌>>=◌, ◌>>◌, lift, gets}
use sedutil.Session.{DtaSession, new_session, uid_vec}
use sedutil.Opal.{◌>>?◌, table_command, invoke, with_session}
use sedutil.Opal.Properties.{c_str}

-- `set8` of the number of a method
abbrev pub method_vec : OpalMethod → List ℕ
method_vec m = short_code bytestring8 ∷ opalmethod m

-- An element of the vectors, which all have nine.
abbrev pub element : List ℕ → ℕ → ℕ
element [] i = 0
element (b ∷ l) zero = b
element (b ∷ l) (suc i) = element l i

-- `setband`: the element 7 is read and written, then the element 8.
unfoldable pub setband : List ℕ → ℕ → List ℕ
setband v i =
    let j = (i + 1) % 2 ^ 16 in
    set (set v 7 (bit_and (bit_or (j / 2 ^ 8) (element v 7)) 0xf0)) 8 (j % 2 ^ 8)

-- `user2cpin`
unfoldable pub user2cpin : List ℕ → List ℕ
user2cpin src = set src 4 0x0b

unfoldable pub is_null_uid : List ℕ → Bool
is_null_uid v = bytes_eq v (0xa8 ∷ 0 ∷ 0 ∷ 0 ∷ 0 ∷ 0 ∷ 0 ∷ 0 ∷ 0 ∷ [])

-- The arguments of a Set call: columns by their names, each with the tokens of its value.
abbrev pub named : List (List ℕ × List Token) → List Token → List Token
named [] l = l
named ((name, value) ∷ columns) l =
    opal startname ∷ cstring name ∷ (value ++ opal endname ∷ named columns l)

abbrev pub eset_args : List (List ℕ × List Token) → List Token
eset_args columns =
    opal startlist
    ∷ opal startlist
    ∷ opal endlist
    ∷ opal startlist
    ∷ opal startlist
    ∷ named columns (opal endlist ∷ opal endlist ∷ opal endlist ∷ [])

-- The arguments of a Get call.
abbrev pub eget_args : List ℕ → List ℕ → List Token
eget_args startcol endcol =
    opal startlist
    ∷ opal startlist
    ∷ named
        ((codes "startColumn", cstring startcol ∷ [])
          ∷ (codes "endColumn", cstring endcol ∷ [])
          ∷ [])
        (opal endlist ∷ opal endlist ∷ [])

-- A call on an object that is given as a vector, as the method is.
unfoldable pub object_command : List ℕ → OpalMethod → List Token → Outcome DtaCommand
object_command object method ts = build ts true (reset_vecs object (method_vec method))

-- What `getMaxRanges` gives: a return code, or the number.
pub data MaxRanges : Type 0 where
  refused : ℕ → MaxRanges
  supported : ℕ → MaxRanges

-- How a query in its session went: the session did not start, the table was read, or it was not.
pub data Query : Type 0 where
  unstarted : ℕ → Query
  answered : Query
  unanswered : ℕ → Query

module _ (p : Platform) where
  -- getTable
  unfoldable pub get_table : DtaSession → List ℕ → List ℕ → List ℕ → M ℕ
  get_table s table startcol endcol =
      invoke p s (table_command table eget (eget_args startcol endcol))

  -- setTable(vector<uint8_t>, const char *, vector<uint8_t>)
  unfoldable pub set_table : DtaSession → List ℕ → List ℕ → List ℕ → M ℕ
  set_table s table name value =
      invoke p s (table_command table eset (eset_args ((name, vec value ∷ []) ∷ [])))

  -- The query of MaxRanges in a session without a user.
  unfoldable pub query_max_ranges : OpalUid → M Query
  query_max_ranges table =
      with_session p new_session enterprise_lockingsp_uid none (uid_vec opal_uid_hexff) unstarted
        (λ s. do
          rc ← get_table s (uid_vec table) (codes "MaxRanges") (codes "MaxRanges")
          pure (if rc == 0 then answered else unanswered rc))

  -- The number is token 5 of the response.
  abbrev pub read_max_ranges : M MaxRanges
  read_max_ranges = do n ← gets (λ d. get_uint16 d.response 5) >>= lift; pure (supported n)

  -- What follows the query, with what is tried when the table was not read.
  unfoldable pub after_query : (ℕ → M MaxRanges) → Query → M MaxRanges
  after_query again (unstarted rc) = pure (refused rc)
  after_query again answered = read_max_ranges
  after_query again (unanswered rc) = again rc

  unfoldable pub get_max_ranges_opal : M MaxRanges
  unfolding query_max_ranges after_query
  get_max_ranges_opal =
      query_max_ranges opal_locking_info_table >>= after_query (λ rc. pure (refused rc))

  unfoldable pub get_max_ranges : M MaxRanges
  unfolding query_max_ranges after_query get_max_ranges_opal
  get_max_ranges =
      query_max_ranges enterprise_locking_info_table >>= after_query (λ rc. get_max_ranges_opal)

  -- The test of a band against the number of bands, before a command on it.
  unfoldable pub with_max_ranges : ℕ → MaxRanges → M ℕ → M ℕ
  with_max_ranges band (refused rc) k = pure rc
  with_max_ranges band (supported n) k =
      if (n == 0) || not (ltb n 1024)
      then pure (error_code unsuported_locking_range)
      else if ltb n band
      then pure (error_code unsuported_locking_range)
      else k

  abbrev pub in_bounds : ℕ → M ℕ → M ℕ
  in_bounds band k = do q ← get_max_ranges; with_max_ranges band q k

  unfoldable pub get_default_password : M ℕ
  get_default_password =
      with_session p new_session opal_adminsp_uid none (uid_vec opal_uid_hexff) (λ rc. rc)
        (λ s. get_table s (uid_vec opal_c_pin_msid) (codes "PIN") (codes "PIN"))

-- response.getString(5), after `getDefaultPassword`
abbrev pub default_password : M (List ℕ)
default_password = gets (λ d. get_string d.response 5) >>= lift
