-- ===== src/Enterprise/Provider.antt =====
-- Common/DtaDevEnterprise.cpp: the reverts, and the exchange of properties.
use sedutil.Prelude.{ℕ, true, List, [], ◌∷◌, ◌++◌, some, ◌==◌, if◌then◌else◌, codes}
use sedutil.Lexicon.Uid.{
  OpalUid, opal_smuid_uid, opal_thissp_uid, opal_adminsp_uid, opal_sid_uid, opal_psid_uid,
}
use sedutil.Lexicon.Method.{OpalMethod, revert, revertsp, properties}
use sedutil.Lexicon.Token.{startlist, endlist, startname, endname}
use sedutil.Command.{Token, opal, uint, cstring, build, reset_method}
use sedutil.Device.{Platform, M, pure, ◌>>=◌, ◌>>◌, lift, gets, modify}
use sedutil.Session.{
  DtaSession, new_session, dont_hash_pwd, expect_abort, start_uid, end_session, send_command,
}
use sedutil.Opal.{no_args, invoke}
use sedutil.Opal.Setup.{property}

abbrev pub keep_args : ℕ → List Token
keep_args keep =
    opal startlist
    ∷ opal startname
    ∷ cstring (codes "KeepGlobalRangeKey")
    ∷ uint keep
    ∷ opal endname
    ∷ opal endlist
    ∷ []

-- The properties of the host, under their names.
unfoldable pub properties_args : List Token
properties_args =
    opal startlist
    ∷ opal startname
    ∷ cstring (codes "HostProperties")
    ∷ opal startlist
    ∷ (property (codes "MaxComPacketSize") 2048
        ++ (property (codes "MaxPacketSize") 2028
            ++ (property (codes "MaxIndTokenSize") 1992
                ++ (property (codes "MaxPackets") 1
                    ++ (property (codes "MaxSubpackets") 1
                        ++ (property (codes "MaxMethods") 1
                            ++ opal endlist ∷ opal endname ∷ opal endlist ∷ []))))))

module _ (p : Platform) where
  -- The session of a revert: from the call on, it is deleted without an end of session.
  unfoldable pub revert_in : DtaSession → OpalUid → List ℕ → OpalUid → OpalMethod → List Token → M ℕ
  revert_in s0 user password object method args = do
    (rc, s) ← start_uid p s0 opal_adminsp_uid (some password) user
    if rc == 0
        then (do
          rc' ← invoke p (expect_abort s) (build args true (reset_method object method))
          end_session p (expect_abort s)
          pure rc')
        else (do end_session p s; pure rc)

  unfoldable pub revert_locking_sp : List ℕ → ℕ → M ℕ
  unfolding revert_in
  revert_locking_sp password keep =
      revert_in new_session opal_sid_uid password opal_thissp_uid revertsp (keep_args keep)

  unfoldable pub revert_tper : List ℕ → ℕ → ℕ → M ℕ
  unfolding revert_in
  revert_tper password psid admin_sp =
      revert_in (if psid == 0 then new_session else dont_hash_pwd new_session)
        (if psid == 0 then opal_sid_uid else opal_psid_uid) password
        (if admin_sp == 0 then opal_thissp_uid else opal_adminsp_uid)
        (if admin_sp == 0 then revertsp else revert) no_args

  -- The session is used for its `sendCommand` only; it is never started, nor deleted.
  unfoldable pub properties_exchange : M ℕ
  unfolding properties_args
  properties_exchange = do
    cmd ← lift (build properties_args true (reset_method opal_smuid_uid properties))
    r ← gets (λ d. d.properties_response)
    (rc, r') ← send_command p new_session cmd r
    modify (λ d. record d { properties_response = r' })
    if rc == 0
        then (do
          modify (λ d. record d { disk_info = record d.disk_info { properties = 1 } })
          pure 0)
        else pure rc
