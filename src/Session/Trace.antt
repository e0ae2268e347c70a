-- ===== src/Session/Trace.antt =====
-- Common/DtaSession.cpp: what a session sends: the header it stamps, and the end of session packet of the destructor.
use sedutil.Prelude.{
  ℕ, ◌≡◌, refl, sym, ap, ◌∙◌, subst, Bool, true, false, List, [], ◌∷◌, some, ◌==◌, if◌then◌else◌,
  Bool-cases, inl, inr,
}
use sedutil.Outcome.{Outcome, done}
use sedutil.Lexicon.Token.{token_code, endofsession}
use sedutil.Command.{DtaCommand, opal, reset, set_com_id, set_tsn, set_hsn, build}
use sedutil.Command.Encode.{at, add_tokens-at, token_bytes}
use sedutil.Command.Layout.{finished, set_com_id-at, set_tsn-at, set_hsn-at, complete-at}
use sedutil.Response.{DtaResponse}
use sedutil.Device.{
  Platform, Request, DtaDev, M, pure, lift, ◌>>=◌, com_id, exec, >>=-eq-done, lift-eq-done,
}
use sedutil.Device.Exec.{send_request, exec_polls, last_sent, Untouched, polled_sent}
use sedutil.Session.Reply.{no_response, check_reply}
use sedutil.Session.{DtaSession, send_command, end_session}

-- The command with the session's numbers and the device's ComID in its header.
abbrev pub stamped : DtaSession → DtaDev → DtaCommand → DtaCommand
stamped s d cmd = set_com_id (com_id d) (set_tsn s.tsn (set_hsn s.hsn cmd))

module _ (p : Platform) (s : DtaSession) (cmd : DtaCommand) (resp : DtaResponse) (d : DtaDev) where
  status_of_reply :
      (r : ℕ × DtaResponse) (d1 : DtaDev) {x : ℕ × DtaResponse} {d' : DtaDev}
      → (if r.0 == 0
            then (lift (check_reply r.1) >>= λ status. pure (status, r.1))
            else pure (r.0, r.1))
          d1
        ≡ done (x, d')
      → d1 ≡ d'
  status_of_reply r d1 {x} {d'} h = elim (Bool-cases (r.0 == 0)) [
    | inr e ↦ cc (rw e at h)
    | inl e ↦
        let (a, d2, i, j) = >>=-eq-done (lift (check_reply r.1)) _ d1 (rw e at h) in
        (lift-eq-done (check_reply r.1) d1 i).1 ∙ cc j
  ]

  -- A `sendCommand` that returns has sent the command last, under the session's numbers and the
  -- device's ComID, and has changed nothing of the device but its requests.
  pub send_command_sent :
      {x : ℕ × DtaResponse} {d' : DtaDev}
      → send_command p s cmd resp d ≡ done (x, d')
      → (last_sent d'.requests ≡ some (send_request s.security_protocol (stamped s d cmd) d))
        × Untouched d d'
  unfolding send_command
  send_command_sent {x} {d'} h =
      let (r, d1, ran, rest) =
        >>=-eq-done (exec p (stamped s d cmd) resp s.security_protocol) _ d h in
      let (k, q) = exec_polls p (stamped s d cmd) resp s.security_protocol d ran in
      polled_sent s.security_protocol k (stamped s d cmd) d d' (sym (status_of_reply r d1 rest) ∙ q)

pub stamped-finished :
    (s : DtaSession) (d : DtaDev) (payload : List ℕ)
    → stamped s d (at (finished 0 0 0 payload)) ≡ at (finished (com_id d) s.tsn s.hsn payload)
stamped-finished s d payload = rw (set_hsn-at, set_tsn-at, set_com_id-at)

-- The packet that ends the session with the given numbers.
abbrev pub end_packet : DtaSession → DtaDev → Request
end_packet s d =
    send_request s.security_protocol
      (at (finished (com_id d) s.tsn s.hsn (token_code endofsession ∷ []))) d

abbrev end_bytes : List ℕ
end_bytes = token_code endofsession ∷ []

end_command : build (opal endofsession ∷ []) false reset ≡ done (at (finished 0 0 0 end_bytes))
unfolding reset token_bytes
end_command =
    rw (add_tokens-at (opal endofsession ∷ []) reset.cmdbuf (tt, tt)) (complete-at end_bytes false)

module _ (p : Platform) (s : DtaSession) (d : DtaDev) where
  abbrev ending : M (Unit {0})
  ending = send_command p s (at (finished 0 0 0 end_bytes)) no_response >>= λ x. pure tt

  end_session-ending : end_session p s d ≡ (if s.will_abort then pure tt else ending) d
  unfolding end_session
  end_session-ending =
      ap
        (λ (o : Outcome DtaCommand).
          (if s.will_abort
              then pure tt
              else (lift o >>= λ cmd. send_command p s cmd no_response >>= λ x. pure tt))
            d)
        end_command

  ending_sent :
      {d' : DtaDev}
      → ending d ≡ done (tt, d')
      → (last_sent d'.requests ≡ some (end_packet s d)) × Untouched d d'
  ending_sent {d'} h =
      let (x, d1, ran, rest) =
        >>=-eq-done (send_command p s (at (finished 0 0 0 end_bytes)) no_response) (λ x. pure tt) d
          h in
      let q : d1 ≡ d' = cc rest in
      let sent = send_command_sent p s (at (finished 0 0 0 end_bytes)) no_response d ran in
      subst (λ (e : DtaDev). (last_sent e.requests ≡ some (end_packet s d)) × Untouched d e) q
        (
          sent.0
              ∙ ap (λ c. some (send_request s.security_protocol c d))
                  (stamped-finished s d end_bytes),
          sent.1,
        )

-- The two ways through a test, at any value of it.
if-elim {ℓ κ} :
    {A : Type ℓ} {x y : A} (C : Bool → A → Type κ) (b : Bool)
    → C true x
    → C false y
    → C b (if b then x else y)
if-elim C true t f = t
if-elim C false t f = f

-- A destructor that returns has sent the end of session token last, under the session's numbers,
-- unless an abort is expected; then it has sent nothing. The rest of the device is left alone.
pub end_session_sent :
    (p : Platform) (s : DtaSession) (d : DtaDev) {d' : DtaDev}
    → end_session p s d ≡ done (tt, d')
    → (last_sent d'.requests
        ≡ (if s.will_abort then last_sent d.requests else some (end_packet s d)))
      × Untouched d d'
end_session_sent p s d {d'} h =
    if-elim
      (λ b (m : M (Unit {0})).
        m d ≡ done (tt, d')
        → (last_sent d'.requests ≡ (if b then last_sent d.requests else some (end_packet s d)))
          × Untouched d d')
      s.will_abort
      (λ k.
        let q : d ≡ d' = cc k in
        subst (λ (e : DtaDev). (last_sent e.requests ≡ last_sent d.requests) × Untouched d e) q
          (refl, refl))
      (ending_sent p s d) (sym (end_session-ending p s d) ∙ h)
