-- ===== src/Session/Course.antt =====
-- Common/DtaSession.cpp: the course of the sessions on a device, as a relation of its states.
use sedutil.Prelude.{
  ℕ, ◌^◌, ◌%◌, ◌≡◌, refl, sym, ap, ◌∙◌, arith, Bool, true, false, List, [], ◌∷◌, Option, none, some,
  ◌==◌, if◌then◌else◌, ◌⊎◌, inl, inr,
}
use sedutil.Outcome.{Outcome, done}
use sedutil.Endian.{swap32}
use sedutil.Structures.{AtaCommand, if_recv, if_send, identify}
use sedutil.Lexicon.Uid.{OpalUid, opal_smuid_uid}
use sedutil.Lexicon.Method.{startsession}
use sedutil.Command.{DtaCommand, build, reset_method}
use sedutil.Response.{DtaResponse, get_uint32}
use sedutil.Response.Values.{HoldsUint, get_uint64-HoldsUint}
use sedutil.Session.Reply.{no_response, session_numbers}
use sedutil.Device.{Platform, Request, DtaDev, M, pure, ◌>>=◌, lift, gets, is_eprise, >>=-eq-done}
use sedutil.Device.Exec.{last_sent}
use sedutil.Session.{
  DtaSession, new_session, start, started, start_args, authenticate_session, send_command,
  end_session,
}
use sedutil.Session.Trace.{end_packet}

-- The commands that went to the drive, without the requests for an answer.
abbrev pub sends : List Request → List Request
sends [] = []
sends (req ∷ l) = elim req.command [
  | if_send ↦ req ∷ sends l
  | if_recv ↦ sends l
  | identify ↦ sends l
]

abbrev latest : List Request → Option Request
latest [] = none
latest (req ∷ l) = some req

last_sent-sends : (l : List Request) → last_sent l ≡ latest (sends l)
last_sent-sends [] = refl
last_sent-sends (req ∷ l) = sent_or_not (last_sent-sends l) req.command refl
  where
    sent_or_not :
        last_sent l ≡ latest (sends l)
        → (c : AtaCommand) → req.command ≡ c
        → last_sent (req ∷ l) ≡ latest (sends (req ∷ l))
    sent_or_not rest if_send e = rw e refl
    sent_or_not rest if_recv e = rw e rest
    sent_or_not rest identify e = rw e rest

-- The session `s'` has the numbers that the drive gave it: if the StartSession call of `s` went
-- well, and the fifth and the sixth token of the reply hold two numbers of 32 bits, then they are
-- the session's, in the byte order of the protocol.
abbrev pub Numbered :
    Platform → DtaSession → OpalUid → Option (List ℕ) → List ℕ → DtaDev → DtaSession → Type 0
Numbered p s sp password authority d s' =
    (cmd : DtaCommand) (r : DtaResponse) (d1 : DtaDev) (host tper : ℕ)
    → build (start_args p s d sp password authority) true (reset_method opal_smuid_uid startsession)
      ≡ done cmd
    → send_command p s cmd no_response d ≡ done ((0, r), d1)
    → HoldsUint r 4 host
    → HoldsUint r 5 tper
    → (s'.hsn ≡ swap32 host) × (s'.tsn ≡ swap32 tper)

-- What a call does to a device whose sessions it all ends: it sends no command; or it starts a
-- session, which has the numbers that the drive gave it, and sends the end of this session last; or
-- it drops a session that was never started, for which an end of session 0 is sent last; or one such
-- course follows another.
pub data Sessions (p : Platform) : DtaDev → DtaDev → Type 0 where
  silent : {d d' : DtaDev} → sends d'.requests ≡ sends d.requests → Sessions p d d'
  session :
      {d d' : DtaDev} (s : DtaSession) (sp : OpalUid) (password : Option (List ℕ))
      (authority : List ℕ) (rc : ℕ) (s' : DtaSession) (d1 : DtaDev)
      → start p s sp password authority d ≡ done ((rc, s'), d1)
      → Numbered p s sp password authority d s'
      → last_sent d'.requests ≡ some (end_packet s' d')
      → Sessions p d d'
  unstarted :
      {d d' : DtaDev}
      → end_session p new_session d ≡ done (tt, d')
      → last_sent d'.requests ≡ some (end_packet new_session d')
      → Sessions p d d'
  followed : {d d1 d' : DtaDev} → Sessions p d d1 → Sessions p d1 d' → Sessions p d d'

-- A request that ends the session with the given numbers.
abbrev pub EndsSession : Option Request → Type 0
EndsSession req = (s : DtaSession) × (d : DtaDev) × (req ≡ some (end_packet s d))

-- The command that such a course sends last.
pub Sessions-last :
    {p : Platform} {d d' : DtaDev}
    → Sessions p d d'
    → (last_sent d'.requests ≡ last_sent d.requests) ⊎ EndsSession (last_sent d'.requests)
Sessions-last {d = d} {d' = d'} (silent same) =
    inl (last_sent-sends d'.requests ∙ ap latest same ∙ sym (last_sent-sends d.requests))
Sessions-last {d' = d'} (session s sp pw auth rc s' d1 began numbered q) = inr (s', d', q)
Sessions-last {d' = d'} (unstarted ended q) = inr (new_session, d', q)
Sessions-last (followed f g) = elim (Sessions-last g) [
  | inr ends ↦ inr ends
  | inl same ↦ elim (Sessions-last f) [
    | inl same1 ↦ inl (same ∙ same1)
    | inr (s, e, q) ↦ inr (s, e, same ∙ q)
  ]
]

-- The numbers that `start` reads are the two of the reply.
session_numbers-HoldsUint :
    (r : DtaResponse) (host tper : ℕ)
    → HoldsUint r 4 host
    → HoldsUint r 5 tper
    → session_numbers r ≡ done (swap32 host, swap32 tper)
unfolding session_numbers get_uint32
session_numbers-HoldsUint r host tper eh et =
    let small : host % 2 ^ 32 ≡ host = omega (arith, eh.0) in
    let small' : tper % 2 ^ 32 ≡ tper = omega (arith, et.0) in
    rw (get_uint64-HoldsUint r 4 host eh, get_uint64-HoldsUint r 5 tper et, small, small') refl

pub started-same :
    (p : Platform) (t : DtaSession) (pw : Option (List ℕ)) (authority : List ℕ) (b : Bool)
    (d : DtaDev) {rc : ℕ} {s' : DtaSession} {d' : DtaDev}
    → started p t pw authority b d ≡ done ((rc, s'), d')
    → s' ≡ t
unfolding started
started-same p t none authority b d h = cc h
started-same p t (some challenge) authority false d h = cc h
started-same p t (some challenge) authority true d h =
    let (rc, d1, ran, h1) = >>=-eq-done (authenticate_session p t authority challenge) _ d h in
    cc h1

bind-done {ℓ κ} :
    {A : Type ℓ} {B : Type κ} (m : M A) (f : A → M B) (d : DtaDev) (a : A) (d1 : DtaDev)
    → m d ≡ done (a, d1)
    → (m >>= f) d ≡ f a d1
bind-done {A = A} m f d a d1 h = ap (λ (o : Outcome (A × DtaDev)). ((λ e. o) >>= f) d) h

module _ (p : Platform) (s : DtaSession) (sp : OpalUid) (password : Option (List ℕ))
    (authority : List ℕ) where
  -- The parts of `start`, from the reply on.
  abbrev numbered : ℕ × DtaResponse → ℕ × ℕ → M (ℕ × DtaSession)
  numbered x n =
      gets is_eprise >>= λ b. started p (record s { hsn = n.0; tsn = n.1 }) password authority b

  abbrev replied : ℕ × DtaResponse → M (ℕ × DtaSession)
  replied x = if x.0 == 0 then (lift (session_numbers x.1) >>= numbered x) else pure (x.0, s)

  abbrev sent_next : DtaCommand → M (ℕ × DtaSession)
  sent_next cmd = send_command p s cmd no_response >>= replied

  -- A session that `start` gives has the numbers of the drive: when the StartSession call went well and
  -- tokens 4 and 5 of its reply hold two numbers of 32 bits, in the least width or in four bytes, then
  -- they are the numbers of the host and of the drive, in the byte order of the protocol, also when the
  -- start then fails to authenticate.
  pub start_lem :
      (d : DtaDev) {rc : ℕ} {s' : DtaSession} {d' : DtaDev}
      → start p s sp password authority d ≡ done ((rc, s'), d')
      → (cmd : DtaCommand) (r : DtaResponse) (d1 : DtaDev) (host tper : ℕ)
      → build
          (start_args p s d sp password authority)
          true
          (reset_method opal_smuid_uid startsession)
        ≡ done cmd
      → send_command p s cmd no_response d ≡ done ((0, r), d1)
      → HoldsUint r 4 host
      → HoldsUint r 5 tper
      → (s'.hsn ≡ swap32 host) × (s'.tsn ≡ swap32 tper)
  unfolding start
  start_lem d {s' = s'} h cmd r d1 host tper built sent eh et =
      let read = session_numbers-HoldsUint r host tper eh et in
      let call =
        build (start_args p s d sp password authority) true
          (reset_method opal_smuid_uid startsession) in
      let h1 = sym (bind-done (lift call) sent_next d cmd d (ap (λ o. lift o d) built)) ∙ h in
      let h2 = sym (bind-done (send_command p s cmd no_response) replied d (0, r) d1 sent) ∙ h1 in
      let h3 =
        sym (
          bind-done (lift (session_numbers r)) (numbered (0, r)) d1 (swap32 host, swap32 tper) d1
            (ap (λ o. lift o d1) read))
        ∙ h2 in
      let same = started-same p _ password authority (is_eprise d1) d1 h3 in
      (ap (λ (t : DtaSession). t.hsn) same, ap (λ (t : DtaSession). t.tsn) same)
