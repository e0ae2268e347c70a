-- ===== src/Opal/Closes.antt =====
-- Common/DtaDevOpal.cpp: the session around a command, and the request that is sent last.
use sedutil.Prelude.{
  ℕ, ◌≡◌, refl, sym, ap, ◌∙◌, subst, Bool, true, false, List, Option, some, ◌==◌, if◌then◌else◌,
  inl, inr, Bool-cases,
}
use sedutil.Outcome.{Outcome, done}
use sedutil.Lexicon.Uid.{OpalUid, opal_smuid_uid}
use sedutil.Lexicon.Method.{startsession}
use sedutil.Command.{build, reset_method}
use sedutil.Response.{DtaResponse}
use sedutil.Session.Reply.{no_response, session_numbers}
use sedutil.Device.{
  Platform, Request, DtaDev, M, pure, ◌>>=◌, lift, gets, is_eprise, com_id, >>=-eq-done,
  lift-eq-done,
}
use sedutil.Device.Exec.{last_sent}
use sedutil.Session.{DtaSession, start, started, start_args, send_command, end_session}
use sedutil.Session.Trace.{end_packet, end_session_sent}
use sedutil.Session.Course.{Sessions, silent, session, followed, start_lem, started-same}
use sedutil.Opal.{◌>>?◌, with_session}

-- A call that returns has ended every session that it started.
abbrev pub Closes {ℓ} : Platform → {A : Type ℓ} → M A → Type ℓ
Closes p {A = A} m = (d : DtaDev) (a : A) (d' : DtaDev) → m d ≡ done (a, d') → Sessions p d d'

pub pure-Closes {ℓ} : {p : Platform} {A : Type ℓ} (a : A) → Closes p (pure a)
pure-Closes a d a' d' h = let q : d ≡ d' = cc h in rw (sym q) (silent refl)

pub gets-Closes {ℓ} : {p : Platform} {A : Type ℓ} (f : DtaDev → A) → Closes p (gets f)
gets-Closes f d a d' h = let q : d ≡ d' = cc h in rw (sym q) (silent refl)

pub lift-Closes {ℓ} : {p : Platform} {A : Type ℓ} (o : Outcome A) → Closes p (lift o)
lift-Closes o d a d' h = let q = (lift-eq-done o d h).1 in rw (sym q) (silent refl)

pub >>=-Closes {ℓ κ} :
    {p : Platform} {A : Type ℓ} {B : Type κ} (m : M A) (f : A → M B)
    → Closes p m
    → ((a : A) → Closes p (f a))
    → Closes p (m >>= f)
>>=-Closes m f h k d b d' e =
    let (a, d1, ran, rest) = >>=-eq-done m f d e in followed (h d a d1 ran) (k a d1 b d' rest)

pub if-Closes {ℓ} :
    {p : Platform} {A : Type ℓ} (b : Bool) (m k : M A)
    → Closes p m
    → Closes p k
    → Closes p (if b then m else k)
if-Closes true m k h g = h
if-Closes false m k h g = g

pub >>?-Closes : {p : Platform} (m k : M ℕ) → Closes p m → Closes p k → Closes p (m >>? k)
>>?-Closes m k h g = >>=-Closes m _ h (λ rc. if-Closes (rc == 0) k (pure rc) g (pure-Closes rc))

same_packet :
    (s : DtaSession) (d : DtaDev) (l : List Request)
    → end_packet s d ≡ end_packet s (record d { requests = l })
unfolding com_id
same_packet s d l = refl

pub ends_with_packet :
    (p : Platform) (s : DtaSession) (d d' : DtaDev)
    → s.will_abort ≡ false
    → end_session p s d ≡ done (tt, d')
    → last_sent d'.requests ≡ some (end_packet s d')
ends_with_packet p s d d' flag ended =
    let (sent, same) = end_session_sent p s d ended in
    let sent' : last_sent d'.requests ≡ some (end_packet s d) =
      subst
        (λ b. last_sent d'.requests ≡ (if b then last_sent d.requests else some (end_packet s d)))
        flag sent in
    sent'
    ∙ ap (λ r. some r) (same_packet s d d'.requests)
    ∙ ap (λ e. some (end_packet s e)) (sym same)

module _ (p : Platform) (s : DtaSession) (sp : OpalUid) (password : Option (List ℕ))
    (authority : List ℕ) where
  -- What follows the reply of `start`.
  replied :
      (r : ℕ × DtaResponse) (d : DtaDev) {rc : ℕ} {s' : DtaSession} {d' : DtaDev}
      → (if r.0 == 0
            then (lift (session_numbers r.1) >>= λ n. gets is_eprise >>= λ b.
                started p (record s { hsn = n.0; tsn = n.1 }) password authority b)
            else pure (r.0, s))
          d
        ≡ done ((rc, s'), d')
      → s'.will_abort ≡ s.will_abort
  replied r d {rc} {s'} h = elim (Bool-cases (r.0 == 0)) [
    | inr e ↦ let q : s ≡ s' = cc (rw e at h) in ap (λ (t : DtaSession). t.will_abort) (sym q)
    | inl e ↦
        let (n, d1, numbers, h1) = >>=-eq-done (lift (session_numbers r.1)) _ d (rw e at h) in
        ap (λ (t : DtaSession). t.will_abort)
          (started-same p (record s { hsn = n.0; tsn = n.1 }) password authority (is_eprise d1) d1
            h1)
  ]

  start-will_abort :
      (d : DtaDev) {rc : ℕ} {s' : DtaSession} {d' : DtaDev}
      → start p s sp password authority d ≡ done ((rc, s'), d')
      → s'.will_abort ≡ s.will_abort
  unfolding start
  start-will_abort d h =
      let (cmd, d1, built, h1) =
        >>=-eq-done
          (lift (
            build (start_args p s d sp password authority) true
              (reset_method opal_smuid_uid startsession)))
          _ d h in
      let (r, d2, sent, h2) = >>=-eq-done (send_command p s cmd no_response) _ d1 h1 in
      replied r d2 h2

  -- A session that no abort is expected of: however the start and the body went, if the command
  -- returns then the last request sent is the end of the session that `start` gave, with its numbers.
  pub with_session_ends {ℓ} :
      {A : Type ℓ} (failed : ℕ → A) (body : DtaSession → M A) (d : DtaDev) (a : A) (d' : DtaDev)
      → s.will_abort ≡ false
      → with_session p s sp password authority failed body d ≡ done (a, d')
      → (rc : ℕ) × (s' : DtaSession) × (d1 : DtaDev) × (start p s sp password authority d
          ≡ done ((rc, s'), d1))
        × (last_sent d'.requests ≡ some (end_packet s' d'))
  unfolding with_session
  with_session_ends failed body d a d' flag h =
      let ((rc, s'), d1, began, h1) = >>=-eq-done (start p s sp password authority) _ d h in
      let (a', d2, ran, h2) = >>=-eq-done (if rc == 0 then body s' else pure (failed rc)) _ d1 h1 in
      let (x, d3, ended, h3) = >>=-eq-done (end_session p s') _ d2 h2 in
      let q : d3 ≡ d' = cc h3 in
      (
        rc,
        s',
        d1,
        began,
        subst (λ (e : DtaDev). last_sent e.requests ≡ some (end_packet s' e)) q
            (ends_with_packet p s' d2 d3 (start-will_abort d began ∙ flag) ended),
      )

  -- So the command is a session that is ended, with the numbers that the drive gave it.
  pub with_session-Closes {ℓ} :
      {A : Type ℓ} (failed : ℕ → A) (body : DtaSession → M A)
      → s.will_abort ≡ false
      → Closes p (with_session p s sp password authority failed body)
  with_session-Closes failed body flag d a d' h =
      let (rc, s', d1, began, q) = with_session_ends failed body d a d' flag h in
      session s sp password authority rc s' d1 began (start_lem p s sp password authority d began) q
