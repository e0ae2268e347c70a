-- ===== src/Pba/Sessions.antt =====
-- LinuxPBA/UnlockSEDs.cpp: what the visit of the drives sends each of them last.
use sedutil.Prelude.{
  ℕ, ◌≡◌, refl, sym, ◌&&◌, List, [], ◌∷◌, Option, none, some, ◌==◌, if◌then◌else◌, All,
}
use sedutil.Outcome
use sedutil.Outcome.{Outcome, done}
use sedutil.Device.{opal1, opal2, DtaDev}
use sedutil.Discovery.Requests.{is_opal1, is_opal2}
use sedutil.Main.Open.{Machine, new_device}
use sedutil.Main.Scan.{devref}
use sedutil.Main.Settled.{
  Course, Settles, Closes-Settles, >>=-Settles, if-Settles, modify-Settles, gets-Settles,
  pure-Settles, init_os-Settles, construct-Settles,
}
use sedutil.Pba.{Verdict, Visited, visit_present, visit, visit_all}
use sedutil.Pba.Drives.{use_opal-Closes}

module _ (machine : Machine) (name : List ℕ) (password : List ℕ) where
  visit_present-Settles : Settles (machine.platform name) (visit_present machine name password)
  unfolding visit_present
  visit_present-Settles = >>=-Settles _ _ (gets-Settles (λ d. d.disk_info)) λ info.
      if-Settles ((is_opal1 info == 0) && (is_opal2 info == 0)) (pure-Settles Verdict.not_opal) (
        let class = if is_opal2 info == 0 then opal1 else opal2 in
        >>=-Settles _ _ (modify-Settles (λ d. new_device class d.requests) (λ d. refl)) λ u.
          >>=-Settles _ _ (construct-Settles machine name class)
            λ v. Closes-Settles (use_opal-Closes machine name password))

  visit-Settles : Settles (machine.platform name) (visit machine name password)
  unfolding visit
  visit-Settles = >>=-Settles _ _ (init_os-Settles machine name) λ present.
      if-Settles present (>>=-Settles _ _ visit_present-Settles λ v. pure-Settles (some v))
        (pure-Settles none)

-- What a drive was sent, from its opening on.
abbrev pub Rests : Machine → Visited → Type 0
Rests machine v = Course (machine.platform (devref v.name)) (new_device opal2 []) v.device

-- The visit of all drives, if it returns, has sent each of them nothing but exchanges of
-- properties, which have no session, and a chain of sessions, and each of the chain is ended: it
-- has the two numbers of 32 bits that the reply to its StartSession call gives it, where the call
-- went well, and the end of the session with these numbers is the last command before the next one
-- of the chain starts. Nothing is said of what is sent within a session, and a session that is
-- dropped before its start is ended under the numbers 0. So it is whatever the drives answer.
pub visit_all-Rests :
    (machine : Machine) (password : List ℕ) (names : List (List ℕ)) (l : List Visited)
    → visit_all machine password names ≡ done l
    → All (Rests machine) l
unfolding visit_all
visit_all-Rests machine password [] l ran = let q : [] ≡ l = cc ran in rw (sym q) tt
visit_all-Rests machine password (name ∷ names) l ran =
    let ((verdict, d), visited, rest) =
      Outcome.>>=-eq-done (visit machine (devref name) password (new_device opal2 [])) _ ran in
    let rests =
      visit-Settles machine (devref name) password (new_device opal2 []) verdict d visited in
    go verdict d rests (λ others more. visit_all-Rests machine password names others more) rest
  where
    go :
        (verdict : Option Verdict) (d : DtaDev)
        → Course (machine.platform (devref name)) (new_device opal2 []) d
        → ((others : List Visited)
            → visit_all machine password names ≡ done others
            → All (Rests machine) others)
        → elim verdict [
          | none ↦ done []
          | some v ↦
              sedutil.Outcome.◌>>=◌
                (visit_all machine password names)
                (λ others. done (record { name = name; verdict = v; device = d } ∷ others))
        ]
          ≡ done l
        → All (Rests machine) l
    go none d rests behind e = let q : [] ≡ l = cc e in rw (sym q) tt
    go (some v) d rests behind e =
        let (others, more, last) = Outcome.>>=-eq-done (visit_all machine password names) _ e in
        let this : record { name = name; verdict = v; device = d } ∷ others ≡ l = cc last in
        rw (sym this) (rests, behind others more)
