-- ===== src/Pba/Drives.antt =====
-- LinuxPBA/UnlockSEDs.cpp: the drives that are visited, and the sessions that are left on them.
use sedutil.Prelude.{
  ℕ, ◌≡◌, refl, ap, sym, Bool, true, false, ◌&&◌, ◌||◌, List, [], ◌∷◌, Option, none, some, codes,
  ◌==◌, ◌⊎◌, inl, inr, Bool-cases, if◌then◌else◌,
}
use mathlib.Core.List.{map}
use sedutil.Outcome
use sedutil.Outcome.{Outcome, done}
use sedutil.Lexicon.Status.{lockingstate_code, readwrite}
use sedutil.Device.{opal2, DtaDev, pure, ◌>>=◌, >>=-eq-done}
use sedutil.Discovery.Requests.{know, discovery0, locked, mbr_enabled}
use sedutil.Session.Course.{silent, followed}
use sedutil.Opal.Closes.{Closes, pure-Closes, gets-Closes, >>=-Closes, if-Closes}
use sedutil.Opal.Commands.{Command}
use sedutil.Opal.Calls.{run-Closes}
use sedutil.Opal.Users.{begins_with}
use sedutil.Main.Open.{Machine, new_device, init_os, is_other}
use sedutil.Main.Scan.{devref}
use sedutil.Pba.{Verdict, Visited, unlock, use_opal, visit_present, visit, visit_all}

module _ (machine : Machine) (name : List ℕ) (password : List ℕ) where
  unlock-Closes : Closes (machine.platform name) (unlock machine name password)
  unfolding unlock
  unlock-Closes = >>=-Closes _ _ (gets-Closes (λ d. d.disk_info)) λ info.
      >>=-Closes _ _
        (if-Closes (mbr_enabled info == 0) _ _ (pure-Closes 0)
          (run-Closes (machine.platform name) (Command.set_mbr_done 1 password)))
        λ mbr.
          >>=-Closes _ _
            (run-Closes (machine.platform name)
              (Command.set_locking_range 0 (lockingstate_code readwrite) password))
            λ rc. if-Closes ((mbr == 0) && (rc == 0)) _ _ (pure-Closes _) (pure-Closes _)

  -- The work on an Opal drive that was opened, if it returns, ends the sessions that it starts.
  pub use_opal-Closes : Closes (machine.platform name) (use_opal machine name password)
  unfolding use_opal
  use_opal-Closes d v d' ran = followed (silent refl) (
      >>=-Closes _ _ (gets-Closes (λ d. d.disk_info))
        (λ info. if-Closes (locked info == 0) _ _ (pure-Closes Verdict.not_locked) unlock-Closes)
        (record d { no_hash_passwords = false }) v d' ran)

module _ (machine : Machine) where
  -- A device that has a known kind of name and opens.
  abbrev pub opens_as : List ℕ → Bool
  opens_as name =
      (begins_with (codes "/dev/nvme") name || begins_with (codes "/dev/s") name)
      && machine.opens name

  init_os-opens_as :
      (name : List ℕ) (d d' : DtaDev) (b : Bool)
      → init_os machine name d ≡ done (b, d')
      → opens_as name ≡ b
  unfolding init_os
  init_os-opens_as name d d' b ran = elim (Bool-cases (opens_as name)) [
    | inr e ↦ cc (rw e at ran)
    | inl e ↦ elim (Bool-cases (is_other (machine.identified name).dev_type)) [
      | inl f ↦ cc (rw (e, f) at ran)
      | inr f ↦
          let (u, d1, ran1, rest) =
            >>=-eq-done (discovery0 (machine.platform name)) _ (know (machine.identified name) d)
              (rw (e, f) at ran) in
          cc (rest, e)
    ]
  ]

  -- A round goes on if and only if the device opens.
  visit-opens_as :
      (name password : List ℕ) (d d' : DtaDev) (v : Option Verdict)
      → visit machine name password d ≡ done (v, d')
      → ((v ≡ none) × (opens_as name ≡ false))
        ⊎ ((w : Verdict) × (v ≡ some w) × (opens_as name ≡ true))
  unfolding visit
  visit-opens_as name password d d' v ran =
      let (present, d1, opened, rest) = >>=-eq-done (init_os machine name) _ d ran in
      go d1 present (init_os-opens_as name d d1 present opened) rest
    where
      go :
          (d1 : DtaDev) (present : Bool)
          → opens_as name ≡ present
          → (if present
                then visit_present machine name password >>= (λ w. pure (some w))
                else pure none)
              d1
            ≡ done (v, d')
          → ((v ≡ none) × (opens_as name ≡ false))
            ⊎ ((w : Verdict) × (v ≡ some w) × (opens_as name ≡ true))
      go d1 false e r = inl (cc r, e)
      go d1 true e r =
          let (w, d2, seen, last) = >>=-eq-done (visit_present machine name password) _ d1 r in
          inr (w, cc last, e)

  -- The devices before the first one that does not open.
  unfoldable pub before_closed : List (List ℕ) → List (List ℕ)
  before_closed [] = []
  before_closed (name ∷ names) =
      let rest = before_closed names in if opens_as (devref name) then name ∷ rest else []

  -- The drives that are visited are those before the first name whose device does not open, in their
  -- order; the drives behind it stay as they are.
  pub visit_all-before_closed :
      (password : List ℕ) (names : List (List ℕ)) (l : List Visited)
      → visit_all machine password names ≡ done l
      → map (λ (v : Visited). v.name) l ≡ before_closed names
  unfolding visit_all before_closed
  visit_all-before_closed password [] l ran = let q : [] ≡ l = cc ran in rw (sym q) refl
  visit_all-before_closed password (name ∷ names) l ran =
      let (seen, visited, rest) =
        Outcome.>>=-eq-done (visit machine (devref name) password (new_device opal2 [])) _ ran in
      elim (visit-opens_as (devref name) password (new_device opal2 []) seen.1 seen.0 visited) [
        | inl (q, e) ↦ let nothing : [] ≡ l = cc (rw q at rest) in rw (e, sym nothing) refl
        | inr (w, q, e) ↦
            let (others, more, last) =
              Outcome.>>=-eq-done (visit_all machine password names) _ (rw q at rest) in
            let this : record { name = name; verdict = w; device = seen.1 } ∷ others ≡ l =
              cc last in
            rw (e, sym this)
              (ap (λ t. name ∷ t) (visit_all-before_closed password names others more))
      ]
