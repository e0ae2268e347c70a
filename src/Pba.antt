-- ===== src/Pba.antt =====
-- LinuxPBA/LinuxPBA.cpp, LinuxPBA/GetPassPhrase.cpp and LinuxPBA/UnlockSEDs.cpp: the pre-boot
-- authorisation. What is printed is not modelled, nor are the pause and the settings of the terminal.
pub mod Typing
pub mod Drives
pub mod Sessions
mod Tests
use sedutil.Prelude.{
  ℕ, zero, suc, ◌+◌, ◌-◌, Bool, true, false, not, ◌&&◌, ◌||◌, List, [], ◌∷◌, ◌++◌, Option, none,
  some, length, take, codes, bytes_eq, ◌==◌, if◌then◌else◌,
}
use sedutil.Outcome
use sedutil.Outcome.{Outcome, done, hung}
use sedutil.Lexicon.Status.{lockingstate_code, readwrite}
use sedutil.Device.{DeviceClass, opal1, opal2, DtaDev, M, pure, ◌>>=◌, ◌>>◌, gets, modify}
use sedutil.Discovery.Requests.{is_opal1, is_opal2, locked, mbr_enabled}
use sedutil.Opal.Properties.{c_str}
use sedutil.Opal.Commands.{Command, run}
use sedutil.Main.Open.{Machine, new_device, init_os, construct}
use sedutil.Main.Scan.{devices, devref}

-- What a key other than the return key makes of the password.
unfoldable pub edit : ℕ → List ℕ → List ℕ
edit ch password =
    if ch == 127
    then (if length password == 0 then password else take (length password - 1) password)
    else if not (ch == 27)
    then password ++ (ch ∷ [])
    else password

-- The loop over the keys. When there are no more, each further `getchar` gives another EOF, which is
-- no return key, so that the loop does not end.
unfoldable pub read_keys : List ℕ → List ℕ → Outcome (List ℕ)
unfolding edit
read_keys [] password = hung
read_keys (ch ∷ keys) password =
    let rest = read_keys keys (edit ch password) in if ch == 10 then done password else rest

-- `GetPassPhrase`
unfoldable pub get_pass_phrase : List ℕ → Outcome (List ℕ)
unfolding read_keys
get_pass_phrase keys = read_keys keys []

-- What is printed of a drive.
pub data Verdict : Type 0 where
  not_opal not_locked opal_failed opal_unlocked : Verdict

module _ (machine : Machine) (name : List ℕ) (password : List ℕ) where
  -- The part for a drive that is locked; whether a command failed.
  unfoldable pub unlock : M Verdict
  unlock = do
    info ← gets (λ d. d.disk_info)
    mbr ←
        if mbr_enabled info == 0
        then pure 0
        else run (machine.platform name) (Command.set_mbr_done 1 password)
    rc ←
        run (machine.platform name)
          (Command.set_locking_range 0 (lockingstate_code readwrite) password)
    if (mbr == 0) && (rc == 0) then pure opal_unlocked else pure opal_failed

  -- What follows the constructor of a class.
  unfoldable pub use_opal : M Verdict
  use_opal = do
    modify (λ d. record d { no_hash_passwords = false })
    info ← gets (λ d. d.disk_info)
    if locked info == 0 then pure not_locked else unlock

  -- A drive that is present.
  unfoldable pub visit_present : M Verdict
  visit_present = do
    info ← gets (λ d. d.disk_info)
    if (is_opal1 info == 0) && (is_opal2 info == 0)
        then pure not_opal
        else (let class = if is_opal2 info == 0 then opal1 else opal2 in
            (do modify (λ d. new_device class d.requests); construct machine name class; use_opal))

  -- A round of the loop over the drives; none where it is left.
  unfoldable pub visit : M (Option Verdict)
  visit = do
    present ← init_os machine name
    if present then (do v ← visit_present; pure (some v)) else pure none

-- A drive that was visited, and the device as it was left.
pub record Visited : Type 0 where
  pub name : List ℕ
  pub verdict : Verdict
  pub device : DtaDev

module _ (machine : Machine) (password : List ℕ) where
  -- The loop over the drives.
  unfoldable pub visit_all : List (List ℕ) → Outcome (List Visited)
  visit_all [] = done []
  visit_all (name ∷ names) =
      let rest = visit_all names in
      sedutil.Outcome.◌>>=◌ (visit machine (devref name) password (new_device opal2 []))
        (λ (verdict, d). elim verdict [
          | none ↦ done []
          | some v ↦
              sedutil.Outcome.◌>>=◌ rest
                (λ others. done (record { name = name; verdict = v; device = d } ∷ others))
        ])

  -- `UnlockSEDs`, which returns 0 in any case
  unfoldable pub unlock_seds : Outcome (List Visited)
  unfolding visit_all
  unlock_seds = visit_all (devices machine)

-- The main program: the drives, and whether it reboots.
unfoldable pub pba : Machine → List ℕ → Outcome (List Visited × Bool)
unfolding unlock_seds get_pass_phrase
pba machine keys = sedutil.Outcome.◌>>=◌ (get_pass_phrase keys) (λ p.
    sedutil.Outcome.◌>>=◌ (unlock_seds machine (c_str p))
      (λ visited. done (visited, not (bytes_eq (c_str p) (codes "debug")))))
