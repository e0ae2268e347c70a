-- ===== src/Main/Run.antt =====
-- Common/sedutil.cpp: what a run of the whole program sends the drive last.
use sedutil.Prelude.{ℕ, ◌≡◌, refl, Bool, false, not, ◌||◌, List, [], Option, none, some, ◌==◌}
use sedutil.Outcome
use sedutil.Outcome.{Outcome, done, or_fault}
use sedutil.Lexicon.Status.{error_code, command_error, invalid_command}
use sedutil.Device.{DeviceClass, opal2, DtaDev, M, pure, lift, ◌>>=◌, >>=-eq-done}
use sedutil.Discovery.Requests.{is_any_ssc}
use sedutil.Options.{DtaOptions, parsed}
use sedutil.Options.Table.{dta_options}
use sedutil.Main.{
  choose_class, dispatch, with_class, with_device, Task, scanning, checking, validating, with_disk,
  task_of, run_task, run_options, main,
}
use sedutil.Main.Virtual.{Methods, methods_of}
use sedutil.Main.Closing.{methods_of-Closing}
use sedutil.Main.Ends.{reverts, perform-Closes}
use sedutil.Main.Open.{Machine, new_device, init_os}
use sedutil.Main.Scan.{disk_scan}
use sedutil.Main.Settled.{
  Course, and_then, Settles, Closes-Settles, >>=-Settles, if-Settles, modify-Settles, gets-Settles,
  lift-Settles, pure-Settles, init_os-Settles, construct-Settles,
}

module _ (machine : Machine) (name : List ℕ) (no_hash : Bool) (use_device : Methods → M ℕ)
    (h : (class : DeviceClass)
      → Settles
          (machine.platform name)
          (use_device (methods_of (machine.platform name) class))) where
  with_class-Settles :
      (class : Option DeviceClass)
      → Settles (machine.platform name) (with_class machine name class no_hash use_device)
  unfolding with_class
  with_class-Settles none = pure-Settles (error_code invalid_command)
  with_class-Settles (some class) =
      >>=-Settles _ _ (modify-Settles (λ d. new_device class d.requests) (λ d. refl)) λ u.
        >>=-Settles _ _ (construct-Settles machine name class) λ v.
          >>=-Settles _ _
            (modify-Settles (λ d. record d { no_hash_passwords = no_hash }) (λ d. refl))
            λ w. h class

  with_device-Settles :
      Settles (machine.platform name) (with_device machine name no_hash use_device)
  unfolding with_device
  with_device-Settles = >>=-Settles _ _ (init_os-Settles machine name) λ present.
      >>=-Settles _ _ (gets-Settles (λ d. d.disk_info)) λ info.
        if-Settles (not present || (is_any_ssc info == 0)) (pure-Settles (error_code command_error))
          (with_class-Settles (choose_class info))

-- What the drive of some name was sent, from the start of the program on.
abbrev pub Settled : Machine → DtaDev → Type 0
Settled machine d = (name : List ℕ) × Course (machine.platform name) (new_device opal2 []) d

unsent :
    (machine : Machine) {rc rc' : ℕ} {d' : DtaDev}
    → pure rc (new_device opal2 []) ≡ done (rc', d')
    → Settled machine d'
unsent machine {rc} {rc'} {d'} e = ([], pure-Settles rc (new_device opal2 []) rc' d' e)

-- A call that is given the name of a drive.
named :
    (machine : Machine) (o : Outcome (List ℕ)) (k : List ℕ → M ℕ) {rc : ℕ} {d' : DtaDev}
    → ((name : List ℕ) → Settles (machine.platform name) (k name))
    → (lift o >>= k) (new_device opal2 []) ≡ done (rc, d')
    → Settled machine d'
named machine o k {rc} {d'} h ran =
    let (name, d1, got, rest) = >>=-eq-done (lift o) k (new_device opal2 []) ran in
    let course =
      and_then (lift-Settles o (new_device opal2 []) name d1 got) (h name d1 rc d' rest) in
    (name, course)

module _ (machine : Machine) (argv : List (List ℕ)) (opts : DtaOptions)
    (other : reverts opts.action ≡ false) where
  run_task-Settled :
      (t : Task) (rc : ℕ) (d' : DtaDev)
      → run_task machine argv opts t ≡ done (rc, d')
      → Settled machine d'
  run_task-Settled scanning rc d' ran =
      let (code, scanned, e) = Outcome.>>=-eq-done (disk_scan machine) _ ran in unsent machine e
  run_task-Settled checking rc d' ran =
      named machine _ (λ name. init_os machine name >>= λ b. pure 0)
        (λ name. >>=-Settles _ _ (init_os-Settles machine name) (λ b. pure-Settles 0)) ran
  run_task-Settled validating rc d' ran = unsent machine ran
  run_task-Settled with_disk rc d' ran =
      named machine _
        (λ name. with_device machine name opts.no_hash_passwords (dispatch machine.file argv opts))
        (λ name.
          with_device-Settles machine name opts.no_hash_passwords (dispatch machine.file argv opts)
            λ class. Closes-Settles (
              perform-Closes machine.file argv opts (machine.platform name)
                (methods_of (machine.platform name) class)
                (methods_of-Closing (machine.platform name) class) opts.action other))
        ran

  -- A run of the program with any arguments whose action is no revert, if it returns, has sent the
  -- drive that it opened nothing but exchanges of properties, which have no session, and a chain of
  -- sessions, and each of the chain is ended: it has the two numbers of 32 bits that the reply to
  -- its StartSession call gives it, where the call went well, and the end of the session with these
  -- numbers is the last command before the next one of the chain starts. Nothing is said of what is
  -- sent within a session, and a session that is dropped before its start is ended under the
  -- numbers 0. So it is whatever the drive answers.
  pub main-Settled :
      (rc : ℕ) (d' : DtaDev)
      → dta_options argv ≡ done (parsed opts)
      → main machine argv ≡ done (rc, d')
      → Settled machine d'
  unfolding main run_options
  main-Settled rc d' options_read ran =
      run_task-Settled (task_of opts.action) rc d' (rw options_read at ran)
