-- ===== src/Opal/Calls.antt =====
-- The commands of Common/DtaDevOpal.cpp, one by one, and the sessions that they leave.
use sedutil.Prelude.{
  ℕ, ◌≡◌, refl, Bool, true, false, List, [], Option, none, some, ◌==◌, ltb, ◌+◌, ◌++◌, ◌||◌, ◌&&◌,
  not, codes,
}
use sedutil.Lexicon.Token.{OpalToken}
use sedutil.Lexicon.Uid.{OpalUid}
use sedutil.Device.{Platform, DtaDev}
use sedutil.Response.{get_string}
use sedutil.Outcome.{done}
use sedutil.Opal.Closes.{
  Closes, ends_with_packet, pure-Closes, gets-Closes, lift-Closes, >>=-Closes, if-Closes,
  >>?-Closes, with_session-Closes,
}
use sedutil.Opal.Ranges.{
  LrQuery, failed, found, get_locking_range_status, list_locking_ranges, rekey_locking_range,
  rekey_locking_range_sum, setup_locking_range, setup_locking_range_sum, configure_locking_range,
  set_locking_range, set_locking_range_sum, lock_range, lock_range_sum, erase_locking_range_sum,
  lock_values, print_locking_range_status,
}
use sedutil.Opal.Provider.{
  set_locking_sp_value, set_mbr_done, set_mbr_enable, activate_locking_sp, activate_locking_sp_sum,
  get_default_password, set_sid_password, take_ownership, print_default_password,
}
use sedutil.Session.Course.{Sessions, unstarted}
use sedutil.Raw.Closes.{obj_dump-Closes, raw_cmd-Closes}
use sedutil.Opal.Commands.{Command, run}
use sedutil.Opal.Users.{
  to_string, set_password, set_new_password_sum, set_pin_as, sum_authority, enable_user,
}
use sedutil.Session.{new_session}
use sedutil.Opal.Setup.{
  correct_found, correct_range, sum_steps, first_setup, initial_setup, setup_sum, load_pba,
}

module _ (p : Platform) where
  pub get_default_password-Closes : Closes p (get_default_password p)
  unfolding get_default_password
  get_default_password-Closes = with_session-Closes p _ _ _ _ _ _ refl

  set_sid_password-Closes :
      (old new : List ℕ) (hasholdpwd hashnewpwd : Bool)
      → Closes p (set_sid_password p old new hasholdpwd hashnewpwd)
  unfolding set_sid_password sedutil.Session.dont_hash_pwd
  set_sid_password-Closes old new true hashnewpwd = with_session-Closes p _ _ _ _ _ _ refl
  set_sid_password-Closes old new false hashnewpwd = with_session-Closes p _ _ _ _ _ _ refl

  take_ownership-Closes : (new : List ℕ) → Closes p (take_ownership p new)
  unfolding take_ownership
  take_ownership-Closes new = >>?-Closes _ _ get_default_password-Closes (
      >>=-Closes _ _ (λ d a d' h. lift-Closes (get_string d.response 4) d a d' h)
        (λ msid. set_sid_password-Closes _ new false true))

  set_locking_sp_value-Closes :
      (u : OpalUid) (name v : OpalToken) (pw : List ℕ)
      → Closes p (set_locking_sp_value p u name v pw)
  unfolding set_locking_sp_value
  set_locking_sp_value-Closes u name v pw = with_session-Closes p _ _ _ _ _ _ refl

  set_mbr_done-Closes : (n : ℕ) (pw : List ℕ) → Closes p (set_mbr_done p n pw)
  unfolding set_mbr_done
  set_mbr_done-Closes n pw = set_locking_sp_value-Closes _ _ _ pw

  set_mbr_enable-Closes : (n : ℕ) (pw : List ℕ) → Closes p (set_mbr_enable p n pw)
  unfolding set_mbr_enable
  set_mbr_enable-Closes n pw =
      >>?-Closes _ _ (set_mbr_done-Closes 1 pw) (set_locking_sp_value-Closes _ _ _ pw)

  activate_locking_sp-Closes : (pw : List ℕ) → Closes p (activate_locking_sp p pw)
  unfolding activate_locking_sp
  activate_locking_sp-Closes pw = with_session-Closes p _ _ _ _ _ _ refl

  activate_locking_sp_sum-Closes : (n : ℕ) (pw : List ℕ) → Closes p (activate_locking_sp_sum p n pw)
  unfolding activate_locking_sp_sum
  activate_locking_sp_sum-Closes n pw = with_session-Closes p _ _ _ _ _ _ refl

  pub get_locking_range_status-Closes :
      (n : ℕ) (pw : List ℕ) → Closes p (get_locking_range_status p n pw)
  unfolding get_locking_range_status
  get_locking_range_status-Closes n pw = with_session-Closes p _ _ _ _ _ _ refl

  list_locking_ranges-Closes : (pw : List ℕ) → Closes p (list_locking_ranges p pw)
  unfolding list_locking_ranges
  list_locking_ranges-Closes pw = with_session-Closes p _ _ _ _ _ _ refl

  rekey_locking_range-Closes : (n : ℕ) (pw : List ℕ) → Closes p (rekey_locking_range p n pw)
  unfolding rekey_locking_range
  rekey_locking_range-Closes n pw = with_session-Closes p _ _ _ _ _ _ refl

  rekey_locking_range_sum-Closes :
      (lr uid pw : List ℕ) → Closes p (rekey_locking_range_sum p lr uid pw)
  unfolding rekey_locking_range_sum
  rekey_locking_range_sum-Closes lr uid pw = with_session-Closes p _ _ _ _ _ _ refl

  setup_locking_range-Closes :
      (n start len : ℕ) (pw : List ℕ) → Closes p (setup_locking_range p n start len pw)
  unfolding setup_locking_range
  setup_locking_range-Closes n start len pw =
      if-Closes (ltb n 1) _ _ (pure-Closes _)
        (>>?-Closes _ _ (with_session-Closes p _ _ _ _ _ _ refl) (rekey_locking_range-Closes n pw))

  setup_locking_range_sum-Closes :
      (n start len : ℕ) (pw : List ℕ) → Closes p (setup_locking_range_sum p n start len pw)
  unfolding setup_locking_range_sum
  setup_locking_range_sum-Closes n start len pw = if-Closes (ltb n 1) _ _ (pure-Closes _) (
      >>?-Closes _ _ (with_session-Closes p _ _ _ _ _ _ refl)
        (rekey_locking_range_sum-Closes _ _ pw))

  configure_locking_range-Closes :
      (n enabled : ℕ) (pw : List ℕ) → Closes p (configure_locking_range p n enabled pw)
  unfolding configure_locking_range
  configure_locking_range-Closes n enabled pw = with_session-Closes p _ _ _ _ _ _ refl

  lock_range-Closes :
      (n : ℕ) (pw : List ℕ) (v : Option (OpalToken × OpalToken × Bool))
      → Closes p (lock_range p n pw v)
  unfolding lock_range
  lock_range-Closes n pw none = pure-Closes _
  lock_range-Closes n pw (some v) = with_session-Closes p _ _ _ _ _ _ refl

  lock_range_sum-Closes :
      (n : ℕ) (pw : List ℕ) (v : Option (OpalToken × OpalToken × Bool))
      → Closes p (lock_range_sum p n pw v)
  unfolding lock_range_sum
  lock_range_sum-Closes n pw none = pure-Closes _
  lock_range_sum-Closes n pw (some (r, w, true)) = pure-Closes _
  lock_range_sum-Closes n pw (some (r, w, false)) = with_session-Closes p _ _ _ _ _ _ refl

  set_locking_range-Closes : (n state : ℕ) (pw : List ℕ) → Closes p (set_locking_range p n state pw)
  unfolding set_locking_range
  set_locking_range-Closes n state pw = lock_range-Closes n pw (lock_values state)

  set_locking_range_sum-Closes :
      (n state : ℕ) (pw : List ℕ) → Closes p (set_locking_range_sum p n state pw)
  unfolding set_locking_range_sum
  set_locking_range_sum-Closes n state pw = lock_range_sum-Closes n pw (lock_values state)

  erase_locking_range_sum-Closes : (n : ℕ) (pw : List ℕ) → Closes p (erase_locking_range_sum p n pw)
  unfolding erase_locking_range_sum
  erase_locking_range_sum-Closes n pw = with_session-Closes p _ _ _ _ _ _ refl

  set_password-Closes : (pw user new : List ℕ) → Closes p (set_password p pw user new)
  unfolding set_password
  set_password-Closes pw user new = with_session-Closes p _ _ _ _ _ _ refl

  set_pin_as-Closes :
      (pw user new : List ℕ) (auth : Option (List ℕ)) → Closes p (set_pin_as p pw user new auth)
  unfolding set_pin_as
  set_pin_as-Closes pw user new none =
      >>=-Closes _ _ (λ d a d' h. unstarted h (ends_with_packet p new_session d d' refl h))
        (λ a. pure-Closes _)
  set_pin_as-Closes pw user new (some auth) = with_session-Closes p _ _ _ _ _ _ refl

  set_new_password_sum-Closes :
      (pw user new : List ℕ) → Closes p (set_new_password_sum p pw user new)
  unfolding set_new_password_sum
  set_new_password_sum-Closes pw user new = set_pin_as-Closes pw user new (sum_authority user)

  enable_user-Closes :
      (pw user : List ℕ) (status : OpalToken) → Closes p (enable_user p pw user status)
  unfolding enable_user
  enable_user-Closes pw user status = with_session-Closes p _ _ _ _ _ _ refl

  load_pba-Closes : (pw : List ℕ) (file : Option (List ℕ)) → Closes p (load_pba p pw file)
  unfolding load_pba
  load_pba-Closes pw none = pure-Closes _
  load_pba-Closes pw (some file) = λ d a d' h. with_session-Closes p _ _ _ _ _ _ refl d a d' h

  initial_setup-Closes : (pw : List ℕ) → Closes p (initial_setup p pw)
  unfolding initial_setup
  initial_setup-Closes pw = >>?-Closes _ _ (take_ownership-Closes pw) (
      >>?-Closes _ _ (activate_locking_sp-Closes pw) (
        >>?-Closes _ _ (configure_locking_range-Closes 0 0 pw) (
          >>?-Closes _ _ (set_locking_range-Closes 0 1 pw)
            (>>?-Closes _ _ (set_mbr_done-Closes 1 pw) (set_mbr_enable-Closes 1 pw)))))

  correct_found-Closes : (n start len : ℕ) (q : LrQuery) → Closes p (correct_found p n start len q)
  unfolding correct_found
  correct_found-Closes n start len (failed rc) = pure-Closes rc
  correct_found-Closes n start len (found lr) =
      if-Closes _ _ _ (setup_locking_range_sum-Closes n start len []) (pure-Closes 0)

  correct_range-Closes : (n start len : ℕ) (pw : List ℕ) → Closes p (correct_range p n start len pw)
  unfolding correct_range
  correct_range-Closes n start len pw =
      >>=-Closes _ _ (get_locking_range_status-Closes n pw)
        (λ q. correct_found-Closes n start len q)

  first_setup-Closes :
      (n start len : ℕ) (admin : List ℕ) → Closes p (first_setup p n start len admin)
  first_setup-Closes n start len admin = >>?-Closes _ _ (take_ownership-Closes admin) (
      >>?-Closes _ _ (activate_locking_sp_sum-Closes n admin)
        (setup_locking_range_sum-Closes n start len []))

  -- The steps behind the two tests of `setup_sum`.
  sum_steps-Closes :
      (enabled n start len : ℕ) (admin pw : List ℕ)
      → Closes p (sum_steps p enabled n start len admin pw)
  unfolding sum_steps
  sum_steps-Closes enabled n start len admin pw =
      >>?-Closes _ _
        (if-Closes (enabled == 0) _ _ (first_setup-Closes n start len admin) (pure-Closes 0))
        (>>?-Closes _ _ (erase_locking_range_sum-Closes n admin) (
          >>?-Closes _ _ (correct_range-Closes n start len admin) (
            >>?-Closes _ _ (set_locking_range_sum-Closes n 1 [])
              (set_new_password_sum-Closes [] (codes "User" ++ to_string (n + 1)) pw))))

  setup_sum-Closes :
      (n start len : ℕ) (admin pw : List ℕ) → Closes p (setup_sum p n start len admin pw)
  unfolding setup_sum
  setup_sum-Closes n start len admin pw d a d' h =
      let info = d.disk_info in
      if-Closes ((info.locking == 0) || (info.single_user == 0)) _ _ (pure-Closes _)
        (if-Closes
          (not (info.locking_info.locking_enabled == 0) && (info.single_user_info.any == 0)) _ _
          (pure-Closes _) (sum_steps-Closes info.locking_info.locking_enabled n start len admin pw))
        d a d' h

  print_locking_range_status-Closes :
      (n : ℕ) (pw : List ℕ) → Closes p (print_locking_range_status p n pw)
  unfolding print_locking_range_status
  print_locking_range_status-Closes n pw =
      >>=-Closes _ _ (get_locking_range_status-Closes n pw) (λ q. pure-Closes _)

  print_default_password-Closes : Closes p (print_default_password p)
  unfolding print_default_password
  print_default_password-Closes =
      >>?-Closes _ _ get_default_password-Closes (
        >>=-Closes _ _ (>>=-Closes _ _ (gets-Closes _) (λ o. lift-Closes o))
          (λ msid. pure-Closes 0))

  pub run_lem : (c : Command) → Closes p (run p c)
  unfolding run
  run_lem (Command.initial_setup pw) = initial_setup-Closes pw
  run_lem (Command.setup_sum n start len admin pw) = setup_sum-Closes n start len admin pw
  run_lem (Command.list_locking_ranges pw) = list_locking_ranges-Closes pw
  run_lem (Command.setup_locking_range n start len pw) = setup_locking_range-Closes n start len pw
  run_lem (Command.setup_locking_range_sum n start len pw) =
      setup_locking_range_sum-Closes n start len pw
  run_lem (Command.configure_locking_range n enabled pw) =
      configure_locking_range-Closes n enabled pw
  run_lem (Command.rekey_locking_range n pw) = rekey_locking_range-Closes n pw
  run_lem (Command.set_locking_range n state pw) = set_locking_range-Closes n state pw
  run_lem (Command.set_locking_range_sum n state pw) = set_locking_range_sum-Closes n state pw
  run_lem (Command.erase_locking_range_sum n pw) = erase_locking_range_sum-Closes n pw
  run_lem (Command.set_password pw user new) = set_password-Closes pw user new
  run_lem (Command.set_new_password_sum pw user new) = set_new_password_sum-Closes pw user new
  run_lem (Command.enable_user pw user status) = enable_user-Closes pw user status
  run_lem (Command.set_mbr_done state pw) = set_mbr_done-Closes state pw
  run_lem (Command.set_mbr_enable state pw) = set_mbr_enable-Closes state pw
  run_lem (Command.set_sid_password old new hashold hashnew) =
      set_sid_password-Closes old new hashold hashnew
  run_lem (Command.take_ownership new) = take_ownership-Closes new
  run_lem (Command.activate_locking_sp pw) = activate_locking_sp-Closes pw
  run_lem (Command.activate_locking_sp_sum n pw) = activate_locking_sp_sum-Closes n pw
  run_lem (Command.load_pba pw file) = load_pba-Closes pw file
  run_lem (Command.print_locking_range_status n pw) = print_locking_range_status-Closes n pw
  run_lem Command.print_default_password = print_default_password-Closes
  run_lem (Command.set_bands_enabled range pw) = pure-Closes _
  run_lem (Command.erase_locking_range n pw) = pure-Closes _
  run_lem (Command.rekey_locking_range_sum lr uid pw) = rekey_locking_range_sum-Closes lr uid pw
  run_lem (Command.obj_dump sp auth pw obj) = obj_dump-Closes p sp auth pw obj
  run_lem (Command.raw_cmd sp auth pw inv method parms) =
      raw_cmd-Closes p sp auth pw inv method parms

  -- Every command of an Opal drive that returns, but for the two reverts and the exchange of
  -- properties, sends nothing but a chain of sessions, and each of the chain is ended: it has the
  -- two numbers of 32 bits that the reply to its StartSession call gives it, where the call went
  -- well, and the end of the session with these numbers is the last command before the next one of
  -- the chain starts. Nothing is said of what is sent within a session, and a session that is
  -- dropped before its start is ended under the numbers 0. So it is with every error on the way,
  -- and in the setups that chain the commands.
  pub run-Closes :
      (c : Command) (d : DtaDev) (rc : ℕ) (d' : DtaDev)
      → run p c d ≡ done (rc, d')
      → Sessions p d d'
  run-Closes c = run_lem c
