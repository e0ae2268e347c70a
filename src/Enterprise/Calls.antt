-- ===== src/Enterprise/Calls.antt =====
-- The commands of Common/DtaDevEnterprise.cpp on users, all commands together, and the sessions that
-- they leave.
use sedutil.Prelude.{
  ℕ, zero, suc, ◌+◌, ◌-◌, ◌≡◌, if◌then◌else◌, refl, Bool, true, false, List, [], ◌∷◌, Option, none,
  some, ◌||◌, ◌&&◌, not, ltb, ◌⊎◌,
}
use sedutil.Outcome.{done}
use sedutil.Device.{Platform, DtaDev, M}
use sedutil.Device.Exec.{last_sent}
use sedutil.Opal.Closes.{
  Closes, pure-Closes, >>=-Closes, if-Closes, >>?-Closes, with_session-Closes,
}
use sedutil.Lexicon.Uid.{enterprise_bandmaster0_uid}
use sedutil.Session.{dont_hash_pwd, uid_vec}
use sedutil.Raw
use sedutil.Raw.{not_uid}
use sedutil.Raw.Closes.{dump_in-Closes, raw_cmd-Closes}
use sedutil.Session.Course.{EndsSession, Sessions-last}
use sedutil.Enterprise.{MaxRanges, refused, supported}
use sedutil.Enterprise.Bands.{not_empty}
use sedutil.Enterprise.Users
use sedutil.Enterprise.Users.{default_for, enable_between}
use sedutil.Enterprise.Commands.{Command, run}
use sedutil.Enterprise.Closes.{
  read-Closes, as_master-Closes, get_max_ranges-Closes, get_default_password-Closes, fetched-Closes,
  built-Closes, configure_locking_range-Closes, rekey_locking_range-Closes,
  setup_locking_range-Closes, set_locking_range-Closes, erase_locking_range-Closes,
  list_locking_ranges-Closes,
}

module _ (p : Platform) where
  default_for-Closes :
      (pw new : List ℕ) (k : List ℕ → M ℕ)
      → ((default : List ℕ) → Closes p (k default))
      → Closes p (default_for p pw new k)
  default_for-Closes pw new k h =
      if-Closes (not_empty p pw && not_empty p new) _ _ (h []) (fetched-Closes p _ (λ default. h _))

  change_pin-Closes :
      (pw new : List ℕ) (user : Option (List ℕ)) → Closes p (Users.change_pin p pw new user)
  unfolding Users.change_pin
  change_pin-Closes pw new none = pure-Closes _
  change_pin-Closes pw new (some user) = default_for-Closes pw new _ (λ default.
      as_master-Closes p (not (not_empty p pw)) (if not_empty p pw then pw else default) user
        (Users.set_pin p user new default))

  enable_bands-Closes :
      (n i : ℕ) (plain : Bool) (pwd object : List ℕ)
      → Closes p (Users.enable_bands p n i plain pwd object)
  unfolding Users.enable_bands
  enable_bands-Closes zero i plain pwd object = pure-Closes _
  enable_bands-Closes (suc n) i plain pwd object =
      >>?-Closes _ _ (built-Closes p _ _ _ _ _) (enable_bands-Closes n (i + 1) plain pwd _)

  enable_between-Closes : (lo hi : ℕ) (pw : List ℕ) → Closes p (enable_between p lo hi pw)
  enable_between-Closes lo hi pw = default_for-Closes pw pw _ (λ default.
      enable_bands-Closes (hi + 1 - lo) lo (not (not_empty p pw))
        (if not_empty p pw then pw else default) (uid_vec enterprise_bandmaster0_uid))

  enable_range-Closes :
      (range : Option ℕ) (pw : List ℕ) (q : MaxRanges) → Closes p (Users.enable_range p range pw q)
  unfolding Users.enable_range
  enable_range-Closes range pw (refused rc) = pure-Closes _
  enable_range-Closes none pw (supported n) =
      if-Closes (ltb n 1024) _ _ (enable_between-Closes 0 n pw) (pure-Closes _)
  enable_range-Closes (some band) pw (supported n) =
      if-Closes (ltb n 1024) _ _
        (if-Closes (ltb n band) _ _ (pure-Closes _) (enable_between-Closes band band pw))
        (pure-Closes _)

  set_bands_enabled-Closes :
      (range : Option ℕ) (pw : List ℕ) → Closes p (Users.set_bands_enabled p range pw)
  unfolding Users.set_bands_enabled
  set_bands_enabled-Closes range pw =
      >>=-Closes _ _ (get_max_ranges-Closes p) (λ q. enable_range-Closes range pw q)

  init_masters-Closes :
      (n i : ℕ) (default new user : List ℕ) → Closes p (Users.init_masters p n i default new user)
  unfolding Users.init_masters
  init_masters-Closes zero i default new user = pure-Closes _
  init_masters-Closes (suc n) i default new user =
      >>=-Closes _ _ (as_master-Closes p true _ _ _)
        (λ rc. if-Closes _ _ _ (pure-Closes _) (init_masters-Closes n (i + 1) default new _))

  init_bands-Closes :
      (default new : List ℕ) (q : MaxRanges) → Closes p (Users.init_bands p default new q)
  unfolding Users.init_bands
  init_bands-Closes default new (refused rc) = pure-Closes _
  init_bands-Closes default new (supported n) =
      if-Closes _ _ _ (pure-Closes _) (init_masters-Closes _ _ _ _ _)

  init_lsp_users-Closes : (default new : List ℕ) → Closes p (Users.init_lsp_users p default new)
  unfolding Users.init_lsp_users
  init_lsp_users-Closes default new =
      >>?-Closes _ _ (as_master-Closes p true _ _ _)
        (>>=-Closes _ _ (get_max_ranges-Closes p) (λ q. init_bands-Closes default new q))

  set_sid_password-Closes :
      (old new : List ℕ) (hashold hashnew : Bool)
      → Closes p (Users.set_sid_password p old new hashold hashnew)
  unfolding Users.set_sid_password dont_hash_pwd
  set_sid_password-Closes [] new hashold hashnew =
      fetched-Closes p _ (λ default. with_session-Closes p _ _ _ _ _ _ refl)
  set_sid_password-Closes (c ∷ old) new true hashnew = with_session-Closes p _ _ _ _ _ _ refl
  set_sid_password-Closes (c ∷ old) new false hashnew = with_session-Closes p _ _ _ _ _ _ refl

  take_ownership-Closes : (new : List ℕ) → Closes p (Users.take_ownership p new)
  unfolding Users.take_ownership
  take_ownership-Closes new =
      fetched-Closes p _
        (λ default. >>?-Closes _ _ (set_sid_password-Closes _ _ _ _) (init_lsp_users-Closes _ _))

  initial_setup-Closes : (pw : List ℕ) → Closes p (Users.initial_setup p pw)
  unfolding Users.initial_setup
  initial_setup-Closes pw =
      >>?-Closes _ _ (take_ownership-Closes pw) (
        >>?-Closes _ _ (set_locking_range-Closes p _ _ pw)
          (configure_locking_range-Closes p _ _ pw))

  print_default_password-Closes : Closes p (Users.print_default_password p)
  unfolding Users.print_default_password
  print_default_password-Closes =
      >>?-Closes _ _ (get_default_password-Closes p)
        (>>=-Closes _ _ (read-Closes _) (λ msid. pure-Closes _))

  enterprise_obj_dump-Closes :
      (sp auth pass obj : List ℕ) → Closes p (Raw.enterprise_obj_dump p sp auth pass obj)
  unfolding Raw.enterprise_obj_dump
  enterprise_obj_dump-Closes sp auth pass obj =
      if-Closes (not_uid auth || not_uid obj) _ _ (pure-Closes _)
        (dump_in-Closes p _ sp auth pass _)

  pub run_lem : (c : Command) → Closes p (run p c)
  unfolding run Users.set_password
  run_lem (Command.initial_setup pw) = initial_setup-Closes pw
  run_lem (Command.take_ownership pw) = take_ownership-Closes pw
  run_lem (Command.configure_locking_range n enabled pw) =
      configure_locking_range-Closes p n enabled pw
  run_lem (Command.set_locking_range n state pw) = set_locking_range-Closes p n state pw
  run_lem (Command.setup_locking_range n start len pw) = setup_locking_range-Closes p n start len pw
  run_lem (Command.rekey_locking_range n pw) = rekey_locking_range-Closes p n pw
  run_lem (Command.erase_locking_range n pw) = erase_locking_range-Closes p n pw
  run_lem (Command.list_locking_ranges range pw) = list_locking_ranges-Closes p pw range
  run_lem (Command.set_bands_enabled range pw) = set_bands_enabled-Closes range pw
  run_lem (Command.set_password pw user new) = change_pin-Closes pw new _
  run_lem (Command.set_sid_password old new hashold hashnew) =
      set_sid_password-Closes old new hashold hashnew
  run_lem Command.print_default_password = print_default_password-Closes
  run_lem (Command.obj_dump sp auth pw obj) = enterprise_obj_dump-Closes sp auth pw obj
  run_lem (Command.raw_cmd sp auth pw inv method parms) =
      raw_cmd-Closes p sp auth pw inv method parms

  -- Every command of an Enterprise drive that returns, but for the two reverts and the exchange of
  -- properties, closes its sessions: the last command that the drive was sent is the end of a session,
  -- unless none was sent at all. So it is with every error on the way, in the loops over the bands, and
  -- in the setup that chains the commands.
  pub run-Closes_enterprise :
      (c : Command) (d : DtaDev) (rc : ℕ) (d' : DtaDev)
      → run p c d ≡ done (rc, d')
      → (last_sent d'.requests ≡ last_sent d.requests) ⊎ EndsSession (last_sent d'.requests)
  run-Closes_enterprise c d rc d' ran = Sessions-last (run_lem c d rc d' ran)
