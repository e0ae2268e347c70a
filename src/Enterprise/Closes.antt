-- ===== src/Enterprise/Closes.antt =====
-- The commands of Common/DtaDevEnterprise.cpp, one by one, and the sessions that they leave.
use sedutil.Prelude.{
  ℕ, zero, suc, ◌+◌, refl, Bool, true, false, List, [], ◌∷◌, Option, none, some, ltb,
}
use sedutil.Outcome.{Outcome}
use sedutil.Lexicon.Uid.{OpalUid, opal_locking_info_table, enterprise_locking_info_table}
use sedutil.Lexicon.Token.{OpalToken}
use sedutil.Command.{DtaCommand}
use sedutil.Device.{Platform, DtaDev, M, pure, gets, lift, ◌>>=◌}
use sedutil.Opal.Closes.{
  Closes, pure-Closes, gets-Closes, lift-Closes, >>=-Closes, if-Closes, >>?-Closes,
  with_session-Closes,
}
use sedutil.Session.{dont_hash_pwd, DtaSession}
use sedutil.Enterprise.{
  MaxRanges, refused, supported, Query, unstarted, answered, unanswered, query_max_ranges,
  after_query, read_max_ranges, get_max_ranges_opal, get_max_ranges, with_max_ranges, in_bounds,
  get_default_password, default_password,
}
use sedutil.Enterprise.Bands
use sedutil.Enterprise.Bands.{as_master, with_default, Listed}

-- A value that is read of the device and may fail to be one.
pub read-Closes {ℓ} :
    {p : Platform} {A : Type ℓ} (f : DtaDev → Outcome A) → Closes p (gets f >>= lift)
read-Closes f = >>=-Closes (gets f) lift (gets-Closes f) lift-Closes

module _ (p : Platform) where
  pub as_master-Closes :
      (plain : Bool) (pw user : List ℕ) (body : DtaSession → M ℕ)
      → Closes p (as_master p plain pw user body)
  unfolding dont_hash_pwd
  as_master-Closes true pw user body = with_session-Closes p _ _ _ _ _ _ refl
  as_master-Closes false pw user body = with_session-Closes p _ _ _ _ _ _ refl

  read_max_ranges-Closes : Closes p (read_max_ranges p)
  read_max_ranges-Closes = >>=-Closes _ _ (read-Closes _) (λ n. pure-Closes _)

  query_max_ranges-Closes : (table : OpalUid) → Closes p (query_max_ranges p table)
  unfolding query_max_ranges
  query_max_ranges-Closes table = with_session-Closes p _ _ _ _ _ _ refl

  after_query-Closes :
      (again : ℕ → M MaxRanges) (q : Query)
      → ((rc : ℕ) → Closes p (again rc))
      → Closes p (after_query p again q)
  unfolding after_query
  after_query-Closes again (unstarted rc) h = pure-Closes _
  after_query-Closes again answered h = read_max_ranges-Closes
  after_query-Closes again (unanswered rc) h = h rc

  get_max_ranges_opal-Closes : Closes p (get_max_ranges_opal p)
  unfolding get_max_ranges_opal
  get_max_ranges_opal-Closes =
      >>=-Closes _ _ (query_max_ranges-Closes opal_locking_info_table)
        (λ q. after_query-Closes (λ rc. pure (refused rc)) q (λ rc. pure-Closes (refused rc)))

  pub get_max_ranges-Closes : Closes p (get_max_ranges p)
  unfolding get_max_ranges
  get_max_ranges-Closes =
      >>=-Closes _ _ (query_max_ranges-Closes enterprise_locking_info_table)
        (λ q. after_query-Closes (λ rc. get_max_ranges_opal p) q (λ rc. get_max_ranges_opal-Closes))

  with_max_ranges-Closes :
      (n : ℕ) (q : MaxRanges) (k : M ℕ) → Closes p k → Closes p (with_max_ranges p n q k)
  unfolding with_max_ranges
  with_max_ranges-Closes n (refused rc) k h = pure-Closes _
  with_max_ranges-Closes n (supported max) k h =
      if-Closes _ _ _ (pure-Closes _) (if-Closes (ltb max n) _ _ (pure-Closes _) h)

  in_bounds-Closes : (n : ℕ) (k : M ℕ) → Closes p k → Closes p (in_bounds p n k)
  in_bounds-Closes n k h =
      >>=-Closes _ _ get_max_ranges-Closes (λ q. with_max_ranges-Closes n q k h)

  pub get_default_password-Closes : Closes p (get_default_password p)
  unfolding get_default_password
  get_default_password-Closes = with_session-Closes p _ _ _ _ _ _ refl

  -- The default password is fetched and read, and then used.
  pub fetched-Closes :
      (k : List ℕ → M ℕ)
      → ((default : List ℕ) → Closes p (k default))
      → Closes p (sedutil.Opal.◌>>?◌ (get_default_password p) (default_password >>= k))
  fetched-Closes k h =
      >>?-Closes _ _ get_default_password-Closes (>>=-Closes default_password k (read-Closes _) h)

  with_default-Closes :
      (pw : List ℕ) (k : List ℕ → List ℕ → M ℕ)
      → ((default pwd : List ℕ) → Closes p (k default pwd))
      → Closes p (with_default p pw k)
  with_default-Closes [] k h = fetched-Closes _ (λ default. h _ _)
  with_default-Closes (c ∷ pw) k h = h _ _

  -- A command that is built before its session.
  pub built-Closes :
      (made : Outcome DtaCommand) (plain : Bool) (pw user : List ℕ)
      (body : DtaCommand → DtaSession → M ℕ)
      → Closes p (lift made >>= λ cmd. as_master p plain pw user (body cmd))
  built-Closes made plain pw user body =
      >>=-Closes _ _ (lift-Closes made) (λ cmd. as_master-Closes plain pw user (body cmd))

  pub configure_locking_range-Closes :
      (n enabled : ℕ) (pw : List ℕ) → Closes p (Bands.configure_locking_range p n enabled pw)
  unfolding Bands.configure_locking_range
  configure_locking_range-Closes n enabled pw = as_master-Closes false _ _ _

  pub rekey_locking_range-Closes :
      (n : ℕ) (pw : List ℕ) → Closes p (Bands.rekey_locking_range p n pw)
  unfolding Bands.rekey_locking_range
  rekey_locking_range-Closes n pw = as_master-Closes false _ _ _

  pub setup_locking_range-Closes :
      (n start len : ℕ) (pw : List ℕ) → Closes p (Bands.setup_locking_range p n start len pw)
  unfolding Bands.setup_locking_range
  setup_locking_range-Closes n start len pw = in_bounds-Closes n _ (built-Closes _ false _ _ _)

  lock_band-Closes :
      (n : ℕ) (pw : List ℕ) (v : Option OpalToken) → Closes p (Bands.lock_band p n pw v)
  unfolding Bands.lock_band
  lock_band-Closes n pw none = pure-Closes _
  lock_band-Closes n pw (some token) = in_bounds-Closes n _ (built-Closes _ false _ _ _)

  pub set_locking_range-Closes :
      (n state : ℕ) (pw : List ℕ) → Closes p (Bands.set_locking_range p n state pw)
  unfolding Bands.set_locking_range
  set_locking_range-Closes n state pw = lock_band-Closes n pw _

  pub erase_locking_range-Closes :
      (n : ℕ) (pw : List ℕ) → Closes p (Bands.erase_locking_range p n pw)
  unfolding Bands.erase_locking_range
  erase_locking_range-Closes n pw =
      with_default-Closes pw _ (λ default pwd. in_bounds-Closes n _ (built-Closes _ _ _ _ _))

  list_band-Closes :
      (plain : Bool) (pwd user table : List ℕ) → Closes p (Bands.list_band p plain pwd user table)
  unfolding Bands.list_band dont_hash_pwd
  list_band-Closes true pwd user table = with_session-Closes p _ _ _ _ _ _ refl
  list_band-Closes false pwd user table = with_session-Closes p _ _ _ _ _ _ refl

  list_bands-Closes :
      (n i : ℕ) (plain : Bool) (pwd user table : List ℕ) (notes : ℕ × Bool)
      → Closes p (Bands.list_bands p n i plain pwd user table notes)
  unfolding Bands.list_bands
  list_bands-Closes zero i plain pwd user table notes = pure-Closes _
  list_bands-Closes (suc n) i plain pwd user table notes =
      >>=-Closes _ _ (list_band-Closes plain pwd _ _)
        (λ r. list_bands-Closes n (i + 1) plain pwd _ _ _)

  list_all-Closes :
      (q : MaxRanges) (default pwd : List ℕ) → Closes p (Bands.list_all p q default pwd)
  unfolding Bands.list_all
  list_all-Closes (refused rc) default pwd = pure-Closes _
  list_all-Closes (supported n) default pwd =
      if-Closes (ltb n 1024) _ _
        (>>=-Closes _ _ (list_bands-Closes _ _ _ _ _ _ _) (λ r. pure-Closes _)) (pure-Closes _)

  list_by-Closes :
      (range : Option ℕ) (default pwd : List ℕ) → Closes p (Bands.list_by p range default pwd)
  unfolding Bands.list_by
  list_by-Closes none default pwd =
      >>=-Closes _ _ get_max_ranges-Closes (λ q. list_all-Closes q default pwd)
  list_by-Closes (some n) default pwd =
      if-Closes (ltb n 1024) _ _
        (>>=-Closes _ _ (list_bands-Closes _ _ _ _ _ _ _) (λ r. pure-Closes _)) (pure-Closes _)

  pub list_locking_ranges-Closes :
      (pw : List ℕ) (range : Option ℕ) → Closes p (Bands.list_locking_ranges p pw range)
  unfolding Bands.list_locking_ranges
  list_locking_ranges-Closes pw range =
      with_default-Closes pw _ (λ default pwd. list_by-Closes range default pwd)
