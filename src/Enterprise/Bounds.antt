-- ===== src/Enterprise/Bounds.antt =====
-- Common/DtaDevEnterprise.cpp: the number of the bands, and the commands that are tested against it.
use sedutil.Prelude.{
  ℕ, ◌<◌, ◌≤◌, ◌≡◌, ◌≢◌, sym, subst, ap, ◌∙◌, arith, false, List, Option, not, ltb, ◌==◌, ◌||◌,
  if◌then◌else◌, ◌⊎◌, inl, inr, Bool-cases,
}
use sedutil.Outcome.{done}
use sedutil.Lexicon.Uid.{OpalUid, opal_locking_info_table, enterprise_locking_info_table}
use sedutil.Response.{get_uint16}
use sedutil.Lexicon.Status.{
  DtaError, error_code, unsuported_locking_range, object_create_failed, invalid_parameter, open_err,
  invalid_lifecycle, invalid_command, auth_failed, command_error, no_method_status, no_locking_info,
  lockingstate_code, readwrite, locked,
}
use sedutil.Device.{Platform, DtaDev, M, pure, lift, gets, ◌>>=◌, >>=-eq-done}
use sedutil.Session.{DtaSession, start, end_session}
use sedutil.Opal.{with_session}
use sedutil.Enterprise.{
  MaxRanges, refused, supported, Query, unstarted, answered, unanswered, get_table,
  query_max_ranges, after_query, read_max_ranges, get_max_ranges_opal, get_max_ranges,
  with_max_ranges, in_bounds,
}
use sedutil.Enterprise.Bands.{set_locking_range, lock_band, locked_token}

ne-zero : (n : ℕ) → (n == 0) ≡ false → n ≢ 0
ne-zero n e = λ q. absurd (ground arith)

-- Where the result of a session comes from.
with_session-cases {ℓ} :
    {A : Type ℓ} (p : Platform) (s : DtaSession) (sp : OpalUid) (pw : Option (List ℕ))
    (auth : List ℕ) (failed : ℕ → A) (body : DtaSession → M A) (d : DtaDev) {a : A} {d' : DtaDev}
    → with_session p s sp pw auth failed body d ≡ done (a, d')
    → ((rc : ℕ) × (rc ≢ 0) × (a ≡ failed rc))
      ⊎ ((s' : DtaSession) × (d1 : DtaDev) × (d2 : DtaDev) × (body s' d1 ≡ done (a, d2)))
unfolding with_session
with_session-cases p s sp pw auth failed body d {a} h =
    let ((rc, s'), d1, began, h1) = >>=-eq-done (start p s sp pw auth) _ d h in
    let (a', d2, ran, h2) = >>=-eq-done (if rc == 0 then body s' else pure (failed rc)) _ d1 h1 in
    let (x, d3, ended, h3) = >>=-eq-done (end_session p s') _ d2 h2 in
    let same : a' ≡ a = cc h3 in
    elim (Bool-cases (rc == 0)) [
      | inl e ↦ inr (s', d1, d2, rw e at (ran ∙ ap (λ b. done (b, d2)) same))
      | inr e ↦ inl (rc, ne-zero rc e, sym same ∙ cc (rw e at ran))
    ]

refused_code : (d d' : DtaDev) (code : DtaError) → pure (error_code code) d ≡ done (0, d') → ⊥
refused_code d d' code e = let z : error_code code ≡ 0 = cc e in never code z
  where
    never : (code : DtaError) → error_code code ≡ 0 → ⊥
    never unsuported_locking_range q = omega arith
    never object_create_failed q = omega arith
    never invalid_parameter q = omega arith
    never open_err q = omega arith
    never invalid_lifecycle q = omega arith
    never invalid_command q = omega arith
    never auth_failed q = omega arith
    never command_error q = omega arith
    never no_method_status q = omega arith
    never no_locking_info q = omega arith

-- A return code that stands for a failure is not 0.
abbrev Failure : Query → Type 0
Failure (unstarted rc) = rc ≢ 0
Failure answered = Unit
Failure (unanswered rc) = rc ≢ 0

abbrev Refusal : MaxRanges → Type 0
Refusal (refused rc) = rc ≢ 0
Refusal (supported n) = Unit

module _ (p : Platform) where
  -- Every result of a call satisfies a predicate.
  abbrev Gives {ℓ} : {A : Type ℓ} → (A → Type 0) → M A → Type ℓ
  Gives {A = A} P m = (d : DtaDev) (a : A) (d' : DtaDev) → m d ≡ done (a, d') → P a

  asked-Failure : (rc : ℕ) → Failure (if rc == 0 then answered else unanswered rc)
  asked-Failure rc = elim (Bool-cases (rc == 0)) [ inl e ↦ rw e tt | inr e ↦ rw e (ne-zero rc e) ]

  query-Failure : (table : OpalUid) → Gives Failure (query_max_ranges p table)
  unfolding query_max_ranges
  query-Failure table d q d' h = elim (with_session-cases p _ _ _ _ _ _ d h) [
    | inl (rc, nz, e) ↦ subst Failure (sym e) nz
    | inr (s', d1, d2, ran) ↦
        let (rc, d3, sent, e) = >>=-eq-done (get_table p s' _ _ _) _ d1 ran in
        let same : (if rc == 0 then answered else unanswered rc) ≡ q = cc e in
        subst Failure same (asked-Failure rc)
  ]

  read-Refusal : Gives Refusal (read_max_ranges p)
  read-Refusal d q d' h =
      let (n, d1, got, e) = >>=-eq-done (gets (λ d. get_uint16 d.response 5) >>= lift) _ d h in
      let same : supported n ≡ q = cc e in subst Refusal same tt

  after_query-Refusal :
      (again : ℕ → M MaxRanges) (q : Query)
      → Failure q
      → ((rc : ℕ) → rc ≢ 0 → Gives Refusal (again rc))
      → Gives Refusal (after_query p again q)
  unfolding after_query
  after_query-Refusal again (unstarted rc) f h d r d' e =
      let same : refused rc ≡ r = cc e in subst Refusal same f
  after_query-Refusal again answered f h d r d' e = read-Refusal d r d' e
  after_query-Refusal again (unanswered rc) f h d r d' e = h rc f d r d' e

  get_max_ranges_opal-Refusal : Gives Refusal (get_max_ranges_opal p)
  unfolding get_max_ranges_opal
  get_max_ranges_opal-Refusal d r d' h =
      let (q, d1, asked, rest) = >>=-eq-done (query_max_ranges p opal_locking_info_table) _ d h in
      after_query-Refusal (λ rc. pure (refused rc)) q
        (query-Failure opal_locking_info_table d q d1 asked)
        (λ rc nz e r e' h'. let same : refused rc ≡ r = cc h' in subst Refusal same nz) d1 r d' rest

  -- A return code in place of the number is not 0.
  get_max_ranges-Refusal : Gives Refusal (get_max_ranges p)
  unfolding get_max_ranges
  get_max_ranges-Refusal d r d' h =
      let (q, d1, asked, rest) =
        >>=-eq-done (query_max_ranges p enterprise_locking_info_table) _ d h in
      after_query-Refusal (λ rc. get_max_ranges_opal p) q
        (query-Failure enterprise_locking_info_table d q d1 asked)
        (λ rc nz. get_max_ranges_opal-Refusal) d1 r d' rest

  -- The number that the drive was found to support, when a command on a band went well.
  abbrev pub Supports : ℕ → DtaDev → Type 0
  Supports band d =
      (n : ℕ) × (d1 : DtaDev) × (get_max_ranges p d ≡ done (supported n, d1))
      × (1 ≤ n)
      × (n < 1024)
      × (band ≤ n)

  in_bounds-Supports :
      (band : ℕ) (k : M ℕ) (d : DtaDev) (d' : DtaDev)
      → in_bounds p band k d ≡ done (0, d')
      → Supports band d
  unfolding with_max_ranges
  in_bounds-Supports band k d d' h =
      let (q, d1, asked, rest) = >>=-eq-done (get_max_ranges p) _ d h in
      go q d1 asked (get_max_ranges-Refusal d q d1 asked) rest
    where
      wrong :
          (d1 : DtaDev)
          → pure (error_code unsuported_locking_range) d1 ≡ done (0, d')
          → Supports band d
      wrong d1 e = absurd (refused_code d1 d' unsuported_locking_range e)

      go :
          (q : MaxRanges) (d1 : DtaDev)
          → get_max_ranges p d ≡ done (q, d1)
          → Refusal q
          → with_max_ranges p band q k d1 ≡ done (0, d')
          → Supports band d
      go (refused rc) d1 asked nz e = absurd (nz (cc e))
      go (supported n) d1 asked nz e = elim (Bool-cases ((n == 0) || not (ltb n 1024))) [
        | inl t ↦ wrong d1 (rw t at e)
        | inr t ↦ elim (Bool-cases (ltb n band)) [
          | inl u ↦ wrong d1 (rw (t, u) at e)
          | inr u ↦ (n, d1, asked, ground arith, ground arith, ground arith)
        ]
      ]

  -- A change of the locks of a band that returns 0 was asked for a state that the class has, read-write
  -- or locked, and the drive was found to tell a MaxRanges from 1 to 1023 and not below the number of
  -- this band, which may be 0, the Global Range.
  pub set_locking_range-Supports :
      (band state : ℕ) (pw : List ℕ) (d d' : DtaDev)
      → set_locking_range p band state pw d ≡ done (0, d')
      → ((state ≡ lockingstate_code readwrite) ⊎ (state ≡ lockingstate_code locked))
        × Supports band d
  unfolding set_locking_range lock_band locked_token
  set_locking_range-Supports band state pw d d' h = elim (Bool-cases (state == 1)) [
    | inl e ↦ (inl (ground arith), in_bounds-Supports band _ d d' (rw e at h))
    | inr e ↦ elim (Bool-cases (state == 3)) [
      | inl f ↦ (inr (ground arith), in_bounds-Supports band _ d d' (rw (e, f) at h))
      | inr f ↦ absurd (refused_code d d' invalid_parameter (rw (e, f) at h))
    ]
  ]
