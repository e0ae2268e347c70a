-- ===== src/Options/Steps.antt =====
-- Common/DtaOptions.h: what the steps of an option do with the index of the argument.
use sedutil.Prelude.{
  ℕ, zero, suc, ◌+◌, ◌%◌, ◌<◌, ◌≤◌, ◌≡◌, refl, sym, subst, arith, Bool, true, false, List, [], ◌∷◌,
  Option, none, some, length, get_elem?, ◌⊎◌, inl, inr,
}
use sedutil.Outcome.{Outcome, done}
use sedutil.Options.{
  Action, DtaOptions, Field, password_field, userid_field, newpassword_field, pbafile_field,
  device_field, lrstart_field, lrlength_field, set_field, Target, mbrstate_target,
  lockingrange_target, lockingstate_target, set_target, Step, one_of, option_is, skip, choose,
  take_choice, on_progress, Progress, stop, go, run_step, run_steps,
}

-- How far the steps go, and the last argument that one of them tests.
abbrev pub consumed : List Step → ℕ
consumed [] = 0
consumed (one_of _ _ ∷ steps) = 1 + consumed steps
consumed (option_is _ ∷ steps) = 1 + consumed steps
consumed (skip n ∷ steps) = n + consumed steps

abbrev beyond : ℕ → ℕ → ℕ
beyond n zero = 0
beyond n (suc m) = n + suc m

abbrev pub tested : List Step → ℕ
tested [] = 0
tested (one_of _ _ ∷ steps) = 1 + tested steps
tested (option_is _ ∷ steps) = beyond 1 (tested steps)
tested (skip n ∷ steps) = beyond n (tested steps)

-- The last step takes the device.
abbrev pub is_device : Step → Bool
is_device (option_is device_field) = true
is_device _ = false

abbrev pub ends_with_device : List Step → Bool
ends_with_device [] = false
ends_with_device (s ∷ []) = is_device s
ends_with_device (_ ∷ s ∷ steps) = ends_with_device (s ∷ steps)

-- No index is above the bound.
abbrev pub AtMost : ℕ → DtaOptions → Type 0
AtMost n opts =
    (opts.password ≤ n)
    × (opts.userid ≤ n)
    × (opts.newpassword ≤ n)
    × (opts.pbafile ≤ n)
    × (opts.device ≤ n)
    × (opts.lrstart ≤ n)
    × (opts.lrlength ≤ n)

pub AtMost-mono : (m n : ℕ) (opts : DtaOptions) → m ≤ n → AtMost m opts → AtMost n opts
AtMost-mono m n opts h (a, b, c, d, e, f, g) =
    (omega arith, omega arith, omega arith, omega arith, omega arith, omega arith, omega arith)

AtMost-set_field :
    (n : ℕ) (f : Field) (opts : DtaOptions)
    → AtMost n opts
    → AtMost (n + 1) (set_field f (n + 1) opts)
AtMost-set_field n password_field opts h = ground arith
AtMost-set_field n userid_field opts h = ground arith
AtMost-set_field n newpassword_field opts h = ground arith
AtMost-set_field n pbafile_field opts h = ground arith
AtMost-set_field n device_field opts h = ground arith
AtMost-set_field n lrstart_field opts h = ground arith
AtMost-set_field n lrlength_field opts h = ground arith

AtMost-set_target :
    (n v : ℕ) (t : Target) (opts : DtaOptions) → AtMost n opts → AtMost n (set_target t v opts)
AtMost-set_target n v mbrstate_target opts h = h
AtMost-set_target n v lockingrange_target opts h = h
AtMost-set_target n v lockingstate_target opts h = h

set_field-action :
    (f : Field) (i : ℕ) (opts : DtaOptions) → (set_field f i opts).action ≡ opts.action
set_field-action password_field i opts = refl
set_field-action userid_field i opts = refl
set_field-action newpassword_field i opts = refl
set_field-action pbafile_field i opts = refl
set_field-action device_field i opts = refl
set_field-action lrstart_field i opts = refl
set_field-action lrlength_field i opts = refl

set_target-action :
    (t : Target) (v : ℕ) (opts : DtaOptions) → (set_target t v opts).action ≡ opts.action
set_target-action mbrstate_target v opts = refl
set_target-action lockingrange_target v opts = refl
set_target-action lockingstate_target v opts = refl

pub get_elem?-some {ℓ} :
    {A : Type ℓ} (l : List A) (i : ℕ) → i < length l → (x : A) × (get_elem? l i ≡ some x)
get_elem?-some [] i h = elim h [ ]
get_elem?-some (x ∷ l) zero h = (x, refl)
get_elem?-some (x ∷ l) (suc i) h = get_elem?-some l i (omega arith)

module _ (argv : List (List ℕ)) where
  -- The steps stop with 1, or they go as far as they say, with no index above and the action kept.
  abbrev pub Reached : Outcome Progress → ℕ → Action → Bool → Type 0
  Reached o n action last =
      (o ≡ done (stop 1))
      ⊎ ((opts : DtaOptions) × (o ≡ done (go n opts))
          × AtMost n opts
          × (opts.action ≡ action)
          × (last ≡ true → opts.device ≡ n))

  move :
      (o : Outcome Progress) (m n : ℕ) (a b : Action) (last : Bool)
      → m ≡ n
      → a ≡ b
      → Reached o m a last
      → Reached o n b last
  move o m n a b last e f r =
      subst (λ k. Reached o k b last) e (subst (λ c. Reached o m c last) f r)

  -- The arguments that the steps test are there.
  abbrev pub Present : List Step → ℕ → Type 0
  Present steps i = 1 ≤ tested steps → i + tested steps < length argv

  Present-beyond :
      (n : ℕ) (steps : List Step) (i : ℕ)
      → (1 ≤ beyond n (tested steps) → i + beyond n (tested steps) < length argv)
      → Present steps (i + n)
  Present-beyond n steps i k = go (tested steps) k
    where
      go :
          (t : ℕ)
          → (1 ≤ beyond n t → i + beyond n t < length argv)
          → 1 ≤ t
          → i + n + t < length argv
      go zero k h = elim h [ ]
      go (suc t) k h = let q = k (omega arith) in omega (arith, q)

  device-set :
      (f : Field) (i : ℕ) (opts : DtaOptions)
      → is_device (option_is f) ≡ true
      → (set_field f i opts).device ≡ i
  device-set password_field i opts h = cc h
  device-set userid_field i opts h = cc h
  device-set newpassword_field i opts h = cc h
  device-set pbafile_field i opts h = cc h
  device-set device_field i opts h = refl
  device-set lrstart_field i opts h = cc h
  device-set lrlength_field i opts h = cc h

  ends-tail :
      (s : Step) (steps : List Step)
      → is_device s ≡ false
      → ends_with_device steps ≡ ends_with_device (s ∷ steps)
  ends-tail s [] e = sym e
  ends-tail s (s' ∷ steps) e = refl

  -- A choice that is made, and then the rest.
  choice-Reached :
      (c : Option ℕ) (t : Target) (i n : ℕ) (opts : DtaOptions) (steps : List Step) (last : Bool)
      → i + 1 < 256
      → ((v : ℕ) → Reached (run_steps argv steps (i + 1) (set_target t v opts)) n opts.action last)
      → Reached
          (on_progress
            (λ rc. done (stop rc))
            (λ i' opts'. run_steps argv steps i' opts')
            (take_choice c t i opts))
          n
          opts.action
          last
  choice-Reached none t i n opts steps last h r = inl refl
  choice-Reached (some v) t i n opts steps last h r =
      let cut : (i + 1) % 256 ≡ i + 1 = omega arith in rw cut (r v)

  -- Steps from `i` on go to the end, or one of them fails.
  pub run_steps-Reached :
      (steps : List Step) (i : ℕ) (opts : DtaOptions)
      → i + consumed steps < 256
      → Present steps i
      → AtMost i opts
      → Reached
          (run_steps argv steps i opts)
          (i + consumed steps)
          opts.action
          (ends_with_device steps)
  unfolding run_steps run_step
  run_steps-Reached [] i opts h k m =
      let e : i + 0 ≡ i = omega arith in rw e (inr (opts, refl, m, refl, λ q. cc q))
  run_steps-Reached (one_of t choices ∷ steps) i opts h k m =
      let (word, q) = get_elem?-some argv (i + 1) (let k' = k (omega arith) in omega (arith, k')) in
      let sum : i + 1 + consumed steps ≡ i + (1 + consumed steps) = omega arith in
      rw q (
        choice-Reached (choose word choices) t i _ opts steps _ (omega arith) (λ v.
          subst
            (λ b.
              Reached (run_steps argv steps (i + 1) (set_target t v opts))
                (i + (1 + consumed steps)) opts.action b)
            (ends-tail (one_of t choices) steps refl)
            (move _ _ _ _ _ _ sum (set_target-action t v opts) (
              run_steps-Reached steps (i + 1) (set_target t v opts) (omega arith)
                (λ some_test. let k' = k (omega arith) in omega (arith, k'))
                (AtMost-set_target (i + 1) v t opts
                  (AtMost-mono i (i + 1) opts (omega arith) m))))))
  run_steps-Reached (option_is f ∷ []) i opts h k m =
      let cut : (i + 1) % 256 ≡ i + 1 = omega arith in
      rw cut (
        inr (
          set_field f (i + 1) opts,
          refl,
          AtMost-set_field i f opts m,
          set_field-action f (i + 1) opts,
          λ q. device-set f (i + 1) opts q,
        ))
  run_steps-Reached (option_is f ∷ s ∷ steps) i opts h k m =
      let cut : (i + 1) % 256 ≡ i + 1 = omega arith in
      let sum : i + 1 + consumed (s ∷ steps) ≡ i + (1 + consumed (s ∷ steps)) = omega arith in
      rw cut (
        move _ _ _ _ _ _ sum (set_field-action f (i + 1) opts) (
          run_steps-Reached (s ∷ steps) (i + 1) (set_field f (i + 1) opts) (omega arith)
            (Present-beyond 1 (s ∷ steps) i k) (AtMost-set_field i f opts m)))
  run_steps-Reached (skip n ∷ steps) i opts h k m =
      let cut : (i + n) % 256 ≡ i + n = omega arith in
      let sum : i + n + consumed steps ≡ i + (n + consumed steps) = omega arith in
      rw cut (
        subst
          (λ b.
            Reached (run_steps argv steps (i + n) opts) (i + (n + consumed steps)) opts.action b)
          (ends-tail (skip n) steps refl)
          (move _ _ _ _ _ _ sum refl (
            run_steps-Reached steps (i + n) opts (omega arith) (Present-beyond n steps i k)
              (AtMost-mono i (i + n) opts (omega arith) m))))
