-- ===== src/Options/Parsed.antt =====
-- Common/DtaOptions.cpp: what the parsing of a command line gives.
use sedutil.Prelude.{
  ℕ, zero, suc, ◌+◌, ◌-◌, ◌%◌, ◌<◌, ◌≤◌, ◌≡◌, refl, sym, subst, ap, ◌∙◌, arith, true, false, ◌||◌,
  List, [], ◌∷◌, Option, none, some, length, get_elem?, ltb, ◌==◌, bytes_eq, codes, All, ◌⊎◌, inl,
  inr, Bool-cases,
}
use sedutil.Outcome.{Outcome, done, ◌>>=◌}
use sedutil.Lexicon.Status.{error_code, invalid_command}
use sedutil.Options.{
  Action, deadbeef, enable_user, scan, validate_pbkdf2, DtaOptions, CommandOption, no_options, find,
  same_word, on_progress, on_flag, Progress, stop, go, next, run_steps, second, behind_dashes,
  has_dashes, no_action, Result, failed, parsed, chosen, parse_command, read_flag, parse_from,
}
use sedutil.Options.Table.{options, dta_options}
use sedutil.Options.Steps.{
  consumed, tested, ends_with_device, AtMost, AtMost-mono, get_elem?-some, run_steps-Reached,
}
use sedutil.Options.Sound.{
  excess, takes_device, is_sound, sound-parts, excess-small, options_sound, find_sound, NotEmpty,
  second-done, behind_dashes-done, All-get_elem?,
}

module _ (argv : List (List ℕ)) where
  -- Where an index may point, and where the device stands.
  abbrev pub Placed : DtaOptions → Type 0
  Placed opts =
      AtMost (length argv - 1 + excess opts.action) opts
      × (takes_device opts.action ≡ true → opts.device ≡ length argv - 1 + excess opts.action)

  abbrev pub Fine : Result → Type 0
  Fine (failed rc) = Unit {0}
  Fine (parsed opts) =
      AtMost (length argv - 1 + excess opts.action) opts
      × ((takes_device opts.action ≡ false) ⊎ (opts.device ≡ length argv - 1 + excess opts.action))

  Placed-Fine : (opts : DtaOptions) → Placed opts → Fine (parsed opts)
  Placed-Fine opts (most, dev) = elim (Bool-cases (takes_device opts.action)) [
    | inl e ↦ (most, inr (dev e))
    | inr e ↦ (most, inl e)
  ]

  abbrev Ends : Outcome Result → Type 0
  Ends o = (r : Result) × (o ≡ done r) × Fine r

  parse_from-end :
      (fuel i base : ℕ) (opts : DtaOptions)
      → length argv ≤ i
      → 1 ≤ fuel
      → parse_from options argv fuel i base opts ≡ done (parsed opts)
  unfolding parse_from
  parse_from-end zero i base opts h k = elim k [ ]
  parse_from-end (suc fuel) i base opts h k =
      let e : ltb i (length argv) ≡ false = ground arith in rw e refl

  -- What the flags leave alone.
  abbrev Flagged : DtaOptions → DtaOptions → Type 0
  Flagged opts opts' = (opts'.action ≡ opts.action) × (AtMost 0 opts → AtMost 0 opts')

  read_flag-cases :
      (arg : List ℕ) (c : ℕ) (opts : DtaOptions)
      → (read_flag options argv arg c opts ≡ none)
        ⊎ ((opts' : DtaOptions) × (read_flag options argv arg c opts ≡ some opts')
            × Flagged opts opts')
  unfolding read_flag
  read_flag-cases arg c opts = elim (Bool-cases (c == 118)) [
    | inl e ↦ inr (opts, rw e refl, (refl, λ h. h))
    | inr e ↦ elim (Bool-cases (bytes_eq (codes "-n") arg)) [
      | inl f ↦ inr (record opts { no_hash_passwords = true }, rw (e, f) refl, (refl, λ h. h))
      | inr f ↦ elim (Bool-cases (bytes_eq (codes "-l") arg)) [
        | inl g ↦ inr (
          record opts { output_format = sedutil.Options.normal },
          rw (e, f, g) refl,
          (refl, λ h. h),
        )
        | inr g ↦ inl (rw (e, f, g) refl)
      ]
    ]
  ]

  Placed-as :
      (o : CommandOption) (opts : DtaOptions) (n : ℕ)
      → n ≡ length argv - 1 + excess o.action
      → opts.action ≡ o.action
      → AtMost n opts
      → (takes_device o.action ≡ true → opts.device ≡ n)
      → Placed opts
  Placed-as o opts n to act m dev =
      let same : n ≡ length argv - 1 + excess opts.action =
        to ∙ ap (λ a. length argv - 1 + excess a) (sym act) in
      (subst (λ k. AtMost k opts) same m, λ q. dev (ap takes_device (sym act) ∙ q) ∙ same)

  -- The end of a command that was given its arguments.
  after_steps :
      (o : CommandOption) (fuel i base : ℕ) (opts : DtaOptions)
      → is_sound o ≡ true
      → o.count + base ≡ length argv
      → base ≡ i + 1
      → length argv ≤ 254
      → 1 ≤ fuel
      → AtMost 0 opts
      → Ends (
          run_steps argv o.steps i (record opts { action = o.action })
          >>= on_progress
              (λ rc. done (failed rc))
              (λ i' opts'. parse_from options argv fuel (next i') base opts'))
  after_steps o fuel i base opts s count b small more zeros =
      let start : DtaOptions = record opts { action = o.action } in
      let (goes, tests, last) =
        sound-parts (tested o.steps) o.count (consumed o.steps) (excess o.action)
          (takes_device o.action) (ends_with_device o.steps) s in
      let few = excess-small o.action in
      let to : i + consumed o.steps ≡ length argv - 1 + excess o.action =
        omega (arith, goes, count, b) in
      elim (run_steps-Reached argv o.steps i start (omega (arith, goes, few, count, b, small))
        (λ some_test. omega (arith, tests, count, b)) (AtMost-mono 0 i start (omega arith) zeros)) [
          | inl e ↦ (failed 1, rw e refl, tt)
          | inr (opts', e, m, act, dev) ↦ (
            parsed opts',
            (let on : next (i + consumed o.steps) ≡ i + consumed o.steps + 1 =
                  omega (arith, goes, few, count, b, small) in
                rw (e, on)
                  (parse_from-end fuel (i + consumed o.steps + 1) base opts'
                    (omega (arith, goes, count, b)) more)),
            Placed-Fine opts'
                (Placed-as o opts' (i + consumed o.steps) to act m (λ q. dev (last q))),
          )
        ]

  command-Ends :
      (arg : List ℕ) (fuel i base : ℕ) (opts : DtaOptions)
      → base ≡ i + 1
      → length argv ≤ 254
      → 1 ≤ fuel
      → opts.action ≡ deadbeef
      → AtMost 0 opts
      → Ends (
          parse_command options argv arg i base opts
          >>= on_progress
              (λ rc. done (failed rc))
              (λ i' opts'. parse_from options argv fuel (next i') base opts'))
  unfolding parse_command
  command-Ends arg fuel i base opts b small more dead zeros = elim (Bool-cases (has_dashes arg)) [
    | inr e ↦ (failed (error_code invalid_command), rw (e, dead) refl, tt)
    | inl e ↦
        let (word, behind) = behind_dashes-done arg e in
        rw (e, behind) (found word (find word options) refl)
  ]
    where
      found :
          (word : List ℕ) (c : Option CommandOption)
          → find word options ≡ c
          → Ends (
              chosen options argv c i base opts
              >>= on_progress
                  (λ rc. done (failed rc))
                  (λ i' opts'. parse_from options argv fuel (next i') base opts'))
      found word none q = (failed (error_code invalid_command), refl, tt)
      found word (some o) q = elim (Bool-cases (o.count + base == length argv)) [
        | inr f ↦ (failed 100, rw f refl, tt)
        | inl f ↦
            let count : o.count + base ≡ length argv = ground arith in
            rw f (
              after_steps o fuel i base opts (find_sound word options o options_sound q) count b
                small more zeros)
      ]

  unplaced : (opts : DtaOptions) → opts.action ≡ deadbeef → AtMost 0 opts → Placed opts
  unplaced opts dead zeros = (
    AtMost-mono 0 (length argv - 1 + excess opts.action) opts (omega arith) zeros,
    λ q. let no : takes_device deadbeef ≡ true = subst (λ a. takes_device a ≡ true) dead q in cc no,
  )

  -- A round at the argument `i`: all arguments before it were flags.
  parse_from-Ends :
      (fuel i base : ℕ) (opts : DtaOptions)
      → All NotEmpty argv
      → i ≤ length argv
      → length argv < i + fuel
      → base ≡ i + 1
      → length argv ≤ 254
      → opts.action ≡ deadbeef
      → AtMost 0 opts
      → Ends (parse_from options argv fuel i base opts)
  unfolding parse_from
  parse_from-Ends zero i base opts full le h b small dead zeros = absurd (omega arith)
  parse_from-Ends (suc fuel) i base opts full le h b small dead zeros =
      elim (Bool-cases (ltb i (length argv))) [
        | inr e ↦ (parsed opts, rw e refl, Placed-Fine opts (unplaced opts dead zeros))
        | inl e ↦
            let (arg, q) = get_elem?-some argv i (ground arith) in
            let (c, two) = second-done arg (All-get_elem? NotEmpty argv i arg full q) in
            let on : next i ≡ i + 1 = ground arith in
            let up : (base + 1) % 256 ≡ base + 1 = ground arith in
            elim (Bool-cases (bytes_eq (codes "-h") arg || bytes_eq (codes "--help") arg)) [
              | inl f ↦ (failed (error_code invalid_command), rw (e, q, f) refl, tt)
              | inr f ↦ elim (read_flag-cases arg c opts) [
                | inl g ↦
                    rw (e, q, f, two, g)
                      (command-Ends arg fuel i base opts b small (ground arith) dead zeros)
                | inr (opts', g, flagged) ↦
                    rw (e, q, f, two, g, on, up)
                      (parse_from-Ends fuel (i + 1) (base + 1) opts' full (ground arith)
                        (omega arith) (omega arith) small (flagged.0 ∙ dead) (flagged.1 zeros))
              ]
            ]
      ]

  -- The parsing of at most 254 arguments, none of them empty, gives a return code or options. In the
  -- options every index is at most that of the last argument, or one more for `enableuser`, and the
  -- device, where the action takes one, stands at just that index.
  pub dta_options-Fine :
      All NotEmpty argv → length argv ≤ 254 → (r : Result) × (dta_options argv ≡ done r) × Fine r
  unfolding dta_options
  dta_options-Fine full small = elim (Bool-cases (ltb (length argv) 2)) [
    | inl e ↦ (failed (error_code invalid_command), rw e refl, tt)
    | inr e ↦ rw e (
        parse_from-Ends (length argv) 1 2 no_options full (ground arith) (omega arith) refl small
          refl
          (
            omega arith,
            omega arith,
            omega arith,
            omega arith,
            omega arith,
            omega arith,
            omega arith,
          ))
  ]

get_elem?-past {ℓ} : {A : Type ℓ} (l : List A) → get_elem? l (length l) ≡ none
get_elem?-past [] = refl
get_elem?-past (x ∷ l) = get_elem?-past l

-- Fewer than two arguments give no options.
pub parsed-argc :
    (argv : List (List ℕ)) (opts : DtaOptions)
    → dta_options argv ≡ done (parsed opts)
    → 2 ≤ length argv
unfolding dta_options
parsed-argc argv opts h = elim (Bool-cases (ltb (length argv) 2)) [
  | inl e ↦ cc (rw e at h)
  | inr e ↦ ground arith
]

-- The options of `enableuser`, parsed from at most 254 arguments that are not empty, have as the
-- device the number of the arguments, which is the index of none of them.
pub device_enable_user_lem :
    (argv : List (List ℕ)) (opts : DtaOptions)
    → All NotEmpty argv
    → length argv ≤ 254
    → dta_options argv ≡ done (parsed opts)
    → opts.action ≡ enable_user
    → (opts.device ≡ length argv) × (get_elem? argv opts.device ≡ none)
device_enable_user_lem argv opts full small h act =
    let (r, e, fine) = dta_options-Fine argv full small in
    let same : r ≡ parsed opts = cc (e, h) in
    let fine' : Fine argv (parsed opts) = subst (Fine argv) same fine in
    let takes : takes_device opts.action ≡ true = ap takes_device act in
    let one : excess opts.action ≡ 1 = ap excess act in
    let many = parsed-argc argv opts h in
    elim fine'.1 [
      | inl free ↦ cc (free, takes)
      | inr at_excess ↦
          let dev : opts.device ≡ length argv = omega (arith, at_excess, one, many) in
          (dev, ap (get_elem? argv) dev ∙ get_elem?-past argv)
    ]
