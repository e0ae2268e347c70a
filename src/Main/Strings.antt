-- ===== src/Main/Strings.antt =====
-- Common/sedutil.cpp: the name of the device that the main program opens.
use sedutil.Prelude.{
  ℕ, zero, suc, ◌+◌, ◌-◌, ◌<◌, ◌≤◌, ◌≡◌, refl, ap, ◌∙◌, arith, Bool, true, false, List, some,
  length, get_elem?, ltb, ◌==◌, if◌then◌else◌, All, ◌⊎◌, inl, inr, Bool-cases,
}
use sedutil.Outcome.{done}
use sedutil.Options.{DtaOptions, parsed}
use sedutil.Options.Table.{dta_options}
use sedutil.Options.Steps.{get_elem?-some}
use sedutil.Options.Parsed.{Fine, dta_options-Fine, parsed-argc}
use sedutil.Options.Sound.{NotEmpty, takes_device, excess, excess-small}
use sedutil.Main.{device_index}

-- Where an action takes a device, at most 254 arguments that are not empty give the index of their
-- last one for it; for `enableuser` they give that of the first one, the program's own name.
pub device_index_lem :
    (argv : List (List ℕ)) (opts : DtaOptions)
    → All NotEmpty argv
    → length argv ≤ 254
    → dta_options argv ≡ done (parsed opts)
    → takes_device opts.action ≡ true
    → (device_index argv opts ≡ (if excess opts.action == 1 then 0 else length argv - 1))
      × ((name : List ℕ) × (get_elem? argv (device_index argv opts) ≡ some name))
device_index_lem argv opts full small h takes =
    let (r, e, fine) = dta_options-Fine argv full small in
    let same : r ≡ parsed opts = cc (e, h) in
    let fine' : Fine argv (parsed opts) = sedutil.Prelude.subst (Fine argv) same fine in
    let many = parsed-argc argv opts h in
    let few = excess-small opts.action in
    elim fine'.1 [
      | inl free ↦ cc (free, takes)
      | inr at_excess ↦ elim (Bool-cases (excess opts.action == 1)) [
        | inl one ↦
            let clamped : ltb (length argv - 1) opts.device ≡ true = ground arith in
            rw (one, clamped) (refl, get_elem?-some argv 0 (omega (arith, many)))
        | inr none ↦
            let kept : ltb (length argv - 1) opts.device ≡ false = ground arith in
            let last : opts.device ≡ length argv - 1 = ground arith in
            rw (none, kept, last)
              (refl, get_elem?-some argv (length argv - 1) (omega (arith, many)))
      ]
    ]
