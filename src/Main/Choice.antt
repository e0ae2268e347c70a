-- ===== src/Main/Choice.antt =====
-- Common/sedutil.cpp: the class of the device that the main program makes.
use sedutil.Prelude.{
  ℕ, ◌≡◌, refl, subst, arith, true, false, ◌&&◌, ◌||◌, List, some, ◌==◌, inl, inr, Bool-cases,
  codes,
}
use sedutil.Outcome.{done}
use sedutil.Structures.{OpalDiskInfo}
use sedutil.Device.{DeviceClass, opal1, opal2, enterprise, DtaDev, >>=-eq-done}
use sedutil.Discovery.Known.{Consistent}
use sedutil.Discovery.Kept.{discovery0-Keeps}
use sedutil.Discovery.Requests.{know, discovery0, is_any_ssc, is_opal1, is_opal2, is_eprise}
use sedutil.Opal.Users.{begins_with}
use sedutil.Main.{choose_class}
use sedutil.Main.Open.{Machine, init_os, is_other}

choose_class-some :
    (info : OpalDiskInfo)
    → Consistent info
    → (is_any_ssc info == 0) ≡ false
    → (c : DeviceClass) × (choose_class info ≡ some c)
unfolding choose_class is_any_ssc is_opal1 is_opal2 is_eprise
choose_class-some info h any = elim (Bool-cases (info.opal20 == 0)) [
  | inr e ↦ (opal2, rw e refl)
  | inl e ↦ elim (Bool-cases (info.opal10 == 0)) [
    | inr f ↦ (opal1, rw (e, f) refl)
    | inl f ↦ elim (Bool-cases (info.enterprise == 0)) [
      | inr g ↦ (enterprise, rw (e, f, g) refl)
      | inl g ↦ absurd (ground arith)
    ]
  ]
]

module _ (machine : Machine) (name : List ℕ) where
  init_os-Consistent :
      (d d' : DtaDev)
      → Consistent (machine.identified name)
      → init_os machine name d ≡ done (true, d')
      → Consistent d'.disk_info
  unfolding init_os
  init_os-Consistent d d' h ran =
      let known =
        (begins_with (codes "/dev/nvme") name || begins_with (codes "/dev/s") name)
        && machine.opens name in
      elim (Bool-cases known) [
        | inr e ↦ cc (rw e at ran)
        | inl e ↦ elim (Bool-cases (is_other (machine.identified name).dev_type)) [
          | inl f ↦
              let q : know (machine.identified name) d ≡ d' = cc (rw (e, f) at ran) in
              subst (λ (x : DtaDev). Consistent x.disk_info) q h
          | inr f ↦
              let (u, d1, ran1, rest) =
                >>=-eq-done (discovery0 (machine.platform name)) _
                  (know (machine.identified name) d) (rw (e, f) at ran) in
              let q : d1 ≡ d' = cc rest in
              subst (λ (x : DtaDev). Consistent x.disk_info) q
                (discovery0-Keeps (machine.platform name) (know (machine.identified name) d) d1 h
                  ran1)
        ]
      ]

  -- A device that opens and turns out to have some subsystem class has one that the main program
  -- knows, however the drive answers the discovery, if what it says of itself before agrees about the
  -- classes. So the message `Unknown OPAL SSC` is never given.
  pub choose_class-init_os :
      (d d' : DtaDev)
      → Consistent (machine.identified name)
      → init_os machine name d ≡ done (true, d')
      → (is_any_ssc d'.disk_info == 0) ≡ false
      → (c : DeviceClass) × (choose_class d'.disk_info ≡ some c)
  choose_class-init_os d d' h ran any =
      choose_class-some d'.disk_info (init_os-Consistent d d' h ran) any
