-- ===== src/Main/Settled.antt =====
-- Common/sedutil.cpp, Common/DtaDev.cpp and the constructors of Common/DtaDevOpal2.cpp and
-- Common/DtaDevEnterprise.cpp: what a run of the program sends a drive last, from the opening on.
use sedutil.Prelude.{
  ℕ, ◌+◌, ◌≡◌, refl, sym, ap, subst, ◌∙◌, Bool, true, false, List, ◌∷◌, ◌==◌, if◌then◌else◌,
}
use sedutil.Outcome.{Outcome, done, exit}
use sedutil.Lexicon.Uid.{opal_smuid_uid}
use sedutil.Lexicon.Method.{properties}
use sedutil.Structures.{OpalDiskInfo}
use sedutil.Command.{DtaCommand, Token, build, reset_method}
use sedutil.Device.{
  Platform, Request, DeviceClass, opal1, opal2, enterprise, DtaDev, M, pure, ◌>>=◌, ◌>>◌, lift,
  gets, modify, filled, min_buffer_length, send_cmd, >>=-eq-done,
}
use sedutil.Session.{new_session, send_command}
use sedutil.Discovery.Requests.{
  know, discovery_request, discovery0, discovery0_ns, is_opal1, is_opal2, is_eprise,
}
use sedutil.Response.{DtaResponse, get_token_count}
use sedutil.Opal.Properties.{scan_properties}
use sedutil.Opal.Setup as OpalSetup
use sedutil.Enterprise.Provider as EnterpriseProvider
use sedutil.Session.Course.{Sessions, silent, sends}
use sedutil.Opal.Closes.{Closes, pure-Closes, gets-Closes, lift-Closes}
use sedutil.Main.Open.{Machine, init_os, construct, assert_set, is_other}

-- What the program does to a drive: sessions that it ends, and exchanges of properties, which have
-- no session; in any order. The questions of the discovery are no commands.
pub data Course (p : Platform) : DtaDev → DtaDev → Type 0 where
  in_sessions : {d d' : DtaDev} → Sessions p d d' → Course p d d'
  exchange :
      {d d' : DtaDev} (args : List Token) (cmd : DtaCommand) (r : DtaResponse) (x : ℕ × DtaResponse)
      → build args true (reset_method opal_smuid_uid properties) ≡ done cmd
      → send_command p new_session cmd r d ≡ done (x, d')
      → Course p d d'
  and_then : {d d1 d' : DtaDev} → Course p d d1 → Course p d1 d' → Course p d d'

abbrev pub Settles {ℓ} : Platform → {A : Type ℓ} → M A → Type ℓ
Settles p {A = A} m = (d : DtaDev) (a : A) (d' : DtaDev) → m d ≡ done (a, d') → Course p d d'

pub Closes-Settles {ℓ} : {p : Platform} {A : Type ℓ} {m : M A} → Closes p m → Settles p m
Closes-Settles h d a d' ran = in_sessions (h d a d' ran)

pub >>=-Settles {ℓ κ} :
    {p : Platform} {A : Type ℓ} {B : Type κ} (m : M A) (f : A → M B)
    → Settles p m
    → ((a : A) → Settles p (f a))
    → Settles p (m >>= f)
>>=-Settles m f h k d b d' e =
    let (a, d1, ran, rest) = >>=-eq-done m f d e in and_then (h d a d1 ran) (k a d1 b d' rest)

pub if-Settles {ℓ} :
    {p : Platform} {A : Type ℓ} (b : Bool) {m k : M A}
    → Settles p m
    → Settles p k
    → Settles p (if b then m else k)
if-Settles true h g = h
if-Settles false h g = g

pub modify-Settles :
    {p : Platform} (f : DtaDev → DtaDev)
    → ((d : DtaDev) → (f d).requests ≡ d.requests)
    → Settles p (modify f)
modify-Settles f same d a d' ran =
    let q : f d ≡ d' = cc ran in
    in_sessions (silent (ap (λ (e : DtaDev). sends e.requests) (sym q) ∙ ap sends (same d)))

pub gets-Settles {ℓ} : {p : Platform} {A : Type ℓ} (f : DtaDev → A) → Settles p (gets f)
gets-Settles f = Closes-Settles (gets-Closes f)

pub lift-Settles {ℓ} : {p : Platform} {A : Type ℓ} (o : Outcome A) → Settles p (lift o)
lift-Settles o = Closes-Settles (lift-Closes o)

pub pure-Settles {ℓ} : {p : Platform} {A : Type ℓ} (a : A) → Settles p (pure a)
pure-Settles a = Closes-Settles (pure-Closes a)

module _ (p : Platform) where
  ask-Settles : (com_id : ℕ) → Settles p (send_cmd p (discovery_request com_id))
  unfolding send_cmd
  ask-Settles com_id d a d' ran =
      let q : record d { requests = discovery_request com_id ∷ d.requests } ≡ d' = cc ran in
      in_sessions (silent (ap (λ (e : DtaDev). sends e.requests) (sym q)))

  discovery0_ns-Settles : Settles p (discovery0_ns p)
  unfolding discovery0_ns
  discovery0_ns-Settles = >>=-Settles _ _ (ask-Settles 2) λ reply.
      if-Settles (reply.rc == 0)
        (>>=-Settles _ _ (gets-Settles (λ d. d.disk_info))
          λ info. >>=-Settles _ _ (lift-Settles _) λ info'. modify-Settles (know info') (λ d. refl))
        (pure-Settles tt)

  discovery0-Settles : Settles p (discovery0 p)
  unfolding discovery0
  discovery0-Settles = >>=-Settles _ _ (ask-Settles 1) λ reply.
      if-Settles (reply.rc == 0)
        (>>=-Settles _ _ (gets-Settles (λ d. d.disk_info)) λ info.
          >>=-Settles _ _ (lift-Settles _) λ info'.
            >>=-Settles _ _ (modify-Settles (know info') (λ d. refl)) λ u. discovery0_ns-Settles)
        (pure-Settles tt)

  exchange-Settles :
      (args : List Token) (cmd : DtaCommand) (r : DtaResponse)
      → build args true (reset_method opal_smuid_uid properties) ≡ done cmd
      → Settles p (send_command p new_session cmd r)
  exchange-Settles args cmd r built d a d' ran = exchange args cmd r a built ran

  -- A command that was built is the one that its arguments give.
  built-Settles {ℓ} :
      {A : Type ℓ} (args : List Token) (k : DtaCommand → M A)
      → ((cmd : DtaCommand)
          → build args true (reset_method opal_smuid_uid properties) ≡ done cmd
          → Settles p (k cmd))
      → Settles p (lift (build args true (reset_method opal_smuid_uid properties)) >>= k)
  built-Settles args k h d a d' ran =
      let (cmd, d1, got, rest) =
        >>=-eq-done (lift (build args true (reset_method opal_smuid_uid properties))) k d ran in
      let (made, same) =
        sedutil.Device.lift-eq-done (build args true (reset_method opal_smuid_uid properties)) d
          got in
      subst (λ e. Course p e d') (sym same) (h cmd made d1 a d' rest)

  opal-properties-Settles : Settles p (OpalSetup.properties_exchange p)
  unfolding OpalSetup.properties_exchange
  opal-properties-Settles = built-Settles _ _ λ cmd made.
      >>=-Settles _ _ (gets-Settles (λ d. d.properties_response)) λ r.
        >>=-Settles _ _ (exchange-Settles _ cmd r made) λ x.
          >>=-Settles _ _ (modify-Settles (λ d. record d { properties_response = x.1 }) (λ d. refl))
            λ u.
              if-Settles (x.0 == 0)
                (>>=-Settles _ _
                  (modify-Settles
                    (λ d. record d { disk_info = record d.disk_info { properties = 1 } })
                    (λ d. refl))
                  λ v.
                    >>=-Settles _ _
                      (gets-Settles {A = ℕ × ℕ} (λ d. (d.tper_max_packet, d.tper_max_token)))
                      λ sizes.
                        >>=-Settles _ _
                          (lift-Settles (scan_properties (get_token_count x.1 + 1) 0 x.1 sizes))
                          λ (y : ℕ × ℕ).
                            >>=-Settles _ _
                              (modify-Settles
                                (λ d. record d { tper_max_packet = y.0; tper_max_token = y.1 })
                                (λ d. refl))
                              λ w. pure-Settles 0)
                (pure-Settles x.0)

  enterprise-properties-Settles : Settles p (EnterpriseProvider.properties_exchange p)
  unfolding EnterpriseProvider.properties_exchange
  enterprise-properties-Settles = built-Settles _ _ λ cmd made.
      >>=-Settles _ _ (gets-Settles (λ d. d.properties_response)) λ r.
        >>=-Settles _ _ (exchange-Settles _ cmd r made) λ x.
          >>=-Settles _ _ (modify-Settles (λ d. record d { properties_response = x.1 }) (λ d. refl))
            λ u.
              if-Settles (x.0 == 0)
                (>>=-Settles _ _
                  (modify-Settles
                    (λ d. record d { disk_info = record d.disk_info { properties = 1 } })
                    (λ d. refl))
                  λ v. pure-Settles 0)
                (pure-Settles x.0)

module _ (machine : Machine) (name : List ℕ) where
  pub init_os-Settles : Settles (machine.platform name) (init_os machine name)
  unfolding init_os
  init_os-Settles =
      let p = machine.platform name in
      if-Settles _
        (>>=-Settles _ _ (modify-Settles (know (machine.identified name)) (λ d. refl)) λ u.
          if-Settles (is_other (machine.identified name).dev_type) (pure-Settles true)
            (>>=-Settles _ _ (discovery0-Settles p) λ v. pure-Settles true))
        (pure-Settles false)

  assert_set-Settles :
      (question : OpalDiskInfo → ℕ) → Settles (machine.platform name) (assert_set question)
  assert_set-Settles question =
      >>=-Settles _ _ (gets-Settles (λ d. d.disk_info))
        λ info. if-Settles (question info == 0) (lift-Settles exit) (pure-Settles tt)

  pub construct-Settles :
      (class : DeviceClass) → Settles (machine.platform name) (construct machine name class)
  unfolding construct
  construct-Settles opal2 = >>=-Settles _ _ init_os-Settles λ b.
      >>=-Settles _ _ (opal-properties-Settles (machine.platform name))
        λ rc. assert_set-Settles is_opal2
  construct-Settles opal1 = >>=-Settles _ _ init_os-Settles λ b.
      >>=-Settles _ _ (opal-properties-Settles (machine.platform name))
        λ rc. assert_set-Settles is_opal1
  construct-Settles enterprise = >>=-Settles _ _ init_os-Settles λ b.
      >>=-Settles _ _ (assert_set-Settles is_eprise) λ u.
        >>=-Settles _ _ (enterprise-properties-Settles (machine.platform name))
          λ rc. pure-Settles tt
