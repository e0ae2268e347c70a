-- ===== src/Raw/Closes.antt =====
-- Common/DtaDevOpal.cpp and Common/DtaDevEnterprise.cpp: the sessions of `objDump` and `rawCmd`.
use sedutil.Prelude.{ℕ, refl, List, ◌||◌}
use sedutil.Outcome.{Outcome}
use sedutil.Command.{DtaCommand}
use sedutil.Device.{Platform}
use sedutil.Opal.Closes.{
  Closes, pure-Closes, lift-Closes, >>=-Closes, if-Closes, with_session-Closes,
}
use sedutil.Raw
use sedutil.Raw.{not_uid, bad_parms, dump_in, provider}

module _ (p : Platform) where
  pub dump_in-Closes :
      (failed : ℕ → ℕ) (sp auth pass : List ℕ) (made : Outcome DtaCommand)
      → Closes p (dump_in p failed sp auth pass made)
  unfolding dump_in
  dump_in-Closes failed sp auth pass made = >>=-Closes _ _ (lift-Closes made) (λ cmd.
      >>=-Closes _ _ (lift-Closes (provider sp)) (λ uid. with_session-Closes p _ _ _ _ _ _ refl))

  pub obj_dump-Closes : (sp auth pass obj : List ℕ) → Closes p (Raw.obj_dump p sp auth pass obj)
  unfolding Raw.obj_dump
  obj_dump-Closes sp auth pass obj =
      if-Closes (not_uid auth || not_uid obj) _ _ (pure-Closes _) (dump_in-Closes _ sp auth pass _)

  pub raw_cmd-Closes :
      (sp auth pass inv method parms : List ℕ)
      → Closes p (Raw.raw_cmd p sp auth pass inv method parms)
  unfolding Raw.raw_cmd
  raw_cmd-Closes sp auth pass inv method parms =
      if-Closes (not_uid auth || not_uid inv || not_uid method) _ _ (pure-Closes _)
        (if-Closes (bad_parms parms) _ _ (pure-Closes _) (dump_in-Closes _ sp auth pass _))
