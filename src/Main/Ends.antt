-- ===== src/Main/Ends.antt =====
-- Common/sedutil.cpp: the sessions that the main program leaves on the device.
use sedutil.Prelude.{
  ℕ, ◌≡◌, Bool, true, false, List, Option, ltb, length, ◌-◌, get_elem?, codes, none, some,
}
use sedutil.Outcome.{done, fault, or_fault}
use sedutil.Device.{Platform, DeviceClass, opal1, opal2, enterprise, DtaDev, M, pure}
use sedutil.Session.Course.{Sessions}
use sedutil.Opal.Closes.{Closes, pure-Closes, lift-Closes, >>=-Closes, if-Closes}
use sedutil.Options.{Action, DtaOptions}
use sedutil.Main.{arg, arg_from_end, dispatch, perform}
use sedutil.Main.Virtual.{Methods, methods_of}
use sedutil.Main.Closing.{Closing, methods_of-Closing}

abbrev pub reverts : Action → Bool
reverts Action.revert_locking_sp = true
reverts Action.revert_no_erase = true
reverts Action.revert_tper = true
reverts Action.psid_revert = true
reverts Action.psid_revert_admin_sp = true
reverts Action.yes_i_really_want_to_erase_all = true
reverts _ = false

with_arg-Closes {ℓ} :
    {p : Platform} {A : Type ℓ} (argv : List (List ℕ)) (i : ℕ) (k : List ℕ → M A)
    → ((word : List ℕ) → Closes p (k word))
    → Closes p (sedutil.Device.◌>>=◌ (arg argv i) k)
with_arg-Closes argv i k h = >>=-Closes _ k (lift-Closes _) h

from_end-Closes {ℓ} :
    {p : Platform} {A : Type ℓ} (argv : List (List ℕ)) (n : ℕ) (k : List ℕ → M A)
    → ((word : List ℕ) → Closes p (k word))
    → Closes p (sedutil.Device.◌>>=◌ (arg_from_end argv n) k)
from_end-Closes argv n k h =
    >>=-Closes _ k
      (if-Closes (ltb (length argv) n) _ _ (lift-Closes fault)
        (lift-Closes (or_fault (get_elem? argv (length argv - n)))))
      h

module _ (file : List ℕ → Option (List ℕ)) (argv : List (List ℕ)) (opts : DtaOptions) (p : Platform)
    (ms : Methods) (h : Closing p ms) where
  pub perform-Closes : (a : Action) → reverts a ≡ false → Closes p (perform file argv opts ms a)
  unfolding perform
  perform-Closes Action.initial_setup q = with_arg-Closes argv _ _ (λ pw. h.initial_setup pw)
  perform-Closes Action.setup_sum q = with_arg-Closes argv _ _ (λ start.
      with_arg-Closes argv _ _ (λ len.
        with_arg-Closes argv _ _
          (λ admin. with_arg-Closes argv _ _ (λ new. h.setup_sum _ _ _ admin new))))
  perform-Closes Action.set_sid_password q =
      with_arg-Closes argv _ _ (λ old. with_arg-Closes argv _ _ (λ new. h.set_sid_password old new))
  perform-Closes Action.set_admin1_pwd q =
      with_arg-Closes argv _ _
        (λ old. with_arg-Closes argv _ _ (λ new. h.set_password old (codes "Admin1") new))
  perform-Closes Action.load_pba_image q =
      with_arg-Closes argv _ _ (λ pw. with_arg-Closes argv _ _ (λ f. h.load_pba pw (file f)))
  perform-Closes Action.print_locking_range_status q =
      with_arg-Closes argv _ _ (λ pw. h.print_locking_range_status _ pw)
  perform-Closes Action.set_locking_range q =
      with_arg-Closes argv _ _ (λ pw. h.set_locking_range _ opts.lockingstate pw)
  perform-Closes Action.set_locking_range_sum q =
      with_arg-Closes argv _ _ (λ pw. h.set_locking_range_sum _ opts.lockingstate pw)
  perform-Closes Action.enable_locking_range q =
      with_arg-Closes argv _ _ (λ pw. h.configure_locking_range _ 3 pw)
  perform-Closes Action.disable_locking_range q =
      with_arg-Closes argv _ _ (λ pw. h.configure_locking_range _ 0 pw)
  perform-Closes Action.readonly_locking_range q =
      with_arg-Closes argv _ _ (λ pw. h.configure_locking_range _ 2 pw)
  perform-Closes Action.setup_locking_range q = with_arg-Closes argv _ _ (λ start.
      with_arg-Closes argv _ _
        (λ len. with_arg-Closes argv _ _ (λ pw. h.setup_locking_range _ _ _ pw)))
  perform-Closes Action.setup_locking_range_sum q = with_arg-Closes argv _ _ (λ start.
      with_arg-Closes argv _ _
        (λ len. with_arg-Closes argv _ _ (λ pw. h.setup_locking_range_sum _ _ _ pw)))
  perform-Closes Action.list_locking_ranges q =
      with_arg-Closes argv _ _ (λ pw. h.list_locking_ranges none pw)
  perform-Closes Action.list_locking_range q =
      with_arg-Closes argv _ _ (λ pw. h.list_locking_ranges (some _) pw)
  perform-Closes Action.rekey_locking_range q =
      with_arg-Closes argv _ _ (λ pw. h.rekey_locking_range _ pw)
  perform-Closes Action.set_bands_enabled q =
      with_arg-Closes argv _ _ (λ pw. h.set_bands_enabled none pw)
  perform-Closes Action.set_band_enabled q =
      with_arg-Closes argv _ _ (λ pw. h.set_bands_enabled (some _) pw)
  perform-Closes Action.set_mbr_done q =
      with_arg-Closes argv _ _ (λ pw. h.set_mbr_done opts.mbrstate pw)
  perform-Closes Action.set_mbr_enable q =
      with_arg-Closes argv _ _ (λ pw. h.set_mbr_enable opts.mbrstate pw)
  perform-Closes Action.enable_user q =
      with_arg-Closes argv _ _ (λ pw. with_arg-Closes argv _ _ (λ user. h.enable_user pw user))
  perform-Closes Action.activate_locking_sp q =
      with_arg-Closes argv _ _ (λ pw. h.activate_locking_sp pw)
  perform-Closes Action.activate_locking_sp_sum q =
      with_arg-Closes argv _ _ (λ pw. h.activate_locking_sp_sum _ pw)
  perform-Closes Action.erase_locking_range_sum q =
      with_arg-Closes argv _ _ (λ pw. h.erase_locking_range_sum _ pw)
  perform-Closes Action.query q = pure-Closes _
  perform-Closes Action.take_ownership q = with_arg-Closes argv _ _ (λ pw. h.take_ownership pw)
  perform-Closes Action.revert_locking_sp q = cc q
  perform-Closes Action.set_password q = with_arg-Closes argv _ _ (λ old.
      with_arg-Closes argv _ _
        (λ user. with_arg-Closes argv _ _ (λ new. h.set_password old user new)))
  perform-Closes Action.set_password_sum q = with_arg-Closes argv _ _ (λ old.
      with_arg-Closes argv _ _
        (λ user. with_arg-Closes argv _ _ (λ new. h.set_new_password_sum old user new)))
  perform-Closes Action.revert_tper q = cc q
  perform-Closes Action.revert_no_erase q = cc q
  perform-Closes Action.yes_i_really_want_to_erase_all q = cc q
  perform-Closes Action.psid_revert q = cc q
  perform-Closes Action.psid_revert_admin_sp q = cc q
  perform-Closes Action.erase_locking_range q =
      with_arg-Closes argv _ _ (λ pw. h.erase_locking_range _ pw)
  perform-Closes Action.obj_dump q = from_end-Closes argv _ _ (λ sp.
      from_end-Closes argv _ _ (λ auth.
        from_end-Closes argv _ _
          (λ pass. from_end-Closes argv _ _ (λ obj. h.obj_dump sp auth pass obj))))
  perform-Closes Action.print_default_password q = h.print_default_password
  perform-Closes Action.raw_cmd q = from_end-Closes argv _ _ (λ sp.
      from_end-Closes argv _ _ (λ auth. from_end-Closes argv _ _ (λ pass.
        from_end-Closes argv _ _ (λ invoking. from_end-Closes argv _ _ (λ method.
          from_end-Closes argv _ _ (λ parms. h.raw_cmd sp auth pass invoking method parms))))))
  perform-Closes Action.scan q = pure-Closes _
  perform-Closes Action.is_valid_sed q = pure-Closes _
  perform-Closes Action.validate_pbkdf2 q = pure-Closes _
  perform-Closes Action.deadbeef q = pure-Closes _

-- With a device of any of the three classes, an action that is no revert and that returns sends
-- nothing but a chain of sessions, and each of the chain is ended: it has the two numbers of 32
-- bits that the reply to its StartSession call gives it, where the call went well, and the end of
-- the session with these numbers is the last command before the next one of the chain starts.
-- Nothing is said of what is sent within a session, and a session that is dropped before its start
-- is ended under the numbers 0. So it is for every command line and every answer of the drive.
pub dispatch-Closes :
    (p : Platform) (class : DeviceClass) (file : List ℕ → Option (List ℕ)) (argv : List (List ℕ))
    (opts : DtaOptions) (d : DtaDev) (rc : ℕ) (d' : DtaDev)
    → reverts opts.action ≡ false
    → dispatch file argv opts (methods_of p class) d ≡ done (rc, d')
    → Sessions p d d'
dispatch-Closes p class file argv opts d rc d' other =
    perform-Closes file argv opts p (methods_of p class) (methods_of-Closing p class) opts.action
      other d rc d'
