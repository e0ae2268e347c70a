-- ===== src/Options/Tests.antt =====
-- Tests of the options.
use sedutil.Prelude.{ℕ, List, [], ◌∷◌, ◌≡◌, refl, codes, length, get_elem?, none, arith}
use sedutil.Outcome.{done, fault}
use sedutil.Options.{
  Result, failed, parsed, no_options, set_locking_range, enable_user, find, run_step, run_steps,
  second, behind_dashes, parse_command, read_flag, parse_from,
}
use sedutil.Options.Table.{options, dta_options}
use sedutil.Options.Parsed.{Fine, dta_options-Fine}

abbrev set_range_argv : List (List ℕ)
set_range_argv =
    codes "sedutil-cli"
    ∷ codes "-n"
    ∷ codes "--setLockingRange"
    ∷ codes "3"
    ∷ codes "RO"
    ∷ codes "pw"
    ∷ codes "/dev/sda"
    ∷ []

abbrev enable_user_argv : List (List ℕ)
enable_user_argv = codes "sedutil-cli" ∷ codes "--enableuser" ∷ codes "pw" ∷ codes "User1" ∷ []

dta_options-Fine_example :
    (r : Result) × (dta_options set_range_argv ≡ done r) × Fine set_range_argv r
dta_options-Fine_example = dta_options-Fine set_range_argv (ground arith) (omega arith)

set_range_options :
    dta_options set_range_argv
    ≡ done (
        parsed (record no_options {
          action = set_locking_range;
          no_hash_passwords = sedutil.Prelude.true;
          lockingrange = 3;
          lockingstate = 2;
          password = 5;
          device = 6;
        }))
unfolding find run_step run_steps second behind_dashes parse_command read_flag parse_from options
    dta_options
set_range_options = refl

enable_user_options :
    dta_options enable_user_argv
    ≡ done
        (parsed (record no_options { action = enable_user; password = 2; userid = 3; device = 4 }))
unfolding find run_step run_steps second behind_dashes parse_command read_flag parse_from options
    dta_options
enable_user_options = refl

-- A device named behind the user is one argument too many.
enable_user_refused :
    dta_options (
      codes "sedutil-cli"
      ∷ codes "--enableuser"
      ∷ codes "pw"
      ∷ codes "User1"
      ∷ codes "/dev/sda"
      ∷ [])
    ≡ done (failed 100)
unfolding find run_step run_steps second behind_dashes parse_command read_flag parse_from options
    dta_options
enable_user_refused = refl

-- An empty argument is read behind its end, as `-` alone is for a command.
short_faults : dta_options (codes "sedutil-cli" ∷ [] ∷ []) ≡ fault
unfolding second parse_from options dta_options
short_faults = refl
