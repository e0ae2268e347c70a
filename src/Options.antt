-- ===== src/Options.antt =====
-- Common/DtaOptions.cpp and Common/DtaOptions.h: the command line. An argument is the list of its
-- bytes before the terminating zero. What is read behind it, or behind the arguments, is a fault.
-- The level of logging is not kept.
pub mod Table
pub mod Steps
pub mod Sound
pub mod Parsed
mod Tests
use sedutil.Prelude.{
  ℕ, zero, suc, ◌+◌, ◌%◌, ◌^◌, Bool, true, false, not, ◌&&◌, ◌||◌, List, [], ◌∷◌, Option, none,
  some, length, get_elem?, ltb, ◌==◌, bytes_eq, if◌then◌else◌, codes,
}
use sedutil.Outcome.{Outcome, done, fault, hung, ◌>>=◌, or_fault}
use sedutil.Lexicon.Status.{error_code, invalid_command}

-- `sedutiloption`, where the first one says that no action was specified
pub data Action : Type 0 where
  deadbeef initial_setup set_sid_password setup_sum set_admin1_pwd set_password : Action
  set_password_sum load_pba_image print_locking_range_status set_locking_range : Action
  revert_tper revert_no_erase set_locking_range_sum revert_locking_sp psid_revert : Action
  psid_revert_admin_sp yes_i_really_want_to_erase_all enable_locking_range : Action
  disable_locking_range readonly_locking_range setup_locking_range : Action
  setup_locking_range_sum list_locking_ranges list_locking_range : Action
  rekey_locking_range set_bands_enabled set_band_enabled set_mbr_enable : Action
  set_mbr_done enable_user activate_locking_sp activate_locking_sp_sum : Action
  erase_locking_range_sum query scan is_valid_sed erase_locking_range : Action
  take_ownership validate_pbkdf2 obj_dump print_default_password raw_cmd : Action

-- `sedutiloutput`
pub data OutputFormat : Type 0 where
  normal readable json : OutputFormat

-- `DTA_OPTIONS`: the first seven fields are indices of arguments.
pub record DtaOptions : Type 0 where
  pub password : ℕ
  pub userid : ℕ
  pub newpassword : ℕ
  pub pbafile : ℕ
  pub device : ℕ
  pub lrstart : ℕ
  pub lrlength : ℕ
  pub action : Action
  pub mbrstate : ℕ
  pub lockingrange : ℕ
  pub lockingstate : ℕ
  pub no_hash_passwords : Bool
  pub output_format : OutputFormat

-- After the memset.
abbrev pub no_options : DtaOptions
no_options = record {
  password = 0;
  userid = 0;
  newpassword = 0;
  pbafile = 0;
  device = 0;
  lrstart = 0;
  lrlength = 0;
  action = deadbeef;
  mbrstate = 0;
  lockingrange = 0;
  lockingstate = 0;
  no_hash_passwords = false;
  output_format = normal;
}

pub data Field : Type 0 where
  password_field userid_field newpassword_field pbafile_field device_field lrstart_field
        lrlength_field :
      Field

abbrev pub set_field : Field → ℕ → DtaOptions → DtaOptions
set_field password_field i opts = record opts { password = i }
set_field userid_field i opts = record opts { userid = i }
set_field newpassword_field i opts = record opts { newpassword = i }
set_field pbafile_field i opts = record opts { pbafile = i }
set_field device_field i opts = record opts { device = i }
set_field lrstart_field i opts = record opts { lrstart = i }
set_field lrlength_field i opts = record opts { lrlength = i }

-- The fields that a `TESTARG` sets.
pub data Target : Type 0 where
  mbrstate_target lockingrange_target lockingstate_target : Target

abbrev pub set_target : Target → ℕ → DtaOptions → DtaOptions
set_target mbrstate_target v opts = record opts { mbrstate = v }
set_target lockingrange_target v opts = record opts { lockingrange = v }
set_target lockingstate_target v opts = record opts { lockingstate = v }

-- What stands between `BEGIN_OPTION` and `END_OPTION`: a run of `TESTARG` with its `TESTFAIL`,
-- `OPTION_IS`, and arguments that are passed over.
pub data Step : Type 0 where
  one_of : Target → List (List ℕ × ℕ) → Step
  option_is : Field → Step
  skip : ℕ → Step

-- An option: its name, its action, the number of its arguments for `CHECKARGS`, and its steps.
pub record CommandOption : Type 0 where
  pub name : List ℕ
  pub action : Action
  pub count : ℕ
  pub steps : List Step

-- `strcasecmp`, as a test for equality
abbrev pub lower : ℕ → ℕ
lower c = if not (ltb c 65) && ltb c 91 then c + 32 else c

abbrev pub same_word : List ℕ → List ℕ → Bool
same_word [] [] = true
same_word [] (_ ∷ _) = false
same_word (_ ∷ _) [] = false
same_word (a ∷ word) (b ∷ other) = (lower a == lower b) && same_word word other

abbrev pub choose : List ℕ → List (List ℕ × ℕ) → Option ℕ
choose word [] = none
choose word ((literal, v) ∷ choices) =
    if same_word literal word then some v else choose word choices

unfoldable pub find : List ℕ → List CommandOption → Option CommandOption
find word [] = none
find word (o ∷ os) = let rest = find word os in if same_word o.name word then some o else rest

-- How a part of the parsing ends: the program returns a code, or it goes on.
pub data Progress : Type 0 where
  stop : ℕ → Progress
  go : ℕ → DtaOptions → Progress

abbrev pub on_progress {ℓ} :
    {A : Type ℓ} → (ℕ → Outcome A) → (ℕ → DtaOptions → Outcome A) → Progress → Outcome A
on_progress stopped more (stop rc) = stopped rc
on_progress stopped more (go i opts) = more i opts

-- `++i` of an uint8_t
abbrev pub next : ℕ → ℕ
next i = (i + 1) % 2 ^ 8

abbrev pub take_choice : Option ℕ → Target → ℕ → DtaOptions → Progress
take_choice none target i opts = stop 1
take_choice (some v) target i opts = go (next i) (set_target target v opts)

-- A step, at the argument `i`.
unfoldable pub run_step : List (List ℕ) → Step → ℕ → DtaOptions → Outcome Progress
run_step argv (one_of target choices) i opts = do
  word ← or_fault (get_elem? argv (i + 1))
  done (take_choice (choose word choices) target i opts)
run_step argv (option_is field) i opts = done (go (next i) (set_field field (next i) opts))
run_step argv (skip n) i opts = done (go ((i + n) % 2 ^ 8) opts)

unfoldable pub run_steps : List (List ℕ) → List Step → ℕ → DtaOptions → Outcome Progress
run_steps argv [] i opts = done (go i opts)
run_steps argv (s ∷ steps) i opts =
    run_step argv s i opts
    >>= on_progress (λ rc. done (stop rc)) (λ i' opts'. run_steps argv steps i' opts')

-- argv[i][1]
unfoldable pub second : List ℕ → Outcome ℕ
second [] = fault
second (_ ∷ []) = done 0
second (_ ∷ c ∷ _) = done c

-- &argv[i][2]
unfoldable pub behind_dashes : List ℕ → Outcome (List ℕ)
behind_dashes (_ ∷ _ ∷ word) = done word
behind_dashes _ = fault

abbrev pub has_dashes : List ℕ → Bool
has_dashes (a ∷ b ∷ _) = (a == 45) && (b == 45)
has_dashes _ = false

abbrev pub no_action : Action → Bool
no_action deadbeef = true
no_action _ = false

-- What the parsing gives: a return code, or the options.
pub data Result : Type 0 where
  failed : ℕ → Result
  parsed : DtaOptions → Result

abbrev pub on_flag :
    Option DtaOptions → (DtaOptions → Outcome Result) → Outcome Result → Outcome Result
on_flag (some opts) flag command = flag opts
on_flag none flag command = command

module _ (table : List CommandOption) (argv : List (List ℕ)) where
  abbrev pub chosen : Option CommandOption → ℕ → ℕ → DtaOptions → Outcome Progress
  chosen none i base opts = done (stop (error_code invalid_command))
  chosen (some o) i base opts =
      if o.count + base == length argv
      then run_steps argv o.steps i (record opts { action = o.action })
      else done (stop 100)

  -- The branches for a command.
  unfoldable pub parse_command : List ℕ → ℕ → ℕ → DtaOptions → Outcome Progress
  parse_command arg i base opts =
      if not (has_dashes arg) && no_action opts.action
      then done (stop (error_code invalid_command))
      else (do word ← behind_dashes arg; chosen (find word table) i base opts)

  -- The branches for a flag; the options that the flag leaves, or none for a command.
  unfoldable pub read_flag : List ℕ → ℕ → DtaOptions → Option DtaOptions
  read_flag arg c opts =
      if c == 118
      then some opts
      else if bytes_eq (codes "-n") arg
      then some (record opts { no_hash_passwords = true })
      else if bytes_eq (codes "-l") arg
      then some (record opts { output_format = normal })
      else none

  -- The loop over the arguments.
  unfoldable pub parse_from : ℕ → ℕ → ℕ → DtaOptions → Outcome Result
  parse_from zero i base opts = hung
  parse_from (suc fuel) i base opts =
      if ltb i (length argv)
      then (do
        arg ← or_fault (get_elem? argv i)
        if bytes_eq (codes "-h") arg || bytes_eq (codes "--help") arg
            then done (failed (error_code invalid_command))
            else (do
              c ← second arg
              on_flag (read_flag arg c opts)
                  (λ opts'. parse_from fuel (next i) ((base + 1) % 2 ^ 8) opts')
                  (parse_command arg i base opts
                    >>= on_progress (λ rc. done (failed rc))
                        (λ i' opts'. parse_from fuel (next i') base opts'))))
      else done (parsed opts)
