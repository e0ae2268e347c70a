-- ===== src/Outcome.antt =====
-- How a call of the program ends. The command and response classes call `exit(EXIT_FAILURE)`, and
-- index vectors without a test; the receive loop of `exec` has no bound of its own.
use sedutil.Prelude.{◌≡◌, ◌≢◌, refl, Option, none, some}

pub data Outcome {ℓ} (A : Type ℓ) : Type ℓ where
  done : A → Outcome A
  -- `exit(EXIT_FAILURE)`
  exit : Outcome A
  -- undefined behaviour: an index out of range, a read behind the buffer, a shift by the width
  fault : Outcome A
  -- the bound on the rounds of a loop is used up
  hung : Outcome A

infixl 5 ◌>>=◌
abbrev pub ◌>>=◌ {ℓ κ} : {A : Type ℓ} {B : Type κ} → Outcome A → (A → Outcome B) → Outcome B
done a >>= f = f a
exit >>= f = exit
fault >>= f = fault
hung >>= f = hung

-- What an index without a test gives.
abbrev pub or_fault {ℓ} : {A : Type ℓ} → Option A → Outcome A
or_fault none = fault
or_fault (some a) = done a

pub >>=-eq-done {ℓ κ} :
    {A : Type ℓ} {B : Type κ} (m : Outcome A) (f : A → Outcome B) {b : B}
    → (m >>= f) ≡ done b
    → (a : A) × (m ≡ done a) × (f a ≡ done b)
>>=-eq-done (done a) f h = (a, refl, h)
>>=-eq-done exit f h = cc
>>=-eq-done fault f h = cc
>>=-eq-done hung f h = cc

-- A chain ends if each of its calls ends.
pub bind-ne-hung {ℓ κ} :
    {A : Type ℓ} {B : Type κ} (m : Outcome A) (f : A → Outcome B)
    → m ≢ hung
    → ((a : A) → m ≡ done a → f a ≢ hung)
    → (m >>= f) ≢ hung
bind-ne-hung (done a) f h k = k a refl
bind-ne-hung exit f h k = λ e. cc
bind-ne-hung fault f h k = λ e. cc
bind-ne-hung hung f h k = absurd (h refl)
