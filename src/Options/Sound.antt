-- ===== src/Options/Sound.antt =====
-- Common/DtaOptions.cpp: what holds of every option, and of the arguments.
use sedutil.Prelude.{
  ℕ, zero, suc, ◌+◌, ◌≤◌, ◌≡◌, refl, subst, arith, Bool, true, false, not, ◌&&◌, ◌||◌, List, [],
  ◌∷◌, some, length, get_elem?, ltb, ◌==◌, All, inl, inr, Bool-cases,
}
use sedutil.Outcome.{done}
use sedutil.Options.{
  Action, deadbeef, enable_user, scan, validate_pbkdf2, CommandOption, find, same_word, second,
  behind_dashes, has_dashes,
}
use sedutil.Options.Table.{options}
use sedutil.Options.Steps.{consumed, tested, ends_with_device}

-- The option that takes an argument more than it counts.
abbrev pub excess : Action → ℕ
excess enable_user = 1
excess _ = 0

abbrev pub takes_device : Action → Bool
takes_device deadbeef = false
takes_device scan = false
takes_device validate_pbkdf2 = false
takes_device _ = true

-- What holds of every option of the table.
abbrev pub is_sound : CommandOption → Bool
is_sound o =
    not (ltb o.count (tested o.steps))
    && ((consumed o.steps == o.count + excess o.action)
        && (not (takes_device o.action) || ends_with_device o.steps))

both-true : (a b : Bool) → (a && b) ≡ true → (a ≡ true) × (b ≡ true)
both-true true true h = (refl, refl)
both-true true false h = cc h
both-true false b h = cc h

pub sound-parts :
    (t c k x : ℕ) (takes ends : Bool)
    → (not (ltb c t) && ((k == c + x) && (not takes || ends))) ≡ true
    → (k ≡ c + x) × (t ≤ c) × (takes ≡ true → ends ≡ true)
sound-parts t c k x takes ends h =
    let (fits, rest) = both-true (not (ltb c t)) ((k == c + x) && (not takes || ends)) h in
    let (goes, last) = both-true (k == c + x) (not takes || ends) rest in
    (ground arith, ground arith, λ q. rw q at last)

pub excess-small : (a : Action) → excess a ≤ 1
excess-small enable_user = omega arith
excess-small _ = omega arith

abbrev pub all_sound : List CommandOption → Bool
all_sound [] = true
all_sound (o ∷ os) = is_sound o && all_sound os

pub options_sound : all_sound options ≡ true
unfolding options
options_sound = refl

pub find_sound :
    (word : List ℕ) (table : List CommandOption) (o : CommandOption)
    → all_sound table ≡ true
    → find word table ≡ some o
    → is_sound o ≡ true
unfolding find
find_sound word [] o s h = cc h
find_sound word (x ∷ table) o s h =
    let (first, others) = both-true (is_sound x) (all_sound table) s in
    elim (Bool-cases (same_word x.name word)) [
      | inl e ↦ let same : x ≡ o = cc (rw e at h) in subst (λ y. is_sound y ≡ true) same first
      | inr e ↦ find_sound word table o others (rw e at h)
    ]

abbrev pub NotEmpty : List ℕ → Type 0
NotEmpty arg = 1 ≤ length arg

pub second-done : (arg : List ℕ) → NotEmpty arg → (c : ℕ) × (second arg ≡ done c)
unfolding second
second-done [] h = elim h [ ]
second-done (a ∷ []) h = (0, refl)
second-done (a ∷ b ∷ arg) h = (b, refl)

pub behind_dashes-done :
    (arg : List ℕ) → has_dashes arg ≡ true → (word : List ℕ) × (behind_dashes arg ≡ done word)
unfolding behind_dashes
behind_dashes-done [] h = cc h
behind_dashes-done (a ∷ []) h = cc h
behind_dashes-done (a ∷ b ∷ word) h = (word, refl)

pub All-get_elem? {ℓ} :
    {A : Type ℓ} (P : A → Type 0) (l : List A) (i : ℕ) (x : A)
    → All P l
    → get_elem? l i ≡ some x
    → P x
All-get_elem? P [] i x h e = cc e
All-get_elem? P (y ∷ l) zero x h e = let q : y ≡ x = cc e in subst P q h.0
All-get_elem? P (y ∷ l) (suc i) x h e = All-get_elem? P l i x h.1 e
