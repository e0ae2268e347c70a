-- ===== src/Prelude/Lists.antt =====
-- Lists measured and indexed by native numbers, under the library's names, and memory as a list.
use Prim.Native.Nat.{ℕ, zero, suc, ◌+◌, ◌<◌}
use Prim.Native.Char.{code}
use Prim.Native.String.{String}
use mathlib.Core.Path.{◌≡◌, refl, ap}
use mathlib.Core.List.{List, [], ◌∷◌, ◌++◌}
use mathlib.Core.Option.{Option, none, some}
use native.Mathlib.Omega.{arith}

module _ {ℓ} {A : Type ℓ} where
  abbrev pub length : List A → ℕ
  length [] = 0
  length (x ∷ xs) = suc (length xs)

  abbrev pub get_elem? : List A → ℕ → Option A
  get_elem? [] i = none
  get_elem? (x ∷ xs) zero = some x
  get_elem? (x ∷ xs) (suc i) = get_elem? xs i

  -- A write out of bounds changes nothing.
  abbrev pub set : List A → ℕ → A → List A
  set [] i v = []
  set (x ∷ xs) zero v = v ∷ xs
  set (x ∷ xs) (suc i) v = x ∷ set xs i v

  abbrev pub take : ℕ → List A → List A
  take zero xs = []
  take (suc n) [] = []
  take (suc n) (x ∷ xs) = x ∷ take n xs

  abbrev pub drop : ℕ → List A → List A
  drop zero xs = xs
  drop (suc n) [] = []
  drop (suc n) (x ∷ xs) = drop n xs

  abbrev pub replicate : ℕ → A → List A
  replicate zero a = []
  replicate (suc n) a = a ∷ replicate n a

  abbrev pub All {κ} : (A → Type κ) → List A → Type κ
  All P [] = Unit {κ}
  All P (x ∷ xs) = P x × All P xs

module _ {ℓ} {A : Type ℓ} where
  pub length-append : (xs ys : List A) → length (xs ++ ys) ≡ length xs + length ys
  length-append [] ys = omega arith
  length-append (x ∷ xs) ys = omega (arith, length-append xs ys)

  pub take-append : (xs ys : List A) → take (length xs) (xs ++ ys) ≡ xs
  take-append [] ys = refl
  take-append (x ∷ xs) ys = ap (λ l. x ∷ l) (take-append xs ys)

  pub drop-append : (xs ys : List A) → drop (length xs) (xs ++ ys) ≡ ys
  drop-append [] ys = refl
  drop-append (x ∷ xs) ys = drop-append xs ys

  pub get_elem?-append :
      (xs ys : List A) (i : ℕ) → get_elem? (xs ++ ys) (length xs + i) ≡ get_elem? ys i
  get_elem?-append [] ys i = let e : 0 + i ≡ i = omega arith in rw e
  get_elem?-append (x ∷ xs) ys i =
      let e : suc (length xs) + i ≡ suc (length xs + i) = omega arith in
      rw e (get_elem?-append xs ys i)

  pub length-replicate : (n : ℕ) (a : A) → length (replicate n a) ≡ n
  length-replicate zero a = refl
  length-replicate (suc n) a = ap suc (length-replicate n a)

  pub All-append {κ} : (P : A → Type κ) (xs ys : List A) → All P xs → All P ys → All P (xs ++ ys)
  All-append P [] ys hx hy = hy
  All-append P (x ∷ xs) ys hx hy = (hx.0, All-append P xs ys hx.1 hy)

-- The bytes of an ASCII text.
abbrev pub codes : String → List ℕ
codes String.[] = []
codes (String.◌∷◌ c s) = code c ∷ codes s

-- A write to zeroed memory: what the list does not hold is 0.
abbrev pub poke : List ℕ → ℕ → ℕ → List ℕ
poke [] zero v = v ∷ []
poke [] (suc i) v = 0 ∷ poke [] i v
poke (x ∷ xs) zero v = v ∷ xs
poke (x ∷ xs) (suc i) v = x ∷ poke xs i v

pub poke-length : (m : List ℕ) (v : ℕ) → poke m (length m) v ≡ m ++ v ∷ []
poke-length [] v = refl
poke-length (x ∷ m) v = ap (λ l. x ∷ l) (poke-length m v)

pub length-poke : (m : List ℕ) (i v : ℕ) → i < length m → length (poke m i v) ≡ length m
length-poke [] i v h = elim h [ ]
length-poke (x ∷ m) zero v h = refl
length-poke (x ∷ m) (suc i) v h = ap suc (length-poke m i v (omega arith))

-- A write at an index that the front holds leaves the back alone.
pub poke-append : (m n : List ℕ) (i v : ℕ) → i < length m → poke (m ++ n) i v ≡ poke m i v ++ n
poke-append [] n i v h = elim h [ ]
poke-append (x ∷ m) n zero v h = refl
poke-append (x ∷ m) n (suc i) v h = ap (λ l. x ∷ l) (poke-append m n i v (omega arith))

pub poke-middle : (m n : List ℕ) (x v : ℕ) → poke (m ++ (x ∷ n)) (length m) v ≡ m ++ (v ∷ n)
poke-middle [] n x v = refl
poke-middle (y ∷ m) n x v = ap (λ l. y ∷ l) (poke-middle m n x v)
