-- ===== src/Base/Lists.antt =====
-- Vectors and deques as lists, measured and indexed by native numbers.
use Prim.Native.Nat.{ℕ, zero, suc, ◌+◌, ◌≤◌}
use mathlib.Core.Path.{◌≡◌, refl}
use mathlib.Core.Logic.{◌⊎◌, inl, inr}
use mathlib.Core.List.{List, [], ◌∷◌, ◌++◌}
use mathlib.Core.Bool.{Bool, false, ◌||◌}
use mathlib.Core.Option.{Option, none, some}
use native.Mathlib.Omega.{arith}
use asyncflow.Base.Tests.{◌==◌, if◌then◌else◌}

module _ {ℓ} {A : Type ℓ} where
  abbrev pub length : List A → ℕ
  length [] = 0
  length (x ∷ xs) = suc (length xs)

  abbrev pub get_elem? : List A → ℕ → Option A
  get_elem? [] i = none
  get_elem? (x ∷ xs) zero = some x
  get_elem? (x ∷ xs) (suc i) = get_elem? xs i

  -- A write out of bounds changes nothing.
  abbrev pub set : List A → ℕ → A → List A
  set [] i v = []
  set (x ∷ xs) zero v = v ∷ xs
  set (x ∷ xs) (suc i) v = x ∷ set xs i v

  pub List-cases : (xs : List A) → (xs ≡ []) ⊎ ((x : A) × (ys : List A) × (xs ≡ x ∷ ys))
  List-cases [] = inl refl
  List-cases (x ∷ xs) = inr (x, xs, refl)

  pub length-append : (xs ys : List A) → length (xs ++ ys) ≡ length xs + length ys
  length-append [] ys = omega arith
  length-append (x ∷ xs) ys = omega (arith, length-append xs ys)

  pub get_elem?-none : (xs : List A) (i : ℕ) → length xs ≤ i → get_elem? xs i ≡ none
  get_elem?-none [] i l = refl
  get_elem?-none (x ∷ xs) zero l = absurd (ground arith)
  get_elem?-none (x ∷ xs) (suc i) l = get_elem?-none xs i (ground arith)

  pub get_elem?-some :
      (xs : List A) (i : ℕ) → suc i ≤ length xs → (x : A) × (get_elem? xs i ≡ some x)
  get_elem?-some [] i l = absurd (ground arith)
  get_elem?-some (x ∷ xs) zero l = (x, refl)
  get_elem?-some (x ∷ xs) (suc i) l = get_elem?-some xs i (ground arith)

  pub get_elem?-below : (xs : List A) (i : ℕ) (x : A) → get_elem? xs i ≡ some x → suc i ≤ length xs
  get_elem?-below [] i x e = absurd (ground arith)
  get_elem?-below (y ∷ ys) zero x e = ground arith
  get_elem?-below (y ∷ ys) (suc i) x e = ground (arith, get_elem?-below ys i x e)

  abbrev pub All {κ} : (A → Type κ) → List A → Type κ
  All P [] = Unit
  All P (x ∷ xs) = P x × All P xs

-- Membership of a pointer or an id.
abbrev pub mem : ℕ → List ℕ → Bool
mem a [] = false
mem a (x ∷ xs) = (x == a) || mem a xs

-- `std::list::remove` and `erase(std::remove(..))`: every occurrence goes.
abbrev pub without : ℕ → List ℕ → List ℕ
without a [] = []
without a (x ∷ xs) = if x == a then without a xs else x ∷ without a xs

pub mem-without :
    (a b : ℕ) (xs : List ℕ) → mem b (without a xs) ≡ (if a == b then false else mem b xs)
mem-without a b [] = ground arith
mem-without a b (x ∷ xs) = ground (arith, mem-without a b xs)

pub mem-append : (a : ℕ) (xs ys : List ℕ) → mem a (xs ++ ys) ≡ (mem a xs || mem a ys)
mem-append a [] ys = refl
mem-append a (x ∷ xs) ys = ground (arith, mem-append a xs ys)

pub length-without : (a : ℕ) (xs : List ℕ) → length (without a xs) ≤ length xs
length-without a [] = omega arith
length-without a (x ∷ xs) = ground (arith, length-without a xs)
