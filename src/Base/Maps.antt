-- ===== src/Base/Maps.antt =====
-- `unordered_map` as an association list with one entry for a key, and a store as a function.
use Prim.Native.Nat.{ℕ}
use Prim.Native.String.{String}
use mathlib.Core.Path.{◌≡◌, refl}
use mathlib.Core.List.{List, [], ◌∷◌}
use mathlib.Core.Option.{Option, none, some}
use native.Mathlib.Omega.{arith}
use text.Mathlib.Text.{◌==◌ as str_eq}
use text.Mathlib.TextEquality.{eq_iff}
use asyncflow.Base.Tests.{◌==◌, if◌then◌else◌}

-- A store of objects by pointer, after a write.
abbrev pub update {ℓ} : {A : Type ℓ} → (ℕ → A) → ℕ → A → ℕ → A
update f p v q = if p == q then v else f q

module _ {ℓ} {V : Type ℓ} where
  -- `find` on a map with integer keys.
  unfoldable pub lookup : ℕ → List (ℕ × V) → Option V
  lookup k [] = none
  lookup k ((j, v) ∷ m) = if j == k then some v else lookup k m

  -- `m[k] = v`
  unfoldable pub insert : ℕ → V → List (ℕ × V) → List (ℕ × V)
  insert k v [] = (k, v) ∷ []
  insert k v ((j, w) ∷ m) = if j == k then (k, v) ∷ m else (j, w) ∷ insert k v m

  unfoldable pub delete : ℕ → List (ℕ × V) → List (ℕ × V)
  delete k [] = []
  delete k ((j, w) ∷ m) = if j == k then delete k m else (j, w) ∷ delete k m

  pub lookup-insert :
      (put got : ℕ) (new : V) (m : List (ℕ × V))
      → lookup got (insert put new m) ≡ (if put == got then some new else lookup got m)
  unfolding lookup insert
  lookup-insert put got new [] = refl
  lookup-insert put got new (entry ∷ m) = ground (arith, lookup-insert put got new m)

  pub lookup-delete :
      (k j : ℕ) (m : List (ℕ × V)) → lookup j (delete k m) ≡ (if k == j then none else lookup j m)
  unfolding lookup delete
  lookup-delete k j [] = ground arith
  lookup-delete k j ((i, w) ∷ m) = ground (arith, lookup-delete k j m)

  -- The same on a map with string keys.
  unfoldable pub find_name : String → List (String × V) → Option V
  find_name k [] = none
  find_name k ((j, v) ∷ m) = if str_eq j k then some v else find_name k m

  unfoldable pub put_name : String → V → List (String × V) → List (String × V)
  put_name k v [] = (k, v) ∷ []
  put_name k v ((j, w) ∷ m) = if str_eq j k then (k, v) ∷ m else (j, w) ∷ put_name k v m

  pub find_name-put_name :
      (k j : String) (v : V) (m : List (String × V))
      → find_name j (put_name k v m) ≡ (if str_eq k j then some v else find_name j m)
  unfolding find_name put_name
  find_name-put_name k j v [] = refl
  find_name-put_name k j v ((i, w) ∷ m) =
      ground (arith, eq_iff k j, eq_iff i k, eq_iff i j, find_name-put_name k j v m)
