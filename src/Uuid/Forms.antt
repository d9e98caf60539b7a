-- ===== src/Uuid/Forms.antt =====
-- NtoD after DtoN, and DtoN after NtoD (src/util/file.cpp).
use asyncflow.Base.{ℕ, zero, suc, ◌<◌, ◌≡◌, refl, arith, ◌==◌, inl, inr, Bool-cases, eqb→eq, sym}
use mathlib.Core.Path.{subst}
use asyncflow.Uuid.{n_to_d, d_to_n, dash_8, dash_4, plain_8, plain_4}

-- A predicate at the numbers below one.
abbrev Below {ℓ} : (ℕ → Type ℓ) → ℕ → Type ℓ
Below P zero = Unit
Below P (suc k) = P k × Below P k

infixr 20 ◌⋆◌
abbrev ◌⋆◌ {ℓ κ} : {A : Type ℓ} {B : Type κ} → A → B → A × B
a ⋆ b = (a, b)

below_at {ℓ} : (P : ℕ → Type ℓ) (k i : ℕ) → Below P k → i < k → P i
below_at P zero i all low = absurd (omega arith)
below_at P (suc k) i all low = elim (Bool-cases (k == i)) [
  | inl e ↦ subst P (eqb→eq k i e) all.0
  | inr e ↦ below_at P k i all.1 (ground arith)
]

module _ {ℓ} {A : Type ℓ} (dash : A) where
  -- A uuid that is given its dashes and then loses them is the same in its 32 digits, whatever the
  -- two buffers held; and one of 36 characters with its dashes in their places is the same after it
  -- has lost them and been given them again.
  pub n_to_d-d_to_n :
      (from plain dashed : ℕ → A)
      → from 8 ≡ dash
      → from 13 ≡ dash
      → from 18 ≡ dash
      → from 23 ≡ dash
      → ((i : ℕ) → i < 32 → d_to_n (n_to_d dash from dashed) plain i ≡ from i)
        × ((i : ℕ) → i < 36 → n_to_d dash (d_to_n from plain) dashed i ≡ from i)
  unfolding n_to_d d_to_n dash_8 dash_4 plain_8 plain_4
  n_to_d-d_to_n from plain dashed d8 d13 d18 d23 = (
    λ i low.
        below_at (λ i. d_to_n (n_to_d dash from dashed) plain i ≡ from i) 32 i
          (refl ⋆ refl ⋆ refl ⋆ refl ⋆ refl ⋆ refl ⋆ refl ⋆ refl ⋆ refl ⋆ refl ⋆ refl ⋆ refl ⋆ refl
            ⋆ refl ⋆ refl ⋆ refl ⋆ refl ⋆ refl ⋆ refl ⋆ refl ⋆ refl ⋆ refl ⋆ refl ⋆ refl ⋆ refl
            ⋆ refl ⋆ refl ⋆ refl ⋆ refl ⋆ refl ⋆ refl ⋆ refl ⋆ tt)
          low,
    λ i low.
        below_at (λ i. n_to_d dash (d_to_n from plain) dashed i ≡ from i) 36 i
          (refl
            ⋆ refl
            ⋆ refl
            ⋆ refl
            ⋆ refl
            ⋆ refl
            ⋆ refl
            ⋆ refl
            ⋆ refl
            ⋆ refl
            ⋆ refl
            ⋆ refl
            ⋆ sym d23
            ⋆ refl
            ⋆ refl
            ⋆ refl
            ⋆ refl
            ⋆ sym d18
            ⋆ refl
            ⋆ refl
            ⋆ refl
            ⋆ refl
            ⋆ sym d13
            ⋆ refl
            ⋆ refl
            ⋆ refl
            ⋆ refl
            ⋆ sym d8
            ⋆ refl
            ⋆ refl
            ⋆ refl
            ⋆ refl
            ⋆ refl
            ⋆ refl
            ⋆ refl
            ⋆ refl
            ⋆ tt)
          low,
  )
