-- ===== src/Uuid.antt =====
-- UuidUtil (src/util/file.cpp): a uuid of 32 digits, and the same with dashes. A buffer is a function
-- from an index to a character, and a loop writes its cells in the source's order.
use asyncflow.Base.{ℕ, zero, suc, ◌+◌, update}
pub mod Forms
pub mod Random

module _ {ℓ} {A : Type ℓ} where
  -- The rounds of the loop of NtoD for x < k, of the loops to 8 and to 4.
  unfoldable pub dash_8 : ℕ → (ℕ → A) → (ℕ → A) → ℕ → A
  dash_8 zero n d = d
  dash_8 (suc x) n d = update (update (dash_8 x n d) x (n x)) (24 + x) (n (20 + x))

  unfoldable pub dash_4 : ℕ → (ℕ → A) → (ℕ → A) → ℕ → A
  dash_4 zero n d = d
  dash_4 (suc x) n d =
      let d1 = update (update (dash_4 x n d) (9 + x) (n (8 + x))) (14 + x) (n (12 + x)) in
      update (update d1 (19 + x) (n (16 + x))) (32 + x) (n (28 + x))

  -- UuidUtil::NtoD, of the character for a dash.
  unfoldable pub n_to_d : A → (ℕ → A) → (ℕ → A) → ℕ → A
  n_to_d dash n d =
      dash_4 4 n (dash_8 8 n (update (update (update (update d 18 dash) 13 dash) 8 dash) 23 dash))

  unfoldable pub plain_8 : ℕ → (ℕ → A) → (ℕ → A) → ℕ → A
  plain_8 zero d n = n
  plain_8 (suc x) d n = update (update (plain_8 x d n) x (d x)) (20 + x) (d (24 + x))

  unfoldable pub plain_4 : ℕ → (ℕ → A) → (ℕ → A) → ℕ → A
  plain_4 zero d n = n
  plain_4 (suc x) d n =
      let n1 = update (update (plain_4 x d n) (8 + x) (d (9 + x))) (12 + x) (d (14 + x)) in
      update (update n1 (16 + x) (d (19 + x))) (28 + x) (d (32 + x))

  -- UuidUtil::DtoN
  unfoldable pub d_to_n : (ℕ → A) → (ℕ → A) → ℕ → A
  d_to_n d n = plain_4 4 d (plain_8 8 d n)
