-- ===== src/Uuid/Random.antt =====
-- Manager::uuid4_str (src/core/manager.cpp). `draw` is the sequence of the numbers of 64 bits that
-- the generator gives, and `encode` the table of the digits.
use asyncflow.Base.{
  ◌+◌, ◌-◌, ◌*◌, ◌/◌, ◌%◌, ◌^◌, ◌<◌, ◌≡◌, ◌==◌, ℕ, suc, refl, inl, inr, zero, arith, Bool-cases,
  update, ap,
}

-- `(r & 0xFFFFFFFFFFFF0FFF) | 0x4000`
unfoldable pub set_version : ℕ → ℕ
set_version r = r / 2 ^ 16 * 2 ^ 16 + 4 * 2 ^ 12 + r % 2 ^ 12

-- `tmp >> 4 * bit & 0x0f`
unfoldable pub digit : ℕ → ℕ → ℕ
digit tmp bit = tmp / 2 ^ (4 * bit) % 16

digit_below : (n : ℕ) → n % 16 < 16
digit_below n = omega arith

digit_version : (r : ℕ) → digit (set_version r) 3 ≡ 4
unfolding digit set_version
digit_version r = omega arith

module _ {ℓ} {A : Type ℓ} (encode : ℕ → A) (draw : ℕ → ℕ) where
  -- The first k rounds of the first loop.
  unfoldable pub first_half : ℕ → (ℕ → A) → ℕ → A
  first_half zero s = s
  first_half (suc i) s = update (first_half i s) i (encode (digit (set_version (draw 0)) (15 - i)))

  -- The first k rounds of the second loop. The number that it was to encode is the draw 1, but each
  -- round makes a draw of its own.
  unfoldable pub second_half : ℕ → (ℕ → A) → ℕ → A
  second_half zero s = s
  second_half (suc i) s = update (second_half i s) (16 + i) (encode (digit (draw (2 + i)) (15 - i)))

  -- Manager::uuid4_str, which takes 18 draws.
  unfoldable pub uuid4_str : ℕ → A
  uuid4_str = second_half 16 (first_half 16 (λ i. encode 0))

  -- A cell holds a digit.
  abbrev IsDigit : A → Type ℓ
  IsDigit c = (n : ℕ) × (n < 16) × (c ≡ encode n)

  digit-IsDigit : (tmp bit : ℕ) → IsDigit (encode (digit tmp bit))
  unfolding digit
  digit-IsDigit tmp bit = (tmp / 2 ^ (4 * bit) % 16, digit_below (tmp / 2 ^ (4 * bit)), refl)

  first_half-IsDigit :
      (k : ℕ) (s : ℕ → A) → ((i : ℕ) → IsDigit (s i)) → (i : ℕ) → IsDigit (first_half k s i)
  unfolding first_half
  first_half-IsDigit zero s d i = d i
  first_half-IsDigit (suc k) s d i = elim (Bool-cases (k == i)) [
    | inl e ↦ rw e (digit-IsDigit (set_version (draw 0)) (15 - k))
    | inr e ↦ rw e (first_half-IsDigit k s d i)
  ]

  second_half-IsDigit :
      (k : ℕ) (s : ℕ → A) → ((i : ℕ) → IsDigit (s i)) → (i : ℕ) → IsDigit (second_half k s i)
  unfolding second_half
  second_half-IsDigit zero s d i = d i
  second_half-IsDigit (suc k) s d i = elim (Bool-cases (16 + k == i)) [
    | inl e ↦ rw e (digit-IsDigit (draw (2 + k)) (15 - k))
    | inr e ↦ rw e (second_half-IsDigit k s d i)
  ]

  -- Whatever numbers are drawn, each cell of a random uuid is a digit below 16 and the digit 12 is
  -- 4; the digit 16 is the upper one of the third draw, and no draw is limited to a variant.
  pub uuid4_str-digits :
      ((i : ℕ) → (n : ℕ) × (n < 16) × (uuid4_str i ≡ encode n))
      × (uuid4_str 12 ≡ encode 4)
      × (uuid4_str 16 ≡ encode (draw 2 / 2 ^ 60 % 16))
  unfolding uuid4_str first_half second_half digit
  uuid4_str-digits = (
    second_half-IsDigit 16 (first_half 16 (λ i. encode 0))
        (first_half-IsDigit 16 (λ i. encode 0) (λ i. (0, omega arith, refl))),
    ap encode (digit_version (draw 0)),
    refl,
  )
