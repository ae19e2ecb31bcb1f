-- ===== src/Base/Bits.antt =====
-- The bit operations as arithmetic, at every width: `|` of disjoint fields, `&` with a mask of
-- low ones, and the bounds of a result.
use Prim.Native.Nat.{ℕ, zero, suc, ◌+◌, ◌-◌, ◌*◌, ◌/◌, ◌%◌, ◌^◌, ◌≤◌, ◌<◌, min, max}
use Prim.Native.Nat.{bit_and, bit_or, digits, bitwise}
use Prim.Native.Nat.{bit_and-bitwise, bit_or-bitwise}
use native.Mathlib.Nat.{le_refl, pow-suc, one-le-pow, div-div-eq-div-mul}
use mathlib.Core.Path.{◌≡◌, refl, sym, ap, ◌∙◌}
use native.Mathlib.Omega.{arith}

-- Induction by halves, on a bound of the number.
below_by_halves :
    (P : ℕ → Type 0) → P 0 → ((a : ℕ) → P (suc a / 2) → P (suc a)) → (n a : ℕ) → a ≤ n → P a
below_by_halves P base step n zero h = base
below_by_halves P base step zero (suc a) h = absurd (omega arith)
below_by_halves P base step (suc n) (suc a) h =
    step a (below_by_halves P base step n (suc a / 2) (omega arith))

pub by_halves : (P : ℕ → Type 0) → P 0 → ((a : ℕ) → P (suc a / 2) → P (suc a)) → (a : ℕ) → P a
by_halves P base step a = below_by_halves P base step a a (le_refl a)

module _ (z : ℕ → ℕ) (f : ℕ → ℕ → ℕ) where
  one_more_step : (n a b : ℕ) → a ≤ n → digits z f (suc n) a b ≡ digits z f n a b
  one_more_step zero zero b h = refl
  one_more_step (suc n) zero b h = refl
  one_more_step zero (suc a) b h = absurd (omega arith)
  one_more_step (suc n) (suc a) b h = rw (one_more_step n (suc a / 2) (b / 2) (omega arith))

  spare_steps : (k n a b : ℕ) → a ≤ n → digits z f (k + n) a b ≡ digits z f n a b
  spare_steps zero n a b h = ap (λ t. digits z f t a b) (omega arith)
  spare_steps (suc k) n a b h =
      let next : suc k + n ≡ suc (k + n) = omega arith in
      ap (λ t. digits z f t a b) next
      ∙ (one_more_step (k + n) a b (omega arith) ∙ spare_steps k n a b h)

  pub lowest_digit :
      (a b : ℕ)
      → bitwise z f (suc a) b ≡ bitwise z f (suc a / 2) (b / 2) * 2 + f (suc a % 2) (b % 2)
  lowest_digit a b =
      let half : ℕ = suc a / 2 in
      let split : a - half + half ≡ a = omega arith in
      let same : digits z f a half (b / 2) ≡ digits z f half half (b / 2) =
        ap (λ n. digits z f n half (b / 2)) (sym split)
        ∙ spare_steps (a - half) half half (b / 2) (le_refl half) in
      omega (arith, same)

pub bit_or_halves : (a b : ℕ) → bit_or a b ≡ bit_or (a / 2) (b / 2) * 2 + max (a % 2) (b % 2)
bit_or_halves zero b = simp bit_or-bitwise (omega arith)
bit_or_halves (suc a) b = simp bit_or-bitwise (lowest_digit (λ y. y) max a b)

pub bit_and_halves : (a b : ℕ) → bit_and a b ≡ bit_and (a / 2) (b / 2) * 2 + min (a % 2) (b % 2)
bit_and_halves zero b = simp bit_and-bitwise (omega arith)
bit_and_halves (suc a) b = simp bit_and-bitwise (lowest_digit (λ y. 0) min a b)

pub bit_or-zero : (a : ℕ) → bit_or a 0 ≡ a
bit_or-zero =
    by_halves (λ a. bit_or a 0 ≡ a) refl (λ a half. omega (arith, bit_or_halves (suc a) 0, half))

pub bit_and-zero : (a : ℕ) → bit_and a 0 ≡ 0
bit_and-zero =
    by_halves (λ a. bit_and a 0 ≡ 0) refl (λ a half. omega (arith, bit_and_halves (suc a) 0, half))

pub double_shift : (q k : ℕ) → q * 2 ^ suc k ≡ 2 * (q * 2 ^ k)
double_shift q k = omega (arith, ap (λ (t : ℕ). q * t) (pow-suc 2 k))

-- `(q << k) | r` is a sum where `r` has at most `k` bits.
pub bit_or_join : (k q r : ℕ) → r < 2 ^ k → bit_or (q * 2 ^ k) r ≡ q * 2 ^ k + r
bit_or_join zero q r h = ground (arith, bit_or-zero q)
bit_or_join (suc k) q r h = ground (
  arith,
  bit_or_halves (q * 2 ^ suc k) r,
  double_shift q k,
  bit_or_join k q (r / 2) (omega arith),
)

low_ones_of_sum : (k q r : ℕ) → r < 2 ^ k → bit_and (q * 2 ^ k + r) (2 ^ k - 1) ≡ r
low_ones_of_sum zero q r h = rw bit_and-zero (omega arith)
low_ones_of_sum (suc k) q r h = ground (
  arith,
  bit_and_halves (q * 2 ^ suc k + r) (2 ^ suc k - 1),
  double_shift q k,
  pow-suc 2 k,
  low_ones_of_sum k q (r / 2) (omega arith),
)

-- `&` with `k` ones is the remainder by `2 ^ k`.
pub bit_and_ones : (k a : ℕ) → bit_and a (2 ^ k - 1) ≡ a % 2 ^ k
bit_and_ones k a = ground (arith, one-le-pow k 2, low_ones_of_sum k (a / 2 ^ k) (a % 2 ^ k))

-- `&` with a mask that stands `k` bits up.
pub bit_and_field : (k m x : ℕ) → bit_and x (m * 2 ^ k) ≡ bit_and (x / 2 ^ k) m * 2 ^ k
bit_and_field zero m x =
    let same : bit_and (x / 2 ^ 0) m ≡ bit_and x m = ap (λ t. bit_and t m) (omega arith) in
    let mask : bit_and x (m * 2 ^ 0) ≡ bit_and x m = ap (λ t. bit_and x t) (omega arith) in
    omega (arith, same, mask)
bit_and_field (suc k) m x =
    let half : m * 2 ^ suc k / 2 ≡ m * 2 ^ k = omega (arith, double_shift m k) in
    let even : m * 2 ^ suc k % 2 ≡ 0 = omega (arith, double_shift m k) in
    let down : x / 2 / 2 ^ k ≡ x / 2 ^ suc k =
      div-div-eq-div-mul x 2 (2 ^ k) ∙ ap (λ (t : ℕ). x / t) (omega (arith, pow-suc 2 k)) in
    let halves : bit_and x (m * 2 ^ suc k) ≡ bit_and (x / 2) (m * 2 ^ k) * 2 =
      bit_and_halves x (m * 2 ^ suc k) ∙ rw (half, even) (omega arith) in
    halves
    ∙ ap (λ (t : ℕ). t * 2) (bit_and_field k m (x / 2))
    ∙ rw down (omega (arith, double_shift (bit_and (x / 2 ^ suc k) m) k))

pub bit_or_comm : (a b : ℕ) → bit_or a b ≡ bit_or b a
bit_or_comm =
    by_halves (λ a. (b : ℕ) → bit_or a b ≡ bit_or b a) (λ b. zero-bit_or b ∙ sym (bit_or-zero b))
      (λ a half b. omega (arith, bit_or_halves (suc a) b, bit_or_halves b (suc a), half (b / 2)))
  where
    zero-bit_or : (b : ℕ) → bit_or 0 b ≡ b
    zero-bit_or b = bit_or-bitwise 0 b

-- `r | (q << k)` is a sum where `r` has at most `k` bits.
pub bit_or_below : (k q r : ℕ) → r < 2 ^ k → bit_or r (q * 2 ^ k) ≡ q * 2 ^ k + r
bit_or_below k q r h = bit_or_comm r (q * 2 ^ k) ∙ bit_or_join k q r h
