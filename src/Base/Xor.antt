-- ===== src/Base/Xor.antt =====
-- Exclusive or, at every width: it undoes itself, and a byte stays a byte.
use Prim.Native.Nat.{ℕ, zero, suc, ◌+◌, ◌*◌, ◌/◌, ◌%◌, ◌^◌, ◌<◌}
use Prim.Native.Nat.{bit_xor, differ, bit_xor-bitwise}
use native.Mathlib.Nat.{pow-suc, div-div-eq-div-mul}
use mathlib.Core.Path.{◌≡◌, refl, sym, ap, ◌∙◌}
use native.Mathlib.Omega.{arith}
use mavicona.Base.Bits.{by_halves, lowest_digit, double_shift}

pub zero-bit_xor : (b : ℕ) → bit_xor 0 b ≡ b
zero-bit_xor b = bit_xor-bitwise 0 b

pub bit_xor_halves : (a b : ℕ) → bit_xor a b ≡ bit_xor (a / 2) (b / 2) * 2 + differ (a % 2) (b % 2)
bit_xor_halves zero b = simp bit_xor-bitwise (omega arith)
bit_xor_halves (suc a) b = simp bit_xor-bitwise (lowest_digit (λ y. y) differ a b)

differ_digits : (m n : ℕ) → m < 2 → n < 2 → (differ m n < 2) × (differ (differ m n) n ≡ m)
differ_digits zero zero p q = (omega arith, refl)
differ_digits zero (suc zero) p q = (omega arith, refl)
differ_digits (suc zero) zero p q = (omega arith, refl)
differ_digits (suc zero) (suc zero) p q = (omega arith, refl)
differ_digits (suc (suc m)) n p q = absurd (omega arith)
differ_digits zero (suc (suc n)) p q = absurd (omega arith)
differ_digits (suc zero) (suc (suc n)) p q = absurd (omega arith)

differ_self : (m : ℕ) → differ m m ≡ 0
differ_self zero = refl
differ_self (suc m) = differ_self m

differ_zero : (m : ℕ) → differ m 0 ≡ m
differ_zero zero = refl
differ_zero (suc m) = refl

differ_comm : (m n : ℕ) → differ m n ≡ differ n m
differ_comm zero zero = refl
differ_comm zero (suc n) = refl
differ_comm (suc m) zero = refl
differ_comm (suc m) (suc n) = differ_comm m n

differ_assoc : (m n p : ℕ) → m < 2 → n < 2 → p < 2 → differ (differ m n) p ≡ differ m (differ n p)
differ_assoc zero n p hm hn hp = refl
differ_assoc (suc zero) zero p hm hn hp = refl
differ_assoc (suc zero) (suc zero) zero hm hn hp = refl
differ_assoc (suc zero) (suc zero) (suc zero) hm hn hp = refl
differ_assoc (suc zero) (suc zero) (suc (suc p)) hm hn hp = absurd (omega arith)
differ_assoc (suc zero) (suc (suc n)) p hm hn hp = absurd (omega arith)
differ_assoc (suc (suc m)) n p hm hn hp = absurd (omega arith)

pub bit_xor_self : (a : ℕ) → bit_xor a a ≡ 0
bit_xor_self =
    by_halves (λ a. bit_xor a a ≡ 0) (zero-bit_xor 0)
      (λ a half. omega (arith, bit_xor_halves (suc a) (suc a), half, differ_self (suc a % 2)))

module _ (a b : ℕ) where
  pub xor_parts :
      (bit_xor a b / 2 ≡ bit_xor (a / 2) (b / 2)) × (bit_xor a b % 2 ≡ differ (a % 2) (b % 2))
  xor_parts =
      let d = (differ_digits (a % 2) (b % 2) (omega arith) (omega arith)).0 in
      (omega (arith, bit_xor_halves a b), omega (arith, bit_xor_halves a b))

pub bit_xor_twice : (a b : ℕ) → bit_xor (bit_xor a b) b ≡ a
bit_xor_twice =
    by_halves (λ a. (b : ℕ) → bit_xor (bit_xor a b) b ≡ a)
      (λ b. ap (λ t. bit_xor t b) (zero-bit_xor b) ∙ bit_xor_self b)
      (λ a half b.
        let parts = xor_parts (suc a) b in
        let digits = differ_digits (suc a % 2) (b % 2) (omega arith) (omega arith) in
        bit_xor_halves (bit_xor (suc a) b) b
        ∙ rw (parts.0, parts.1, half (b / 2), digits.1) (omega arith))

-- Numbers of `k` bits have an exclusive or of `k` bits.
pub bit_xor_bound : (k a b : ℕ) → a < 2 ^ k → b < 2 ^ k → bit_xor a b < 2 ^ k
bit_xor_bound zero a b p q = let e : a ≡ 0 = omega arith in rw e (rw (zero-bit_xor b) q)
bit_xor_bound (suc k) a b p q = omega (
  arith,
  pow-suc 2 k,
  xor_parts a b,
  (differ_digits (a % 2) (b % 2) (omega arith) (omega arith)).0,
  bit_xor_bound k (a / 2) (b / 2) (omega (arith, pow-suc 2 k)) (omega (arith, pow-suc 2 k)),
)

pub bit_xor-zero : (a : ℕ) → bit_xor a 0 ≡ a
bit_xor-zero =
    by_halves (λ a. bit_xor a 0 ≡ a) (zero-bit_xor 0)
      (λ a half. omega (
        arith,
        bit_xor_halves (suc a) 0,
        half,
        (differ_digits (suc a % 2) 0 (omega arith) (omega arith)),
        differ_zero (suc a % 2),
      ))

pub bit_xor_comm : (a b : ℕ) → bit_xor a b ≡ bit_xor b a
bit_xor_comm =
    by_halves (λ a. (b : ℕ) → bit_xor a b ≡ bit_xor b a)
      (λ b. zero-bit_xor b ∙ sym (bit_xor-zero b))
      (λ a half b.
        bit_xor_halves (suc a) b
        ∙ rw (half (b / 2), differ_comm (suc a % 2) (b % 2)) (sym (bit_xor_halves b (suc a))))

pub bit_xor_assoc : (a b c : ℕ) → bit_xor (bit_xor a b) c ≡ bit_xor a (bit_xor b c)
bit_xor_assoc =
    by_halves (λ a. (b c : ℕ) → bit_xor (bit_xor a b) c ≡ bit_xor a (bit_xor b c))
      (λ b c. ap (λ t. bit_xor t c) (zero-bit_xor b) ∙ sym (zero-bit_xor (bit_xor b c)))
      (λ a half b c.
        let left = xor_parts (suc a) b in
        let right = xor_parts b c in
        bit_xor_halves (bit_xor (suc a) b) c
        ∙ rw
            (
              left.0,
              left.1,
              half (b / 2) (c / 2),
              differ_assoc (suc a % 2) (b % 2) (c % 2) (omega arith) (omega arith) (omega arith),
            )
            (sym (bit_xor_halves (suc a) (bit_xor b c) ∙ rw (right.0, right.1))))

-- The lowest digits stand apart.
pub bit_xor_join : (k q r : ℕ) → r < 2 ^ k → bit_xor (q * 2 ^ k) r ≡ q * 2 ^ k + r
bit_xor_join zero q r h = ground (arith, bit_xor-zero q)
bit_xor_join (suc k) q r h =
    let even : differ (q * 2 ^ suc k % 2) (r % 2) ≡ r % 2 =
      let zero_digit : q * 2 ^ suc k % 2 ≡ 0 = omega (arith, double_shift q k) in
      ap (λ m. differ m (r % 2)) zero_digit in
    let half : q * 2 ^ suc k / 2 ≡ q * 2 ^ k = omega (arith, double_shift q k) in
    bit_xor_halves (q * 2 ^ suc k) r
    ∙ rw (half, even)
        (omega (arith, bit_xor_join k q (r / 2) (omega (arith, pow-suc 2 k)), double_shift q k))

pub bit_xor_shift : (k a b : ℕ) → bit_xor a b / 2 ^ k ≡ bit_xor (a / 2 ^ k) (b / 2 ^ k)
bit_xor_shift zero a b =
    let whole : (x : ℕ) → x / 2 ^ 0 ≡ x = λ x. omega arith in
    rw (whole a, whole b, whole (bit_xor a b)) refl
bit_xor_shift (suc k) a b =
    let halved : (x : ℕ) → x / 2 ^ suc k ≡ x / 2 / 2 ^ k = λ x.
      sym (div-div-eq-div-mul x 2 (2 ^ k) ∙ ap (λ (t : ℕ). x / t) (omega (arith, pow-suc 2 k))) in
    rw (halved a, halved b, halved (bit_xor a b), (xor_parts a b).0)
      (bit_xor_shift k (a / 2) (b / 2))
