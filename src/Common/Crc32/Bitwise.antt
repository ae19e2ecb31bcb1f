-- ===== src/Common/Crc32/Bitwise.antt =====
-- The checksum is the division of polynomials that defines CRC-32.
use mavicona.Base.{
  ℕ, zero, suc, ◌+◌, ◌-◌, ◌*◌, ◌/◌, ◌%◌, ◌^◌, ◌<◌, ◌≡◌, refl, sym, ap, ◌∙◌, Bool-cases, bit_xor,
  bit_and, ◌>>◌, u32, List, [], ◌∷◌, All, arith, ◌==◌, ltb, if◌then◌else◌, length, take, take_all,
  get_or, inl, inr,
}
use Prim.Native.Nat.{differ}
use mavicona.Base.Bits.{bit_and_ones, double_shift}
use mavicona.Base.Table.{every, every_sound, agree_below}
use mavicona.Base.Xor.{
  zero-bit_xor, bit_xor_self, bit_xor_comm, bit_xor_assoc, bit_xor_join, bit_xor_shift,
  bit_xor_bound, xor_parts, bit_xor-zero,
}
use mavicona.Common.Crc32.{crc32_table, crc_byte, crc_loop, crc32}

-- The polynomial of IEEE 802.3, its highest power in the lowest bit.
abbrev pub poly : ℕ
poly = 0xedb88320

-- One bit is divided out.
unfoldable pub divide_bit : ℕ → ℕ
divide_bit c = if c % 2 == 1 then bit_xor (c / 2) poly else c / 2

unfoldable pub divide_bits : ℕ → ℕ → ℕ
divide_bits zero c = c
divide_bits (suc n) c = divide_bits n (divide_bit c)

-- Bit by bit, from the remainder `c` on.
unfoldable pub remainder : ℕ → List ℕ → ℕ
remainder c [] = c
remainder c (byte ∷ bytes) = remainder (divide_bits 8 (bit_xor c byte)) bytes

bit_xor_swap :
    (a b c d : ℕ) → bit_xor (bit_xor a b) (bit_xor c d) ≡ bit_xor (bit_xor a c) (bit_xor b d)
bit_xor_swap a b c d =
    bit_xor_assoc a b (bit_xor c d)
    ∙ ap (bit_xor a)
        (sym (bit_xor_assoc b c d) ∙ ap (λ t. bit_xor t d) (bit_xor_comm b c) ∙ bit_xor_assoc c b d)
    ∙ sym (bit_xor_assoc a c (bit_xor b d))

-- What is added where the bit was set.
abbrev carry : ℕ → ℕ
carry d = if d == 1 then poly else 0

carry-differ : (m n : ℕ) → m < 2 → n < 2 → carry (differ m n) ≡ bit_xor (carry m) (carry n)
carry-differ zero n p q = sym (zero-bit_xor (carry n))
carry-differ (suc zero) zero p q = sym (bit_xor-zero poly)
carry-differ (suc zero) (suc zero) p q = sym (bit_xor_self poly)
carry-differ (suc zero) (suc (suc n)) p q = absurd (omega arith)
carry-differ (suc (suc m)) n p q = absurd (omega arith)

divide_bit_lem : (c : ℕ) → divide_bit c ≡ bit_xor (c / 2) (carry (c % 2))
unfolding divide_bit
divide_bit_lem c = elim (Bool-cases (c % 2 == 1)) [
  | inl odd ↦ rw odd refl
  | inr even ↦ rw even (sym (bit_xor-zero (c / 2)))
]

divide_bit-xor : (a b : ℕ) → divide_bit (bit_xor a b) ≡ bit_xor (divide_bit a) (divide_bit b)
divide_bit-xor a b =
    let parts = xor_parts a b in
    rw
      (
        divide_bit_lem (bit_xor a b),
        divide_bit_lem a,
        divide_bit_lem b,
        parts.0,
        parts.1,
        carry-differ (a % 2) (b % 2) (omega arith) (omega arith),
      )
      (bit_xor_swap (a / 2) (b / 2) (carry (a % 2)) (carry (b % 2)))

divide_bits-xor :
    (n a b : ℕ) → divide_bits n (bit_xor a b) ≡ bit_xor (divide_bits n a) (divide_bits n b)
unfolding divide_bits
divide_bits-xor zero a b = refl
divide_bits-xor (suc n) a b =
    ap (divide_bits n) (divide_bit-xor a b) ∙ divide_bits-xor n (divide_bit a) (divide_bit b)

divide_bits-shift : (n h : ℕ) → divide_bits n (h * 2 ^ n) ≡ h
unfolding divide_bits
divide_bits-shift zero h = omega arith
divide_bits-shift (suc n) h =
    let double = double_shift h n in
    let half : h * 2 ^ suc n / 2 ≡ h * 2 ^ n = omega (arith, double) in
    let digit : h * 2 ^ suc n % 2 ≡ 0 = omega (arith, double) in
    ap (divide_bits n)
      (divide_bit_lem (h * 2 ^ suc n) ∙ rw (half, digit) (bit_xor-zero (h * 2 ^ n)))
    ∙ divide_bits-shift n h

table_lem : (x : ℕ) → x < 256 → get_or crc32_table x 0 ≡ divide_bits 8 x
unfolding every divide_bits divide_bit
table_lem x h = agree_below 256 (λ y. get_or crc32_table y 0) (λ y. divide_bits 8 y) x refl h

-- The table does the work of eight bits.
crc_byte_lem :
    (crc byte : ℕ)
    → crc < 2 ^ 32
    → byte < 256
    → crc_byte crc byte ≡ divide_bits 8 (bit_xor crc byte)
unfolding crc_byte
crc_byte_lem crc byte h k =
    let c : ℕ = bit_xor crc byte in
    let high : c / 2 ^ 8 ≡ crc / 2 ^ 8 =
      bit_xor_shift 8 crc byte
      ∙ ap (bit_xor (crc / 2 ^ 8)) (no_high byte k)
      ∙ bit_xor-zero (crc / 2 ^ 8) in
    let low : bit_and c 0xff ≡ c % 256 = bit_and_ones 8 c in
    let split : bit_xor (c / 2 ^ 8 * 2 ^ 8) (c % 256) ≡ c =
      bit_xor_join 8 (c / 2 ^ 8) (c % 256) (omega arith) ∙ whole c in
    ap (λ t. bit_xor (crc >> 8) (get_or crc32_table t 0)) low
    ∙ ap (bit_xor (crc >> 8)) (table_lem (c % 256) (omega arith))
    ∙ ap (λ t. bit_xor t (divide_bits 8 (c % 256)))
        (sym high ∙ sym (divide_bits-shift 8 (c / 2 ^ 8)))
    ∙ sym (divide_bits-xor 8 (c / 2 ^ 8 * 2 ^ 8) (c % 256))
    ∙ ap (divide_bits 8) split
  where
    no_high : (b : ℕ) → b < 256 → b / 2 ^ 8 ≡ 0
    no_high b l = omega arith

    whole : (x : ℕ) → x / 2 ^ 8 * 2 ^ 8 + x % 256 ≡ x
    whole x = omega arith

table_bound : (x : ℕ) → x < 256 → get_or crc32_table x 0 < 2 ^ 32
unfolding every
table_bound x h =
    let passed = every_sound (λ y. ltb (get_or crc32_table y 0) (2 ^ 32)) x 256 h refl in
    ground arith

crc_byte-bound : (crc byte : ℕ) → crc < 2 ^ 32 → byte < 256 → crc_byte crc byte < 2 ^ 32
unfolding crc_byte
crc_byte-bound crc byte h k =
    let c : ℕ = bit_xor crc byte in
    let entry = table_bound (bit_and c 0xff) (rw (bit_and_ones 8 c) (omega arith)) in
    bit_xor_bound 32 (crc >> 8) (get_or crc32_table (bit_and c 0xff) 0) (omega arith) entry

crc_loop-remainder :
    (bytes : List ℕ) (crc : ℕ)
    → crc < 2 ^ 32
    → All (λ b. b < 256) bytes
    → crc_loop crc bytes ≡ remainder crc bytes
unfolding crc_loop remainder
crc_loop-remainder [] crc h k = refl
crc_loop-remainder (byte ∷ bytes) crc h (kb, k) =
    crc_loop-remainder bytes (crc_byte crc byte) (crc_byte-bound crc byte h kb) k
    ∙ ap (λ c. remainder c bytes) (crc_byte_lem crc byte h kb)

-- For a text of fewer than 2 ^ 32 bytes the checksum is the complement of the remainder of the
-- division of polynomials, bit by bit, from the complement of 0 on.
pub crc32-remainder :
    (str : List ℕ)
    → All (λ b. b < 256) str
    → length str < 2 ^ 32
    → crc32 str ≡ 2 ^ 32 - 1 - remainder (2 ^ 32 - 1) str
unfolding crc32
crc32-remainder str bytes short =
    let n : u32 (length str) ≡ length str = omega arith in
    ap (λ t. 2 ^ 32 - 1 - crc_loop (2 ^ 32 - 1) t)
      (ap (λ k. take k str) n ∙ take_all (length str) str (omega arith))
    ∙ ap (λ r. 2 ^ 32 - 1 - r) (crc_loop-remainder str (2 ^ 32 - 1) (omega arith) bytes)
