-- ===== src/Mumux/Frame/Byte.antt =====
-- The first two bytes of a frame header, field by field, and the length behind them.
use mavicona.Base.{
  ℕ, ◌+◌, ◌*◌, ◌%◌, ◌^◌, ◌<◌, ◌≡◌, refl, Bool, true, false, arith, bit_and, bit_or, u8, u32,
  if◌then◌else◌,
}
use mavicona.Base.Bits.{bit_or_join}
use mavicona.Base.Table.{every, agree_below}
use mathlib.Core.Path.{ap}

abbrev pub first_byte : Bool → ℕ → ℕ
first_byte fin opcode = u8 (bit_or (if fin then 0x80 else 0x00) opcode)

-- An opcode has four bits, and the FIN bit lies above them.
pub first_byte-opcode : (fin : Bool) (op : ℕ) → op < 16 → u8 (bit_and (first_byte fin op) 0xf) ≡ op
unfolding every
first_byte-opcode true op h =
    agree_below 16 (λ op. u8 (bit_and (first_byte true op) 0xf)) (λ op. op) op refl h
first_byte-opcode false op h =
    agree_below 16 (λ op. u8 (bit_and (first_byte false op) 0xf)) (λ op. op) op refl h

pub first_byte-fin :
    (fin : Bool) (op : ℕ) → op < 16 → bit_and (first_byte fin op) 0x80 ≡ (if fin then 0x80 else 0)
unfolding every
first_byte-fin true op h =
    agree_below 16 (λ op. bit_and (first_byte true op) 0x80) (λ op. 0x80) op refl h
first_byte-fin false op h =
    agree_below 16 (λ op. bit_and (first_byte false op) 0x80) (λ op. 0) op refl h

pub second_byte-length : (n : ℕ) → n < 128 → bit_and n 0x7f ≡ n
unfolding every
second_byte-length n h = agree_below 128 (λ n. bit_and n 0x7f) (λ n. n) n refl h

pub second_byte-mask : (n : ℕ) → n < 128 → bit_and n 0x80 ≡ 0
unfolding every
second_byte-mask n h = agree_below 128 (λ n. bit_and n 0x80) (λ n. 0) n refl h

pub masked_byte-length : (n : ℕ) → n < 128 → bit_and (128 + n) 0x7f ≡ n
unfolding every
masked_byte-length n h = agree_below 128 (λ n. bit_and (128 + n) 0x7f) (λ n. n) n refl h

pub masked_byte-mask : (n : ℕ) → n < 128 → bit_and (128 + n) 0x80 ≡ 0x80
unfolding every
masked_byte-mask n h = agree_below 128 (λ n. bit_and (128 + n) 0x80) (λ n. 0x80) n refl h

-- One round of the length loop multiplies by 256 and adds the byte, modulo 2 ^ 32.
pub shift_in : (len b : ℕ) → b < 256 → bit_or (u32 (len * 2 ^ 8)) b ≡ (len * 256 + b) % 2 ^ 32
shift_in len b h = omega (arith, bit_or_join 8 (len % 2 ^ 24) b h, same)
  where
    same : bit_or (u32 (len * 2 ^ 8)) b ≡ bit_or (len % 2 ^ 24 * 2 ^ 8) b
    same = ap (λ t. bit_or t b) (omega arith)
