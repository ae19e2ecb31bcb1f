-- ===== src/Mumux/Sha.antt =====
-- mumux/sha.c: SHA-1, with its block function, its buffered input and its padding.
pub mod Block
pub mod Absorb
pub mod Update
pub mod Padding
pub mod Final
mod Tests
use mavicona.Base.{
  ℕ, zero, suc, ◌+◌, ◌-◌, ◌*◌, ◌/◌, ◌%◌, ◌^◌, min, List, [], ◌∷◌, ◌++◌, u8, u32, u64, ◌<<◌, ◌>>◌,
  ltb, ◌==◌, if◌then◌else◌, length, take, drop, copy_at, bit_and, replicate,
}
use mavicona.Mumux.Sha.Block.{Words, hash_block}

-- `struct wby_sha1`; `buffer` has 64 bytes.
pub record Sha1 : Type 0 where
  pub state : Words
  pub msg_size_hi : ℕ
  pub msg_size_lo : ℕ
  pub buf_used : ℕ
  pub buffer : List ℕ

-- `wby_sha1_init` leaves the buffer as it is.
unfoldable pub sha1_init : Sha1 → Sha1
sha1_init s = record s {
  state = record { a = 0x67452301; b = 0xefcdab89; c = 0x98badcfe; d = 0x10325476; e = 0xc3d2e1f0 };
  msg_size_hi = 0;
  msg_size_lo = 0;
  buf_used = 0;
}

-- One round of the copying loop of `wby_sha1_update`, for `copy_size` bytes.
unfoldable pub update_step : Sha1 → ℕ → List ℕ → Sha1
update_step s copy_size data_left =
    let buffer = copy_at s.buffer s.buf_used (take copy_size data_left) in
    let used = s.buf_used + copy_size in
    if used == 64
    then record s { state = hash_block s.state buffer; buf_used = 0; buffer = buffer }
    else record s { buf_used = used; buffer = buffer }

abbrev pub copy_size : Sha1 → List ℕ → ℕ
copy_size s data_left =
    if ltb (length data_left) (64 - s.buf_used) then length data_left else 64 - s.buf_used

-- The loop, with fuel for as many rounds.
unfoldable pub update_loop : ℕ → Sha1 → List ℕ → Sha1
update_loop fuel s [] = s
update_loop zero s (b ∷ data_left) = s
update_loop (suc fuel) s (b ∷ data_left) =
    let n = copy_size s (b ∷ data_left) in
    update_loop fuel (update_step s n (b ∷ data_left)) (drop n (b ∷ data_left))

-- The count of bits, as two words; the size is cut to 32 bits before it is added.
unfoldable pub count_bits : Sha1 → ℕ → Sha1
count_bits s size =
    let size_lo = u32 (s.msg_size_lo + u32 (size * 8)) in
    let hi = if ltb size_lo s.msg_size_lo then u32 (s.msg_size_hi + 1) else s.msg_size_hi in
    record s { msg_size_hi = hi; msg_size_lo = size_lo }

-- A round takes at least one byte, so the length is enough fuel.
unfoldable pub sha1_update : Sha1 → List ℕ → Sha1
sha1_update s bytes = count_bits (update_loop (length bytes) s bytes) (length bytes)

-- A 32-bit word as four bytes, most significant first.
abbrev pub word_bytes : ℕ → List ℕ
word_bytes w = u8 (w >> 24) ∷ u8 (w >> 16) ∷ u8 (w >> 8) ∷ u8 (w >> 0) ∷ []

abbrev pub state_bytes : Words → List ℕ
state_bytes s =
    word_bytes s.a ++ word_bytes s.b ++ word_bytes s.c ++ word_bytes s.d ++ word_bytes s.e

-- `while (s->buf_used != 56)`, with fuel.
unfoldable pub pad_loop : ℕ → Sha1 → Sha1
pad_loop zero s = s
pad_loop (suc fuel) s =
    let rest = pad_loop fuel (sha1_update s (0 ∷ [])) in if s.buf_used == 56 then s else rest

-- The state in which `wby_sha1_final` reads off its digest; 64 rounds of padding are enough.
unfoldable pub finish : Sha1 → Sha1
finish s =
    let count_data = word_bytes s.msg_size_hi ++ word_bytes s.msg_size_lo in
    sha1_update (pad_loop 64 (sha1_update s (0x80 ∷ []))) count_data

unfoldable pub sha1_final : Sha1 → List ℕ
sha1_final s = state_bytes (finish s).state
