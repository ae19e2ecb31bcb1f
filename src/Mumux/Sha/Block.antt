-- ===== src/Mumux/Sha/Block.antt =====
-- `wby_sha1_hash_block`: the message schedule and the eighty rounds on one block of 64 bytes.
use mavicona.Base.{
  ℕ, zero, suc, ◌+◌, ◌-◌, ◌*◌, List, [], ◌∷◌, ◌++◌, u32, ◌<<◌, ◌>>◌, get_or, bit_and, bit_or,
  bit_xor,
}

-- `unsigned int state[5]`, and the working variables.
pub record Words : Type 0 where
  pub a : ℕ
  pub b : ℕ
  pub c : ℕ
  pub d : ℕ
  pub e : ℕ

unfoldable pub sha1_rol : ℕ → ℕ → ℕ
sha1_rol value bits = bit_or (u32 (value << bits)) (value >> (32 - bits))

-- The word at byte `i * 4` of the block, most significant byte first.
unfoldable pub block_word : List ℕ → ℕ → ℕ
block_word block i =
    bit_or
      (bit_or (bit_or (u32 (get_or block (i * 4 + 0) 0 << 24)) (get_or block (i * 4 + 1) 0 << 16))
        (get_or block (i * 4 + 2) 0 << 8))
      (get_or block (i * 4 + 3) 0 << 0)

-- The first loop: `n` words from index `i` on.
unfoldable pub first_words : ℕ → ℕ → List ℕ → List ℕ → List ℕ
first_words zero i block w = w
first_words (suc n) i block w = first_words n (i + 1) block (w ++ (block_word block i ∷ []))

-- The second loop.
unfoldable pub more_words : ℕ → ℕ → List ℕ → List ℕ
more_words zero i w = w
more_words (suc n) i w =
    let at = λ (k : ℕ). get_or w (i - k) 0 in
    let x = bit_xor (bit_xor (bit_xor (at 3) (at 8)) (at 14)) (at 16) in
    more_words n (i + 1) (w ++ (sha1_rol x 1 ∷ []))

unfoldable pub complement : ℕ → ℕ
complement x = bit_xor x 0xffffffff

-- The functions of the four spans.
unfoldable pub choose : ℕ → ℕ → ℕ → ℕ
choose b c d = bit_xor (bit_and b c) (bit_and (complement b) d)

unfoldable pub parity : ℕ → ℕ → ℕ → ℕ
parity b c d = bit_xor (bit_xor b c) d

unfoldable pub majority : ℕ → ℕ → ℕ → ℕ
majority b c d = bit_xor (bit_xor (bit_and b c) (bit_and b d)) (bit_and c d)

-- The macro `SHA1_LOOP`: `n` rounds from index `i` on.
unfoldable pub sha1_loop : (ℕ → ℕ → ℕ → ℕ) → ℕ → List ℕ → ℕ → ℕ → Words → Words
sha1_loop func constant w zero i s = s
sha1_loop func constant w (suc n) i s =
    let t = u32 (sha1_rol s.a 5 + func s.b s.c s.d + s.e + constant + get_or w i 0) in
    sha1_loop func constant w n (i + 1)
      (record { a = t; b = s.a; c = sha1_rol s.b 30; d = s.c; e = s.d })

unfoldable pub hash_block : Words → List ℕ → Words
unfolding sha1_rol block_word first_words more_words complement choose parity majority sha1_loop
hash_block state block =
    let w = more_words 64 16 (first_words 16 0 block []) in
    let s1 = sha1_loop choose 0x5a827999 w 20 0 state in
    let s2 = sha1_loop parity 0x6ed9eba1 w 20 20 s1 in
    let s3 = sha1_loop majority 0x8f1bbcdc w 20 40 s2 in
    let s4 = sha1_loop parity 0xca62c1d6 w 20 60 s3 in
    record {
      a = u32 (state.a + s4.a);
      b = u32 (state.b + s4.b);
      c = u32 (state.c + s4.c);
      d = u32 (state.d + s4.d);
      e = u32 (state.e + s4.e);
    }
