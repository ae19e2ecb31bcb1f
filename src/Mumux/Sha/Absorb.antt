-- ===== src/Mumux/Sha/Absorb.antt =====
-- SHA-1 as FIPS 180 defines it, over the block function: padding, and hashing block by block. It
-- is related here to `absorb`, which takes the input byte by byte.
use mavicona.Base.{
  ℕ, zero, suc, ◌+◌, ◌-◌, ◌*◌, ◌/◌, ◌%◌, ◌^◌, ◌<◌, ◌≡◌, refl, sym, ap, ◌∙◌, true, false, Bool-cases,
  inl, inr, List, [], ◌∷◌, ◌++◌, append-nil, append_assoc, arith, ◌==◌, if◌then◌else◌, ==_iff,
  length, length-append, length-take, length-drop, take-append-drop, take, drop, replicate,
}
use mavicona.Mumux.Sha.{state_bytes, word_bytes}
use mavicona.Mumux.Sha.Block.{Words, hash_block}

-- The hash of `k` blocks of 64 bytes.
unfoldable pub hash_blocks : ℕ → Words → List ℕ → Words
hash_blocks zero st bytes = st
hash_blocks (suc k) st bytes = hash_blocks k (hash_block st (take 64 bytes)) (drop 64 bytes)

-- The least number of zeros that brings a message of `n` bytes and a one-bit byte to 56 modulo 64.
abbrev pub zeros : ℕ → ℕ
zeros n = (119 - n % 64) % 64

-- The number of bits of `n` bytes, as 64 bits, most significant byte first.
abbrev pub bit_count : ℕ → List ℕ
bit_count n = word_bytes (n * 8 / 2 ^ 32) ++ word_bytes (n * 8 % 2 ^ 32)

abbrev pub padding : ℕ → List ℕ
padding n = (0x80 ∷ []) ++ (replicate (zeros n) 0 ++ bit_count n)

abbrev pub initial : Words
initial = record { a = 0x67452301; b = 0xefcdab89; c = 0x98badcfe; d = 0x10325476; e = 0xc3d2e1f0 }

-- The digest of a whole message.
unfoldable pub digest : List ℕ → List ℕ
digest msg =
    let padded = msg ++ padding (length msg) in
    state_bytes (hash_blocks (length padded / 64) initial padded)

-- The chaining state and the bytes of an unfinished block, after further bytes.
unfoldable pub absorb : Words → List ℕ → List ℕ → Words × List ℕ
absorb st p [] = (st, p)
absorb st p (b ∷ bs) =
    let full = absorb (hash_block st (p ++ (b ∷ []))) [] bs in
    let more = absorb st (p ++ (b ∷ [])) bs in if length p == 63 then full else more

pub absorb-append :
    (st : Words) (p xs ys : List ℕ)
    → absorb st p (xs ++ ys) ≡ absorb (absorb st p xs).0 (absorb st p xs).1 ys
unfolding absorb
absorb-append st p [] ys = refl
absorb-append st p (b ∷ xs) ys = elim (Bool-cases (length p == 63)) [
  | inl full ↦ rw full (absorb-append (hash_block st (p ++ (b ∷ []))) [] xs ys)
  | inr more ↦ rw more (absorb-append st (p ++ (b ∷ [])) xs ys)
]

-- Bytes that do not fill the block are kept.
pub absorb_short :
    (st : Words) (p xs : List ℕ) → length p + length xs < 64 → absorb st p xs ≡ (st, p ++ xs)
unfolding absorb
absorb_short st p [] h = rw append-nil
absorb_short st p (b ∷ xs) h =
    let more : (length p == 63) ≡ false = ground arith in
    rw (more, absorb_short st (p ++ (b ∷ [])) xs (omega (arith, length-append p (b ∷ []))))
      (ap (λ t. (st, t)) (append_assoc p (b ∷ []) xs))

-- Bytes that just fill the block are hashed with it.
pub absorb_full :
    (st : Words) (p xs : List ℕ)
    → length p < 64
    → length p + length xs ≡ 64
    → absorb st p xs ≡ (hash_block st (p ++ xs), [])
unfolding absorb
absorb_full st p [] h e = absurd (omega arith)
absorb_full st p (b ∷ []) h e = let full : (length p == 63) ≡ true = ground arith in rw full
absorb_full st p (b ∷ c ∷ xs) h e =
    let more : (length p == 63) ≡ false = ground arith in
    rw
      (
        more,
        absorb_full st (p ++ (b ∷ [])) (c ∷ xs) (omega (arith, length-append p (b ∷ [])))
            (omega (arith, length-append p (b ∷ []))),
      )
      (ap (λ t. (hash_block st t, [])) (append_assoc p (b ∷ []) (c ∷ xs)))

-- The number of bytes that wait for the end of their block.
pub length-absorb :
    (st : Words) (p xs : List ℕ)
    → length p < 64
    → length (absorb st p xs).1 ≡ (length p + length xs) % 64
unfolding absorb
length-absorb st p [] h = omega arith
length-absorb st p (b ∷ xs) h = elim (Bool-cases (length p == 63)) [
  | inl full ↦ rw full (
      omega (
        arith,
        length-absorb (hash_block st (p ++ (b ∷ []))) [] xs (omega arith),
        (==_iff (length p) 63).0 full,
      ))
  | inr more ↦
      rw more
        (omega (arith, length-append p (b ∷ []), length-absorb st (p ++ (b ∷ [])) xs (fits more)))
]
  where
    fits : (length p == 63) ≡ false → length (p ++ (b ∷ [])) < 64
    fits more = ground (arith, length-append p (b ∷ []))

-- Absorbing whole blocks is hashing them.
pub absorb_blocks :
    (k : ℕ) (st : Words) (xs : List ℕ)
    → length xs ≡ k * 64
    → absorb st [] xs ≡ (hash_blocks k st xs, [])
unfolding hash_blocks
absorb_blocks zero st [] e = unfold absorb in refl
absorb_blocks zero st (x ∷ xs) e = absurd (omega arith)
absorb_blocks (suc k) st xs e =
    ap (absorb st []) (sym (take-append-drop 64 xs))
    ∙ absorb-append st [] (take 64 xs) (drop 64 xs)
    ∙ rw (absorb_full st [] (take 64 xs) (omega arith) (omega (arith, length-take 64 xs))) (
        absorb_blocks k (hash_block st (take 64 xs)) (drop 64 xs)
          (omega (arith, length-drop 64 xs)))
