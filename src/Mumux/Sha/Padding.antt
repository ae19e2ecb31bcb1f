-- ===== src/Mumux/Sha/Padding.antt =====
-- The padding that `wby_sha1_final` writes is that of FIPS 180.
use mavicona.Base.{
  ℕ, zero, suc, ◌+◌, ◌-◌, ◌*◌, ◌/◌, ◌%◌, ◌^◌, ◌<◌, ◌≡◌, refl, sym, ap, ◌∙◌, Bool-cases, inl, inr,
  List, [], ◌∷◌, ◌++◌, arith, ◌==◌, ==_iff, length, length-take, replicate,
}
use mavicona.Mumux.Sha.{Sha1, sha1_update, pad_loop, finish, word_bytes}
use mavicona.Mumux.Sha.Block.{Words}
use mavicona.Mumux.Sha.Absorb.{absorb, absorb-append, length-absorb, zeros, bit_count, padding}
use mavicona.Mumux.Sha.Update.{IsReady, pending, update-Updated}

-- `t` is `s` after the bytes `xs`, the count of bits aside.
pub record Hashed (s : Sha1) (xs : List ℕ) (t : Sha1) : Type 0 where
  pub ready : IsReady t
  pub hashed : (t.state, pending t) ≡ absorb s.state (pending s) xs

update-Hashed : (s : Sha1) (xs : List ℕ) → IsReady s → Hashed s xs (sha1_update s xs)
update-Hashed s xs v =
    let u = update-Updated s xs v in record { ready = u.ready; hashed = u.hashed }

Hashed-trans :
    (s t u : Sha1) (xs ys : List ℕ) → Hashed s xs t → Hashed t ys u → Hashed s (xs ++ ys) u
Hashed-trans s t u xs ys p q = record {
  ready = q.ready;
  hashed =
      q.hashed
      ∙ ap (λ (w : Words × List ℕ). absorb w.0 w.1 ys) p.hashed
      ∙ sym (absorb-append s.state (pending s) xs ys);
}

-- The fill of the buffer is the number of bytes modulo 64.
used-Hashed :
    (s t : Sha1) (xs : List ℕ)
    → IsReady s
    → Hashed s xs t
    → t.buf_used ≡ (s.buf_used + length xs) % 64
used-Hashed s t xs v p = omega (
  arith,
  length-take t.buf_used t.buffer,
  length-take s.buf_used s.buffer,
  p.ready.sized,
  p.ready.room,
  v.sized,
  v.room,
  ap (λ (w : Words × List ℕ). length w.1) p.hashed,
  length-absorb s.state (pending s) xs
      (omega (arith, length-take s.buf_used s.buffer, v.room, v.sized)),
)

-- The zeros that `pad_loop` writes when it starts at a fill of `used` bytes.
abbrev zeros_from : ℕ → ℕ
zeros_from used = (120 - used) % 64

-- With fuel for them, the loop writes these zeros and stops at 56 bytes.
pad_loop-Hashed :
    (fuel : ℕ) (s : Sha1)
    → IsReady s
    → zeros_from s.buf_used < fuel
    → Hashed s (replicate (zeros_from s.buf_used) 0) (pad_loop fuel s)
unfolding pad_loop
pad_loop-Hashed zero s v h = absurd (omega arith)
pad_loop-Hashed (suc fuel) s v h = elim (Bool-cases (s.buf_used == 56)) [
  | inl done ↦
      let at : s.buf_used ≡ 56 = (==_iff s.buf_used 56).0 done in
      let none_left : zeros_from s.buf_used ≡ 0 = omega arith in
      rw (done, none_left) (record { ready = v; hashed = unfold absorb in refl })
  | inr more ↦
      let s1 = sha1_update s (0 ∷ []) in
      let one = update-Hashed s (0 ∷ []) v in
      let used = used-Hashed s s1 (0 ∷ []) v one in
      let left : zeros_from s.buf_used ≡ suc (zeros_from s1.buf_used) = ground (arith, v.room) in
      rw (more, left)
        (Hashed-trans s s1 _ (0 ∷ []) (replicate (zeros_from s1.buf_used) 0) one
          (pad_loop-Hashed fuel s1 one.ready (omega arith)))
]

-- The bytes that `finish` adds.
pub finish-Hashed :
    (s : Sha1) (n : ℕ)
    → IsReady s
    → s.buf_used ≡ n % 64
    → s.msg_size_hi * 2 ^ 32 + s.msg_size_lo ≡ n * 8
    → s.msg_size_lo < 2 ^ 32
    → Hashed s (padding n) (finish s)
unfolding finish
finish-Hashed s n v used count lo =
    let s1 = sha1_update s (0x80 ∷ []) in
    let one = update-Hashed s (0x80 ∷ []) v in
    let at = used-Hashed s s1 (0x80 ∷ []) v one in
    let room = pad_loop-Hashed 64 s1 one.ready (omega arith) in
    let same : zeros_from s1.buf_used ≡ zeros n = omega arith in
    let counts : word_bytes s.msg_size_hi ++ word_bytes s.msg_size_lo ≡ bit_count n =
      rw (hi, low) in
    let last = update-Hashed (pad_loop 64 s1) (bit_count n) room.ready in
    rw counts (
      Hashed-trans s s1 _ (0x80 ∷ []) (replicate (zeros n) 0 ++ bit_count n) one (
        Hashed-trans s1 (pad_loop 64 s1) _ (replicate (zeros n) 0) (bit_count n) (rw same at room)
          last))
  where
    hi : s.msg_size_hi ≡ n * 8 / 2 ^ 32
    hi = omega arith

    low : s.msg_size_lo ≡ n * 8 % 2 ^ 32
    low = omega arith
