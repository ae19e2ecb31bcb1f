-- ===== src/Mumux/Sha/Update.antt =====
-- The buffered loop of `wby_sha1_update` absorbs its input byte by byte.
use mavicona.Base.{
  ℕ, zero, suc, ◌+◌, ◌*◌, ◌^◌, ◌≤◌, ◌<◌, ◌≡◌, refl, sym, ap, ◌∙◌, true, false, Bool-cases, inl, inr,
  List, [], ◌∷◌, ◌++◌, arith, ◌==◌, ==_iff, length, length-take, length-drop, take-append-drop,
  take_all, take, drop, copy_at, take-copy_at, length-copy_at,
}
use mavicona.Mumux.Sha.{Sha1, update_step, copy_size, update_loop, count_bits, sha1_update}
use mavicona.Mumux.Sha.Block.{Words}
use mavicona.Mumux.Sha.Absorb.{absorb, absorb-append, absorb_short, absorb_full}
use mathlib.Core.Path.{subst}

-- The buffer has its 64 bytes, and is not full between calls.
pub record IsReady (s : Sha1) : Type 0 where
  pub sized : length s.buffer ≡ 64
  pub room : s.buf_used < 64

-- The bytes that wait in the buffer.
abbrev pub pending : Sha1 → List ℕ
pending s = take s.buf_used s.buffer

-- `t` is `s` after the bytes `xs`, as far as the hash is concerned.
pub record Absorbed (s : Sha1) (xs : List ℕ) (t : Sha1) : Type 0 where
  pub ready : IsReady t
  pub hashed : (t.state, pending t) ≡ absorb s.state (pending s) xs
  pub same_hi : t.msg_size_hi ≡ s.msg_size_hi
  pub same_lo : t.msg_size_lo ≡ s.msg_size_lo

length-pending : (s : Sha1) → IsReady s → length (pending s) ≡ s.buf_used
length-pending s v = omega (arith, length-take s.buf_used s.buffer)

module _ (s : Sha1) (n : ℕ) (xs : List ℕ) (v : IsReady s) (h : n ≤ length xs) where
  taken : length (take n xs) ≡ n
  taken = omega (arith, length-take n xs)

  -- The filled part of the buffer after the copy.
  copied :
      s.buf_used + n ≤ 64
      → take (s.buf_used + n) (copy_at s.buffer s.buf_used (take n xs)) ≡ pending s ++ take n xs
  copied room =
      take-copy_at s.buffer s.buf_used (s.buf_used + n) (take n xs) (omega (arith, taken))
        (omega (arith, v.sized))

  fill-Absorbed : s.buf_used + n ≡ 64 → Absorbed s (take n xs) (update_step s n xs)
  unfolding update_step
  fill-Absorbed full =
      let full' : (s.buf_used + n == 64) ≡ true = ground arith in
      rw full' (record {
        ready = record {
          sized = rw (length-copy_at s.buffer s.buf_used (take n xs)) v.sized;
          room = omega arith;
        };
        hashed = rw (
          absorb_full s.state (pending s) (take n xs) (omega (arith, length-pending s v))
              (omega (arith, length-pending s v, taken)),
          ← copied (omega arith),
          full,
          take_all 64 (copy_at s.buffer s.buf_used (take n xs))
              (omega (arith, length-copy_at s.buffer s.buf_used (take n xs))),
        );
        same_hi = refl;
        same_lo = refl;
      })

  keep-Absorbed : s.buf_used + n < 64 → Absorbed s (take n xs) (update_step s n xs)
  unfolding update_step
  keep-Absorbed more =
      let more' : (s.buf_used + n == 64) ≡ false = ground arith in
      rw more' (record {
        ready = record {
          sized = rw (length-copy_at s.buffer s.buf_used (take n xs)) v.sized;
          room = more;
        };
        hashed = rw (
          absorb_short s.state (pending s) (take n xs) (omega (arith, length-pending s v, taken)),
          ← copied (omega arith),
        );
        same_hi = refl;
        same_lo = refl;
      })

  step-Absorbed : s.buf_used + n ≤ 64 → Absorbed s (take n xs) (update_step s n xs)
  step-Absorbed room = elim (Bool-cases (s.buf_used + n == 64)) [
    | inl full ↦ fill-Absorbed ((==_iff (s.buf_used + n) 64).0 full)
    | inr more ↦ keep-Absorbed (ground arith)
  ]

pub Absorbed-trans :
    (s t u : Sha1) (xs ys : List ℕ) → Absorbed s xs t → Absorbed t ys u → Absorbed s (xs ++ ys) u
Absorbed-trans s t u xs ys p q = record {
  ready = q.ready;
  hashed =
      q.hashed
      ∙ ap (λ (w : Words × List ℕ). absorb w.0 w.1 ys) p.hashed
      ∙ sym (absorb-append s.state (pending s) xs ys);
  same_hi = q.same_hi ∙ p.same_hi;
  same_lo = q.same_lo ∙ p.same_lo;
}

-- With fuel for each byte the loop absorbs all of its input.
loop-Absorbed :
    (fuel : ℕ) (s : Sha1) (xs : List ℕ)
    → IsReady s
    → length xs ≤ fuel
    → Absorbed s xs (update_loop fuel s xs)
unfolding update_loop
loop-Absorbed fuel s [] v h = record {
  ready = v;
  hashed = unfold absorb in refl;
  same_hi = refl;
  same_lo = refl;
}
loop-Absorbed zero s (b ∷ xs) v h = absurd (omega arith)
loop-Absorbed (suc fuel) s (b ∷ xs) v h =
    let n = copy_size s (b ∷ xs) in
    let fits : (n ≤ suc (length xs)) × (s.buf_used + n ≤ 64) × (0 < n) = ground arith in
    let first = step-Absorbed s n (b ∷ xs) v fits.0 fits.1 in
    let rest =
      loop-Absorbed fuel (update_step s n (b ∷ xs)) (drop n (b ∷ xs)) first.ready
        (omega (arith, length-drop n (b ∷ xs))) in
    subst (λ t. Absorbed s t (update_loop (suc fuel) s (b ∷ xs))) (take-append-drop n (b ∷ xs))
      (Absorbed-trans s _ _ (take n (b ∷ xs)) (drop n (b ∷ xs)) first rest)

-- `wby_sha1_update` absorbs its input, and counts its bits.
pub record Updated (s : Sha1) (xs : List ℕ) (t : Sha1) : Type 0 where
  pub ready : IsReady t
  pub hashed : (t.state, pending t) ≡ absorb s.state (pending s) xs
  pub counted :
      length xs < 2 ^ 29
      → s.msg_size_lo < 2 ^ 32
      → s.msg_size_hi * 2 ^ 32 + s.msg_size_lo + length xs * 8 < 2 ^ 64
      → (t.msg_size_hi * 2 ^ 32 + t.msg_size_lo
          ≡ s.msg_size_hi * 2 ^ 32 + s.msg_size_lo + length xs * 8)
        × (t.msg_size_lo < 2 ^ 32)

pub update-Updated : (s : Sha1) (xs : List ℕ) → IsReady s → Updated s xs (sha1_update s xs)
unfolding sha1_update count_bits
update-Updated s xs v =
    let looped = loop-Absorbed (length xs) s xs v (omega arith) in
    record {
      ready = record { sized = looped.ready.sized; room = looped.ready.room };
      hashed = looped.hashed;
      counted = λ small lo fits. ground (arith, looped.same_hi, looped.same_lo);
    }
