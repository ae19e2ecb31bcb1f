-- ===== src/Mumux/Sha/Final.antt =====
-- `wby_sha1_final` pads as FIPS 180 does, so that any sequence of updates yields the digest of the
-- bytes given to them.
use mavicona.Base.{
  ℕ, ◌+◌, ◌*◌, ◌/◌, ◌%◌, ◌^◌, ◌<◌, ◌≡◌, refl, sym, ap, ◌∙◌, List, [], ◌∷◌, ◌++◌, append-nil,
  append_assoc, arith, length, length-append, length-take, replicate, length-replicate, All,
}
use mavicona.Mumux.Sha.{Sha1, sha1_init, sha1_update, finish, sha1_final, state_bytes}
use mavicona.Mumux.Sha.Block.{Words}
use mavicona.Mumux.Sha.Absorb.{
  absorb, absorb-append, absorb_blocks, length-absorb, zeros, bit_count, padding, initial, digest,
}
use mavicona.Mumux.Sha.Update.{IsReady, pending, update-Updated}
use mavicona.Mumux.Sha.Padding.{finish-Hashed}

-- Calls of `wby_sha1_update` one after the other, and the bytes given to them.
abbrev pub update_all : Sha1 → List (List ℕ) → Sha1
update_all s [] = s
update_all s (xs ∷ xss) = update_all (sha1_update s xs) xss

abbrev pub joined : List (List ℕ) → List ℕ
joined [] = []
joined (xs ∷ xss) = xs ++ joined xss

-- What a context holds after the bytes `done`.
record Holds (s : Sha1) (done : List ℕ) : Type 0 where
  ready : IsReady s
  hashed : (s.state, pending s) ≡ absorb initial [] done
  count : s.msg_size_hi * 2 ^ 32 + s.msg_size_lo ≡ length done * 8
  low : s.msg_size_lo < 2 ^ 32

init-Holds : (s : Sha1) → length s.buffer ≡ 64 → Holds (sha1_init s) []
unfolding sha1_init absorb
init-Holds s h = record {
  ready = record { sized = h; room = omega arith };
  hashed = refl;
  count = omega arith;
  low = omega arith;
}

update-Holds :
    (s : Sha1) (done xs : List ℕ)
    → Holds s done
    → length xs < 2 ^ 29
    → length done + length xs < 2 ^ 61
    → Holds (sha1_update s xs) (done ++ xs)
update-Holds s done xs h small fits =
    let u = update-Updated s xs h.ready in
    let counted = u.counted small h.low (omega (arith, h.count)) in
    record {
      ready = u.ready;
      hashed =
          u.hashed
          ∙ ap (λ (w : Words × List ℕ). absorb w.0 w.1 xs) h.hashed
          ∙ sym (absorb-append initial [] done xs);
      count = omega (arith, counted.0, h.count, length-append done xs);
      low = counted.1;
    }

update_all-Holds :
    (xss : List (List ℕ)) (s : Sha1) (done : List ℕ)
    → Holds s done
    → All (λ xs. length xs < 2 ^ 29) xss
    → length done + length (joined xss) < 2 ^ 61
    → Holds (update_all s xss) (done ++ joined xss)
update_all-Holds [] s done h small fits = rw append-nil h
update_all-Holds (xs ∷ xss) s done h (x_small, small) fits =
    rw (← append_assoc done xs (joined xss)) (
      update_all-Holds xss (sha1_update s xs) (done ++ xs)
        (update-Holds s done xs h x_small (omega (arith, length-append xs (joined xss)))) small
        (omega (arith, length-append xs (joined xss), length-append done xs)))

length-padding : (n : ℕ) → length (padding n) ≡ 9 + zeros n
length-padding n = omega (
  arith,
  length-append (replicate (zeros n) 0) (bit_count n),
  length-replicate {A = ℕ} (zeros n) 0,
)

final-digest : (s : Sha1) (msg : List ℕ) → Holds s msg → sha1_final s ≡ digest msg
unfolding sha1_final digest
final-digest s msg h =
    let n = length msg in
    let padded = msg ++ padding n in
    let used : s.buf_used ≡ n % 64 = omega (
      arith,
      length-take s.buf_used s.buffer,
      h.ready.sized,
      h.ready.room,
      ap (λ (w : Words × List ℕ). length w.1) h.hashed,
      length-absorb initial [] msg (omega arith),
    ) in
    let last = finish-Hashed s n h.ready used h.count h.low in
    let whole : length padded ≡ length padded / 64 * 64 =
      omega (arith, length-append msg (padding n), length-padding n) in
    let all : ((finish s).state, pending (finish s)) ≡ absorb initial [] padded =
      last.hashed
      ∙ ap (λ (w : Words × List ℕ). absorb w.0 w.1 (padding n)) h.hashed
      ∙ sym (absorb-append initial [] msg (padding n)) in
    ap (λ (w : Words × List ℕ). state_bytes w.0)
      (all ∙ absorb_blocks (length padded / 64) initial padded whole)

-- From a context whose buffer has 64 bytes, `wby_sha1_init`, any sequence of `wby_sha1_update`
-- calls on fewer than 2 ^ 29 bytes each and 2 ^ 61 bytes together, and `wby_sha1_final` yield the
-- digest of the bytes joined: the block function folded over the message padded with a one bit,
-- zeros and its length in bits.
pub final-update_all :
    (s : Sha1) (xss : List (List ℕ))
    → length s.buffer ≡ 64
    → All (λ xs. length xs < 2 ^ 29) xss
    → length (joined xss) < 2 ^ 61
    → sha1_final (update_all (sha1_init s) xss) ≡ digest (joined xss)
final-update_all s xss sized small fits =
    final-digest (update_all (sha1_init s) xss) (joined xss)
      (update_all-Holds xss (sha1_init s) [] (init-Holds s sized) small (omega arith))
