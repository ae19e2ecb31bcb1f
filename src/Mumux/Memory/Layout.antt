-- ===== src/Mumux/Memory/Layout.antt =====
-- The buffers stand in the memory of the server, one behind the other.
use mathlib.Core.Path.{subst}
use mavicona.Base.{
  ℕ, zero, suc, ◌+◌, ◌-◌, ◌*◌, ◌/◌, ◌%◌, ◌^◌, ◌≤◌, ◌<◌, ◌≡◌, refl, sym, ap, ◌∙◌, bit_and, u64, some,
  List, [], ◌∷◌, length, get_elem?, arith,
}
use mavicona.Base.Bits.{bit_and_ones, bit_and_field}
use native.Mathlib.Nat.{
  add-zero, pow-suc, mul_assoc, one-le-pow, mod-eq_of_lt, div-lt_iff_lt-mul, lt-div-mul-add,
  div-mul-le_self, mul-mod_left, mul-sub, mul_comm, suc-mul, zero-mul,
}
use mavicona.Mumux.Memory.{Sizes, Place, needed_memory, align_ptr, place_loop, set_up_memory}

pow_sum : (d k : ℕ) → 2 ^ (d + k) ≡ 2 ^ d * 2 ^ k
pow_sum d zero = ap (λ n. 2 ^ n) (add-zero d) ∙ omega arith
pow_sum d (suc k) =
    let e : d + suc k ≡ suc (d + k) = omega arith in
    ap (λ n. 2 ^ n) e
    ∙ pow-suc 2 (d + k)
    ∙ ap (λ n. n * 2) (pow_sum d k)
    ∙ mul_assoc (2 ^ d) (2 ^ k) 2
    ∙ ap (λ n. 2 ^ d * n) (sym (pow-suc 2 k))

pow_split : (k : ℕ) → k ≤ 63 → 2 ^ (64 - k) * 2 ^ k ≡ 2 ^ 64
pow_split k h =
    let e : 64 - k + k ≡ 64 = omega arith in sym (pow_sum (64 - k) k) ∙ ap (λ n. 2 ^ n) e

high_bits : (k : ℕ) → k ≤ 63 → 2 ^ 64 - 1 - (2 ^ k - 1) ≡ (2 ^ (64 - k) - 1) * 2 ^ k
high_bits k h = omega (
  arith,
  pow_split k h,
  one-le-pow k 2 (omega arith),
  mul-sub (2 ^ k) (2 ^ (64 - k)) 1,
  mul_comm (2 ^ k) (2 ^ (64 - k)),
  mul_comm (2 ^ k) (2 ^ (64 - k) - 1),
)

-- Rounding up to a multiple of the alignment.
align_ptr-div :
    (x k : ℕ)
    → k ≤ 63
    → x + 2 ^ k ≤ 2 ^ 64
    → align_ptr x (2 ^ k) ≡ (x + (2 ^ k - 1)) / 2 ^ k * 2 ^ k
unfolding align_ptr
align_ptr-div x k h fits =
    let p = one-le-pow k 2 (omega arith) in
    let y : ℕ = x + (2 ^ k - 1) in
    let below : y < 2 ^ 64 = omega arith in
    ap (λ t. bit_and t (2 ^ 64 - 1 - (2 ^ k - 1))) (mod-eq_of_lt below)
    ∙ ap (λ t. bit_and y t) (high_bits k h)
    ∙ bit_and_field k (2 ^ (64 - k) - 1) y
    ∙ ap (λ t. t * 2 ^ k)
        (bit_and_ones (64 - k) (y / 2 ^ k)
          ∙ mod-eq_of_lt ((div-lt_iff_lt-mul p).1 (rw (pow_split k h) below)))

align_ptr_lem :
    (x k : ℕ)
    → k ≤ 63
    → x + 2 ^ k ≤ 2 ^ 64
    → (x ≤ align_ptr x (2 ^ k))
      × (align_ptr x (2 ^ k) < x + 2 ^ k)
      × (align_ptr x (2 ^ k) % 2 ^ k ≡ 0)
align_ptr_lem x k h fits =
    let p = one-le-pow k 2 (omega arith) in
    let y : ℕ = x + (2 ^ k - 1) in
    rw (align_ptr-div x k h fits) (
      omega (arith, p, lt-div-mul-add {a = y} p),
      omega (arith, p, div-mul-le_self y (2 ^ k)),
      mul-mod_left (y / 2 ^ k) (2 ^ k),
    )

-- The places follow one another from `buffer` to `end`.
abbrev Consecutive : Sizes → ℕ → List Place → ℕ → Type 0
Consecutive s buffer [] end = buffer ≡ end
Consecutive s buffer (p ∷ places) end =
    (p.header_data ≡ buffer)
    × (p.io_data ≡ buffer + s.request_buffer_size)
    × Consecutive s (buffer + s.request_buffer_size + s.io_buffer_size) places end

-- The bytes of the buffers of `n` connections.
abbrev pub room : Sizes → ℕ → ℕ
room s n = n * s.request_buffer_size + n * s.io_buffer_size

room-suc :
    (s : Sizes) (n : ℕ) → room s (suc n) ≡ room s n + s.request_buffer_size + s.io_buffer_size
room-suc s n = omega (arith, suc-mul n s.request_buffer_size, suc-mul n s.io_buffer_size)

place_loop-Consecutive :
    (s : Sizes) (n buffer : ℕ)
    → buffer + room s n < 2 ^ 64
    → Consecutive s buffer (place_loop s n buffer).0 (place_loop s n buffer).1
      × ((place_loop s n buffer).1 ≡ buffer + room s n)
      × (length (place_loop s n buffer).0 ≡ n)
unfolding place_loop
place_loop-Consecutive s zero buffer h =
    (refl, omega (arith, zero-mul s.request_buffer_size, zero-mul s.io_buffer_size), refl)
place_loop-Consecutive s (suc n) buffer h =
    let more = room-suc s n in
    let next : u64 (u64 (buffer + s.request_buffer_size) + s.io_buffer_size)
        ≡ buffer + s.request_buffer_size + s.io_buffer_size =
      omega (arith, more) in
    let io : u64 (buffer + s.request_buffer_size) ≡ buffer + s.request_buffer_size =
      omega (arith, more) in
    let rest =
      place_loop-Consecutive s n (buffer + s.request_buffer_size + s.io_buffer_size)
        (omega (arith, more)) in
    rw next ((refl, io, rest.0), omega (arith, more, rest.1), omega (arith, rest.2))

some_inj : {p q : Place} → some p ≡ some q → p ≡ q
some_inj e = cc e

-- A place is behind `buffer` and in front of `end`, its output buffer behind its header buffer.
abbrev pub Within : Sizes → ℕ → ℕ → Place → Type 0
Within s buffer end p =
    (buffer ≤ p.header_data)
    × (p.header_data + s.request_buffer_size ≤ p.io_data)
    × (p.io_data + s.io_buffer_size ≤ end)

Consecutive-le :
    (s : Sizes) (buffer : ℕ) (places : List Place) (end : ℕ)
    → Consecutive s buffer places end
    → buffer ≤ end
Consecutive-le s buffer [] end h = omega arith
Consecutive-le s buffer (p ∷ places) end h =
    omega
      (arith, Consecutive-le s (buffer + s.request_buffer_size + s.io_buffer_size) places end h.2)

Consecutive-Within :
    (s : Sizes) (buffer : ℕ) (places : List Place) (end i : ℕ) (p : Place)
    → Consecutive s buffer places end
    → get_elem? places i ≡ some p
    → Within s buffer end p
Consecutive-Within s buffer [] end i p h e = absurd (cc e)
Consecutive-Within s buffer (q ∷ places) end zero p h e =
    let le = Consecutive-le s (buffer + s.request_buffer_size + s.io_buffer_size) places end h.2 in
    subst (Within s buffer end) (some_inj e)
      (omega (arith, h.0), omega (arith, h.0, h.1), omega (arith, le, h.1))
Consecutive-Within s buffer (q ∷ places) end (suc i) p h e =
    let w =
      Consecutive-Within s (buffer + s.request_buffer_size + s.io_buffer_size) places end i p h.2
        e in
    (omega (arith, w.0), w.1, w.2)

Consecutive-apart :
    (s : Sizes) (buffer : ℕ) (places : List Place) (end i j : ℕ) (p q : Place)
    → Consecutive s buffer places end
    → i < j
    → get_elem? places i ≡ some p
    → get_elem? places j ≡ some q
    → p.io_data + s.io_buffer_size ≤ q.header_data
Consecutive-apart s buffer [] end i j p q h lt e f = absurd (cc e)
Consecutive-apart s buffer (r ∷ places) end i zero p q h lt e f = absurd (omega arith)
Consecutive-apart s buffer (r ∷ places) end zero (suc j) p q h lt e f =
    let w =
      Consecutive-Within s (buffer + s.request_buffer_size + s.io_buffer_size) places end j q h.2
        f in
    omega (arith, ap (λ x. x.io_data) (some_inj e), h.1, w.0)
Consecutive-apart s buffer (r ∷ places) end (suc i) (suc j) p q h lt e f =
    Consecutive-apart s (buffer + s.request_buffer_size + s.io_buffer_size) places end i j p q h.2
      (omega arith) e f

-- The memory of `s` from the address `memory` on, as `wby_start` lays it out.
pub record LaidOut (s : Sizes) (memory : ℕ) (r : ℕ × (List Place × ℕ)) : Type 0 where
  pub aligned : r.0 % s.conn_align ≡ 0
  pub inside : memory ≤ r.0
  pub count : length r.1.0 ≡ s.connection_max
  pub fits : r.1.1 ≤ memory + needed_memory s
  pub behind :
      (i : ℕ) (p : Place)
      → get_elem? r.1.0 i ≡ some p
      → Within s (r.0 + s.connection_max * s.conn_size) r.1.1 p
  pub apart :
      (i j : ℕ) (p q : Place)
      → i < j
      → get_elem? r.1.0 i ≡ some p
      → get_elem? r.1.0 j ≡ some q
      → p.io_data + s.io_buffer_size ≤ q.header_data

-- Where the size of the memory does not overflow, the array of connections stands aligned in the
-- memory that `wby_init` asks for, with two buffers for each connection behind it, no two of which
-- overlap, and the last one ends within that memory, as the assertion of `wby_start` says.
pub set_up_memory-LaidOut :
    (s : Sizes) (memory k : ℕ)
    → k ≤ 63
    → s.conn_align ≡ 2 ^ k
    → memory + (s.connection_max * s.conn_size + room s s.connection_max + s.conn_align) < 2 ^ 64
    → LaidOut s memory (set_up_memory s memory)
unfolding set_up_memory needed_memory
set_up_memory-LaidOut s memory k small align fits =
    let con = align_ptr memory s.conn_align in
    let at : (memory ≤ con) × (con < memory + s.conn_align) × (con % s.conn_align ≡ 0) =
      subst
        (λ m.
          (memory ≤ align_ptr memory m)
          × (align_ptr memory m < memory + m)
          × (align_ptr memory m % m ≡ 0))
        (sym align) (align_ptr_lem memory k small (omega (arith, align))) in
    let start : u64 (con + s.connection_max * s.conn_size) ≡ con + s.connection_max * s.conn_size =
      omega (arith, at.1) in
    let placed =
      place_loop-Consecutive s s.connection_max (con + s.connection_max * s.conn_size)
        (omega (arith, at.1)) in
    rw start record {
      aligned = at.2;
      inside = at.0;
      count = placed.2;
      fits = omega (arith, at.1, placed.1);
      behind = λ i p e. Consecutive-Within s _ _ _ i p placed.0 e;
      apart = λ i j p q lt e f. Consecutive-apart s _ _ _ i j p q placed.0 lt e f;
    }
