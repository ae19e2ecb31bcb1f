-- ===== src/Mumux/Read/Buffered.antt =====
-- What waits in the buffers of a connection, and what a read takes from one of them.
use mavicona.Base.{
  ℕ, refl, ◌^◌, ◌==◌, some, u32, ◌+◌, ◌-◌, ◌≤◌, ◌<◌, ◌≡◌, ◌≢◌, sym, ap, ◌∙◌, Bool-cases, List, [],
  ◌++◌, arith, min, length, take, drop, ltb, drop_all, drop-drop, length-take, length-drop,
  take-append-drop, inl, inr, ◌⊎◌,
}
use mavicona.Base.Int.{pos, to_int}
use mavicona.Mumux.Socket.{Network, received, Buffer}
use mavicona.Mumux.Connection.{Connection}
use mavicona.Mumux.Read.{read_buffered_data}

-- A peer that has not closed: a `recv` gives some bytes or fails.
abbrev pub IsOpen : Network → Type 0
IsOpen N = (s : N.Sock) (n : ℕ) → 0 < n → (N.recv s n).0 ≢ received []

-- The last `data_left` bytes of a buffer.
abbrev pub waiting : ℕ → Buffer → List ℕ
waiting data_left buffer = drop (length buffer.bytes - data_left) buffer.bytes

-- The bytes that wait in the two buffers of a connection.
abbrev pub buffered : {S : Type 0} → Connection S → List ℕ
buffered conn =
    waiting conn.header_body_left conn.header_buf ++ waiting conn.io_data_left conn.io_buf

-- No more waits than a buffer holds.
pub record IsCounted {S : Type 0} (conn : Connection S) : Type 0 where
  pub header_within : conn.header_body_left ≤ length conn.header_buf.bytes
  pub data_within : conn.io_data_left ≤ length conn.io_buf.bytes

-- What one buffer gives: the copy and what waits then are what waited; a read that is not yet
-- complete has left nothing waiting.
pub record Given (data_left : ℕ) (buffer : Buffer) (len : ℕ) (r : List ℕ × (ℕ × ℕ)) : Type 0 where
  pub in_order : r.0 ++ waiting r.1.0 buffer ≡ waiting data_left buffer
  pub counted : length r.0 + r.1.1 ≡ len
  pub less : r.1.0 ≤ data_left
  pub first : (r.1.1 ≡ 0) ⊎ (waiting r.1.0 buffer ≡ [])

pub read_buffered-Given :
    (data_left : ℕ) (buffer : Buffer) (len : ℕ)
    → data_left ≤ length buffer.bytes
    → len < 2 ^ 31
    → (r : List ℕ × (ℕ × ℕ)) × (read_buffered_data data_left buffer len ≡ some r)
      × Given data_left buffer len r
unfolding read_buffered_data
read_buffered-Given data_left buffer len h short = elim (Bool-cases (data_left == 0)) [
  | inl e ↦
      let zero_left : data_left ≡ 0 = ground arith in
      let nothing = drop_all (length buffer.bytes - 0) buffer.bytes (omega arith) in
      (
        ([], (0, len)),
        simp e refl,
        record {
          in_order = ap (λ n. drop (length buffer.bytes - n) buffer.bytes) (sym zero_left);
          counted = omega arith;
          less = omega arith;
          first = inr nothing;
        },
      )
  | inr e ↦
      let used = length buffer.bytes in
      let n = min len data_left in
      let at : used - data_left + n ≡ used - (data_left - n) = omega arith in
      let size = length-take n (waiting data_left buffer) in
      let size' = length-drop (used - data_left) buffer.bytes in
      let word : u32 len ≡ len = omega (arith, short) in
      let same : to_int (u32 len) ≡ pos len = ground (arith, word) in
      (
        (take n (waiting data_left buffer), (data_left - n, len - n)),
        rw (same, read_buffered_data) (simp e refl),
        record {
          in_order =
              ap (λ t. take n (waiting data_left buffer) ++ t)
                (ap (λ t. drop t buffer.bytes) (sym at)
                  ∙ sym (drop-drop n (used - data_left) buffer.bytes))
              ∙ take-append-drop n (waiting data_left buffer);
          counted = omega (arith, size, size');
          less = omega arith;
          first = elim (Bool-cases (ltb data_left len)) [
            | inr e ↦ inl (ground arith)
            | inl e ↦
                let none_left : data_left - n ≡ 0 = ground arith in
                inr (drop_all (used - (data_left - n)) buffer.bytes (omega arith))
          ];
        },
      )
]
