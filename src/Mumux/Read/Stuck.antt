-- ===== src/Mumux/Read/Stuck.antt =====
-- A read from a peer that has closed its end.
use mavicona.Base.{
  min, take, drop, length, ℕ, List, ◌≤◌, Bool-cases, some, refl, ◌⊎◌, inl, inr, u32, zero, suc, ◌+◌,
  ◌-◌, ◌<◌, ◌≡◌, false, none, [], arith, ◌==◌,
}
use mavicona.Base.Int.{ℤ, pos, negsuc, to_int}
use mavicona.Mumux.Socket.{Network, Buffer, received}
use mavicona.Mumux.Connection.{Connection}
use mavicona.Mumux.Read.{read_buffered_data, recv_exact, read}

-- Every `recv` returns 0.
abbrev pub IsClosed : Network → Type 0
IsClosed N = (s : N.Sock) (n : ℕ) → (N.recv s n).0 ≡ received []

ℤ-cases : (z : ℤ) → ((n : ℕ) × (z ≡ pos n)) ⊎ ((n : ℕ) × (z ≡ negsuc n))
ℤ-cases (pos n) = inl (n, refl)
ℤ-cases (negsuc n) = inr (n, refl)

module _ (N : Network) (closed : IsClosed N) where
  recv_exact_stuck : (fuel : ℕ) (s : N.Sock) (len : ℕ) → 0 < len → recv_exact N fuel s len ≡ none
  unfolding recv_exact
  recv_exact_stuck fuel s zero h = absurd (omega arith)
  recv_exact_stuck zero s (suc len) h = let more : (suc len == 0) ≡ false = ground arith in rw more
  recv_exact_stuck (suc fuel) s (suc len) h =
      let more : (suc len == 0) ≡ false = ground arith in
      let rest = recv_exact_stuck fuel (N.recv s (suc len)).1 (suc len - 0) (omega arith) in
      rw (more, closed s (suc len), rest)

  -- A buffer gives no more than waits in it.
  read_buffered-cases :
      (data_left : ℕ) (buffer : Buffer) (len : ℕ)
      → (read_buffered_data data_left buffer len ≡ none)
        ⊎ ((r : List ℕ × (ℕ × ℕ)) × (read_buffered_data data_left buffer len ≡ some r)
            × (len ≤ r.1.1 + data_left))
  unfolding read_buffered_data
  read_buffered-cases data_left buffer len = elim (Bool-cases (data_left == 0)) [
    | inl e ↦ inr (([], (0, len)), simp e refl, omega arith)
    | inr e ↦ elim (ℤ-cases (to_int (u32 len))) [
      | inr (n, same) ↦ inl (rw (same, read_buffered_data) (simp e refl))
      | inl (n, same) ↦ inr (
        (
          take (min n data_left) (drop (length buffer.bytes - data_left) buffer.bytes),
          (data_left - min n data_left, len - min n data_left),
        ),
        rw (same, read_buffered_data) (simp e refl),
        omega arith,
      )
    ]
  ]

  -- From a peer that has closed, a read of more bytes than wait in the buffers has no result: it does
  -- not end, however many rounds its loop is given, unless the length is negative as an `int` and a
  -- copy of so many bytes comes first.
  pub read_stuck :
      (fuel : ℕ) (conn : Connection N.Sock) (len : ℕ)
      → conn.header_body_left + conn.io_data_left < len
      → read N fuel conn len ≡ none
  unfolding read
  read_stuck fuel conn len h =
      elim (read_buffered-cases conn.header_body_left conn.header_buf len) [
        | inl e ↦ rw (e, read) refl
        | inr (one, e, le) ↦ elim (read_buffered-cases conn.io_data_left conn.io_buf one.1.1) [
          | inl f ↦ rw (e, f, read) refl
          | inr (two, f, le') ↦
              rw (e, f, recv_exact_stuck fuel conn.socket two.1.1 (omega (arith, le, le')), read)
                refl
        ]
      ]
