-- ===== src/Mumux/Socket/Reading.antt =====
-- What the loop of `wby_socket_recv` reads into its buffer.
use mavicona.Base.{
  ℕ, zero, suc, ◌-◌, ◌≤◌, ◌<◌, ◌≡◌, ◌≢◌, refl, sym, ap, ◌∙◌, Bool-cases, List, [], ◌∷◌, ◌++◌,
  append-nil, append_assoc, arith, ◌==◌, length, length-append, inl, inr,
}
use mavicona.Mumux.Socket.{
  Network, bytes_of, Buffer, Recv, received, failed, Fill, fill_ok, fill_full, fill_error,
  is_blocking_error, after_recv, recv_loop, socket_recv,
}

-- The bytes that the socket has given out, in order: `recv` gives at most as many as it is asked
-- for.
pub record RecvLaws (N : Network) : Type 0 where
  pub given : N.Sock → List ℕ
  pub recv-bound : (s : N.Sock) (n : ℕ) → length (bytes_of (N.recv s n).0) ≤ n
  pub recv-given : (s : N.Sock) (n : ℕ) → given (N.recv s n).1 ≡ given s ++ bytes_of (N.recv s n).0

-- `new` was read behind what the buffer held. The result tells a full buffer, a socket with nothing
-- more to give yet, and one that is closed or has failed.
pub record Filled (N : Network) (L : RecvLaws N) (s : N.Sock) (buf : Buffer)
    (r : Fill × (N.Sock × Buffer)) : Type 0 where
  pub new : List ℕ
  pub read : L.given r.1.0 ≡ L.given s ++ new
  pub stored : r.1.1.bytes ≡ buf.bytes ++ new
  pub same_max : r.1.1.max ≡ buf.max
  pub fits : length r.1.1.bytes ≤ buf.max
  pub full : r.0 ≡ fill_full → length r.1.1.bytes ≡ buf.max
  pub room : r.0 ≡ fill_ok → length r.1.1.bytes ≢ buf.max

module _ (N : Network) (L : RecvLaws N) where
  nothing_read :
      (s s' : N.Sock) (buf : Buffer) (result : Fill)
      → L.given s' ≡ L.given s ++ []
      → length buf.bytes < buf.max
      → result ≢ fill_full
      → Filled N L s buf (result, (s', buf))
  nothing_read s s' buf result e h other = record {
    new = [];
    read = e;
    stored = sym (append-nil buf.bytes);
    same_max = refl;
    fits = omega arith;
    full = λ f. absurd (other f);
    room = λ o. omega arith;
  }

  some_read :
      (s s' : N.Sock) (buf : Buffer) (b : ℕ) (bs : List ℕ) (r : Fill × (N.Sock × Buffer))
      → L.given s' ≡ L.given s ++ (b ∷ bs)
      → Filled N L s' (record buf { bytes = buf.bytes ++ (b ∷ bs) }) r
      → Filled N L s buf r
  some_read s s' buf b bs r e h = record {
    new = b ∷ bs ++ h.new;
    read = h.read ∙ (ap (λ t. t ++ h.new) e ∙ append_assoc (L.given s) (b ∷ bs) h.new);
    stored = h.stored ∙ append_assoc buf.bytes (b ∷ bs) h.new;
    same_max = h.same_max;
    fits = h.fits;
    full = h.full;
    room = h.room;
  }

  -- The part of a round behind the `recv`.
  round-Filled :
      (fuel : ℕ) (s s' : N.Sock) (buf : Buffer) (err : Recv)
      → L.given s' ≡ L.given s ++ bytes_of err
      → length (bytes_of err) ≤ buf.max - length buf.bytes
      → length buf.bytes < buf.max
      → ((b : ℕ) (bs : List ℕ)
          → err ≡ received (b ∷ bs)
          → Filled N L s'
              (record buf { bytes = buf.bytes ++ (b ∷ bs) })
              (recv_loop N fuel s' (record buf { bytes = buf.bytes ++ (b ∷ bs) })))
      → Filled N L s buf (elim (after_recv N buf err) [
        | inl result ↦ (result, (s', buf))
        | inr buf' ↦ recv_loop N fuel s' buf'
      ])
  unfolding after_recv
  round-Filled fuel s s' buf (received []) e le lt next =
      nothing_read s s' buf fill_error e lt (λ f. cc)
  round-Filled fuel s s' buf (received (b ∷ bs)) e le lt next =
      some_read s s' buf b bs _ e (next b bs refl)
  round-Filled fuel s s' buf (failed error) e le lt next =
      elim (Bool-cases (is_blocking_error N error)) [
        | inl again ↦ rw again (nothing_read s s' buf fill_ok e lt (λ f. cc))
        | inr other ↦ rw other (nothing_read s s' buf fill_error e lt (λ f. cc))
      ]

  full_already :
      (s : N.Sock) (buf : Buffer)
      → length buf.bytes ≡ buf.max
      → Filled N L s buf (fill_full, (s, buf))
  full_already s buf h = record {
    new = [];
    read = sym (append-nil (L.given s));
    stored = sym (append-nil buf.bytes);
    same_max = refl;
    fits = omega arith;
    full = λ f. h;
    room = λ o. cc;
  }

  loop-Filled :
      (fuel : ℕ) (s : N.Sock) (buf : Buffer)
      → length buf.bytes ≤ buf.max
      → buf.max - length buf.bytes ≤ fuel
      → Filled N L s buf (recv_loop N fuel s buf)
  unfolding recv_loop
  loop-Filled zero s buf fits h = full_already s buf (omega arith)
  loop-Filled (suc fuel) s buf fits h =
      let buf_left = buf.max - length buf.bytes in
      let err = (N.recv s buf_left).0 in
      let bound = L.recv-bound s buf_left in
      elim (Bool-cases (buf_left == 0)) [
        | inl e ↦ rw e (full_already s buf (ground arith))
        | inr e ↦
            let room : length buf.bytes < buf.max = ground arith in
            rw e (
              round-Filled fuel s (N.recv s buf_left).1 buf err (L.recv-given s buf_left) bound room
                (λ b bs is.
                  let n : length (b ∷ bs) ≤ buf_left =
                    omega (arith, bound, ap (λ r. length (bytes_of r)) is) in
                  let sum = length-append buf.bytes (b ∷ bs) in
                  loop-Filled fuel (N.recv s buf_left).1
                    (record buf { bytes = buf.bytes ++ (b ∷ bs) }) (omega arith) (omega arith)))
      ]

  -- Into a buffer that is not over-full, what `wby_socket_recv` stores is what the socket gave, in
  -- order, behind what was there; the buffer keeps its size and is not over-full; WBY_FILL_FULL is
  -- returned only with a full buffer, and WBY_FILL_OK only with one that has room.
  pub socket_recv-Filled :
      (s : N.Sock) (buf : Buffer)
      → length buf.bytes ≤ buf.max
      → Filled N L s buf (socket_recv N s buf)
  unfolding socket_recv
  socket_recv-Filled s buf fits = loop-Filled (buf.max - length buf.bytes) s buf fits (omega arith)
