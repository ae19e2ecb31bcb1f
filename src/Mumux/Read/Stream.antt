-- ===== src/Mumux/Read/Stream.antt =====
-- What a read takes, from the buffers and then from the socket.
use mavicona.Base.{
  ℕ, zero, suc, ◌+◌, ◌-◌, ◌≤◌, ◌<◌, ◌^◌, ◌≡◌, ◌≢◌, refl, sym, ap, ◌∙◌, Bool, true, false, ◌&&◌,
  Option, none, some, List, [], ◌∷◌, ◌++◌, append-nil, append_assoc, arith, ◌==◌, length,
  length-append, inl, inr, ◌⊎◌,
}
use mavicona.Mumux.Socket.{Network, Recv, received, failed, bytes_of}
use mavicona.Mumux.Socket.Reading.{RecvLaws}
use mavicona.Mumux.Connection.{Connection}
use mavicona.Mumux.Read.{recv_exact, read, after_read, shown}
use mavicona.Mumux.Read.Buffered.{IsOpen, waiting, buffered, IsCounted, read_buffered-Given}
use mavicona.Mumux.Read.Mask.{Shown, shown-Shown}

-- What the socket gives for `len` bytes.
record Exact (N : Network) (L : RecvLaws N) (s : N.Sock) (len : ℕ)
    (r : Option (Bool × (List ℕ × N.Sock))) : Type 0 where
  ok : Bool
  new : List ℕ
  after : N.Sock
  ends : r ≡ some (ok, (new, after))
  read : L.given after ≡ L.given s ++ new
  whole : ok ≡ true → length new ≡ len
  within : length new ≤ len

nil_of_length : (xs : List ℕ) → length xs ≡ 0 → xs ≡ []
nil_of_length [] e = refl
nil_of_length (x ∷ xs) e = absurd (omega arith)

module _ (head body tail left_1 left_2 : List ℕ) where
  -- The order of the bytes, where the second buffer is read only once the first one is empty, and
  -- the socket only once both are.
  commute : (length tail ≡ 0) ⊎ (left_2 ≡ []) → tail ++ left_2 ≡ left_2 ++ tail
  commute (inl e) = rw (nil_of_length tail e) (sym (append-nil left_2))
  commute (inr e) = rw e (append-nil tail)

  shuffle :
      (length tail ≡ 0) ⊎ (left_2 ≡ [])
      → (length (body ++ tail) ≡ 0) ⊎ (left_1 ≡ [])
      → ((head ++ body) ++ tail) ++ (left_1 ++ left_2)
        ≡ ((head ++ left_1) ++ (body ++ left_2)) ++ tail
  shuffle last (inr e) =
      rw e (simp (append_assoc, append-nil) (ap (λ t. head ++ (body ++ t)) (commute last)))
  shuffle last (inl e) =
      let size = length-append body tail in
      rw (nil_of_length body (omega (arith, size)), nil_of_length tail (omega (arith, size)))
        (simp (append_assoc, append-nil) refl)

module _ (N : Network) (L : RecvLaws N) (open_peer : IsOpen N) where
  round-Exact :
      (fuel : ℕ) (s s' : N.Sock) (len : ℕ) (err : Recv)
      → err ≢ received []
      → L.given s' ≡ L.given s ++ bytes_of err
      → length (bytes_of err) ≤ len
      → ((b : ℕ) (bs : List ℕ)
          → length (b ∷ bs) ≤ len
          → Exact N L s' (len - length (b ∷ bs)) (recv_exact N fuel s' (len - length (b ∷ bs))))
      → Exact N L s len (elim err [
        | failed error ↦ some (false, ([], s'))
        | received bytes ↦ elim (recv_exact N fuel s' (len - length bytes)) [
          | none ↦ none
          | some (ok, (more, s'')) ↦ some (ok, (bytes ++ more, s''))
        ]
      ])
  round-Exact fuel s s' len (failed error) some_bytes e le next = record {
    ok = false;
    new = [];
    after = s';
    ends = refl;
    read = e;
    whole = λ bad. cc;
    within = omega arith;
  }
  round-Exact fuel s s' len (received []) some_bytes e le next = absurd (some_bytes refl)
  round-Exact fuel s s' len (received (b ∷ bs)) some_bytes e le next =
      let rest = next b bs le in
      let size = length-append (b ∷ bs) rest.new in
      record {
        ok = rest.ok;
        new = (b ∷ bs) ++ rest.new;
        after = rest.after;
        ends = rw rest.ends;
        read = rest.read ∙ (ap (λ t. t ++ rest.new) e ∙ append_assoc (L.given s) (b ∷ bs) rest.new);
        whole = λ good. omega (arith, size, rest.whole good);
        within = omega (arith, size, rest.within);
      }

  nothing :
      {r : Option (Bool × (List ℕ × N.Sock))} (s : N.Sock)
      → r ≡ some (true, ([], s))
      → Exact N L s 0 r
  nothing s e = record {
    ok = true;
    new = [];
    after = s;
    ends = e;
    read = sym (append-nil (L.given s));
    whole = λ good. refl;
    within = omega arith;
  }

  recv_exact-Exact :
      (fuel : ℕ) (s : N.Sock) (len : ℕ) → len ≤ fuel → Exact N L s len (recv_exact N fuel s len)
  unfolding recv_exact
  recv_exact-Exact zero s zero h = nothing s refl
  recv_exact-Exact (suc fuel) s zero h = nothing s refl
  recv_exact-Exact zero s (suc len) h = absurd (omega arith)
  recv_exact-Exact (suc fuel) s (suc len) h =
      let more : (suc len == 0) ≡ false = ground arith in
      rw more (
        round-Exact fuel s (N.recv s (suc len)).1 (suc len) (N.recv s (suc len)).0
          (open_peer s (suc len) (omega arith)) (L.recv-given s (suc len))
          (L.recv-bound s (suc len))
          (λ b bs le.
            recv_exact-Exact fuel (N.recv s (suc len)).1 (suc len - length (b ∷ bs)) (omega arith)))

  -- What a read of `len` bytes does: `raw` are the bytes it took, `new` those of the socket, and
  -- `bytes` those that it shows.
  pub record Streamed (conn : Connection N.Sock) (len : ℕ)
      (r : Option (Bool × (List ℕ × Connection N.Sock))) : Type 0 where
    pub ok : Bool
    pub raw : List ℕ
    pub new : List ℕ
    pub bytes : List ℕ
    pub after : Connection N.Sock
    pub ends : r ≡ some (ok, (bytes, after))
    pub in_order : raw ++ buffered after ≡ buffered conn ++ new
    pub received : L.given after.socket ≡ L.given conn.socket ++ new
    pub whole : ok ≡ true → length raw ≡ len
    pub shows : Shown conn ok raw bytes
    pub counted : after.body_bytes_read ≡ conn.body_bytes_read + length raw
    pub survives : after.flags.alive ≡ (conn.flags.alive && ok)
    pub within : IsCounted after

  -- A read of `len` bytes from a peer that has not closed ends within `len` rounds, where `len` and
  -- the position in the body behind the read are less than 2 ^ 31. It takes the bytes that wait in the
  -- header's buffer, those that wait in the I/O buffer and those of the socket in this order, skips
  -- and repeats none, and, where it succeeds, takes `len`. It shows them as they are; or, where it
  -- succeeds on a WebSocket whose frame is masked, shows the exclusive or of each byte with the byte
  -- of the key at its position in the frame modulo 4. The position moves on by as many bytes as were
  -- taken. A failure ends the connection.
  pub read-Streamed :
      (fuel : ℕ) (conn : Connection N.Sock) (len : ℕ)
      → len ≤ fuel
      → len < 2 ^ 31
      → conn.body_bytes_read + len < 2 ^ 31
      → IsCounted conn
      → Streamed conn len (read N fuel conn len)
  unfolding read
  read-Streamed fuel conn len h short held v =
      let (one, e1, g1) =
        read_buffered-Given conn.header_body_left conn.header_buf len v.header_within short in
      let (two, e2, g2) =
        read_buffered-Given conn.io_data_left conn.io_buf one.1.1 v.data_within
          (omega (arith, g1.counted)) in
      let x = recv_exact-Exact fuel conn.socket two.1.1 (omega (arith, g1.counted, g2.counted)) in
      let size = length-append two.0 x.new in
      let size' = length-append (one.0 ++ two.0) x.new in
      let size'' = length-append one.0 two.0 in
      rw (e1, e2, x.ends, read)
        (record {
          ok = x.ok;
          raw = (one.0 ++ two.0) ++ x.new;
          new = x.new;
          bytes = shown N conn x.ok conn.body_bytes_read ((one.0 ++ two.0) ++ x.new);
          after =
              after_read N
                (record conn {
                  header_body_left = one.1.0;
                  io_data_left = two.1.0;
                  body_bytes_read = conn.body_bytes_read + (len - two.1.1);
                })
                x.ok (length x.new) x.after;
          ends = refl;
          in_order =
              shuffle one.0 two.0 x.new (waiting one.1.0 conn.header_buf)
                (waiting two.1.0 conn.io_buf)
                (elim g2.first [ inl e ↦ inl (omega (arith, x.within)) | inr e ↦ inr e ])
                (elim g1.first [
                  | inl e ↦ inl (omega (arith, x.within, g2.counted, length-append two.0 x.new))
                  | inr e ↦ inr e
                ])
              ∙ rw (g1.in_order, g2.in_order);
          received = x.read;
          whole = λ good. omega (arith, size', size'', x.whole good, g1.counted, g2.counted);
          shows = shown-Shown N conn x.ok ((one.0 ++ two.0) ++ x.new);
          counted = omega (arith, size', size'', g1.counted, g2.counted);
          survives = refl;
          within = record {
            header_within = omega (arith, g1.less, v.header_within);
            data_within = omega (arith, g2.less, v.data_within);
          };
        })
