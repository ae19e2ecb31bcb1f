-- ===== src/Mumux/Socket/Send.antt =====
-- What the loop of `wby_socket_send` and `wby_socket_flush` make of a stream of bytes.
use mavicona.Base.{
  ℕ, zero, suc, ◌≤◌, ◌<◌, ◌≡◌, refl, sym, ap, ◌∙◌, Bool, true, false, Bool-cases, List, [], ◌∷◌,
  ◌++◌, append-nil, append_assoc, arith, ◌==◌, ==_iff, ltb, length, take, drop, take-append-drop,
  length-drop, inl, inr,
}
use mavicona.Base.Int.{pos_part}
use mavicona.Mumux.Socket.{Network, Buffer, send_loop, socket_send, socket_flush}

-- The bytes that the socket has taken, in order: `send` takes as many as it returns, from the
-- front, and none when it fails.
pub record SendLaws (N : Network) : Type 0 where
  pub sent : N.Sock → List ℕ
  pub send-bound : (s : N.Sock) (bytes : List ℕ) → pos_part (N.send s bytes).0 ≤ length bytes
  pub send-sent :
      (s : N.Sock) (bytes : List ℕ)
      → sent (N.send s bytes).1 ≡ sent s ++ take (pos_part (N.send s bytes).0) bytes

-- A socket that takes at least one byte of what it is offered.
abbrev pub IsReliable : Network → Type 0
IsReliable N = (s : N.Sock) (b : ℕ) (bytes : List ℕ) → 0 < pos_part (N.send s (b ∷ bytes)).0

-- Of `bytes`, all but `unsent` went out behind `before`, and all of them where the result is good.
pub record Accounted (before bytes : List ℕ) (ok : Bool) (after : List ℕ) : Type 0 where
  pub unsent : List ℕ
  pub in_order : after ++ unsent ≡ before ++ bytes
  pub none_left : ok ≡ true → unsent ≡ []

pub Accounted-whole :
    {before bytes after : List ℕ} {ok : Bool}
    → Accounted before bytes ok after
    → ok ≡ true
    → after ≡ before ++ bytes
Accounted-whole {after} a e =
    sym (append-nil after) ∙ ap (λ t. after ++ t) (sym (a.none_left e)) ∙ a.in_order

-- What a flush leaves in the buffer.
pub record Flushed (N : Network) (bytes : List ℕ) (m : ℕ) (flushed : Bool × (N.Sock × Buffer))
    : Type 0 where
  pub emptied : flushed.0 ≡ true → flushed.1.1.bytes ≡ []
  pub shorter : length flushed.1.1.bytes ≤ length bytes
  pub same_max : flushed.1.1.max ≡ m
  pub good : IsReliable N → flushed.0 ≡ true

module _ (N : Network) (L : SendLaws N) where
  send_loop-Accounted :
      (fuel : ℕ) (s : N.Sock) (bytes : List ℕ)
      → length bytes ≤ fuel
      → Accounted
          (L.sent s)
          bytes
          (send_loop N fuel s bytes).0
          (L.sent (send_loop N fuel s bytes).1)
  unfolding send_loop
  send_loop-Accounted fuel s [] h = record { unsent = []; in_order = refl; none_left = λ e. refl }
  send_loop-Accounted zero s (b ∷ bytes) h = absurd (omega arith)
  send_loop-Accounted (suc fuel) s (b ∷ bytes) h =
      let n : ℕ = pos_part (N.send s (b ∷ bytes)).0 in
      let s' = (N.send s (b ∷ bytes)).1 in
      elim (Bool-cases (n == 0)) [
        | inl e ↦
            let none_sent : L.sent s' ≡ L.sent s =
              L.send-sent s (b ∷ bytes)
              ∙ (ap (λ k. L.sent s ++ take k (b ∷ bytes)) ((==_iff n 0).0 e)
                  ∙ append-nil (L.sent s)) in
            rw e (record {
              unsent = b ∷ bytes;
              in_order = ap (λ t. t ++ (b ∷ bytes)) none_sent;
              none_left = λ bad. cc;
            })
        | inr e ↦
            let rest =
              send_loop-Accounted fuel s' (drop n (b ∷ bytes))
                (ground (arith, length-drop n (b ∷ bytes))) in
            rw e (record {
              unsent = rest.unsent;
              in_order =
                  rest.in_order
                  ∙ (ap (λ t. t ++ drop n (b ∷ bytes)) (L.send-sent s (b ∷ bytes))
                      ∙ (append_assoc (L.sent s) (take n (b ∷ bytes)) (drop n (b ∷ bytes))
                          ∙ ap (λ t. L.sent s ++ t) (take-append-drop n (b ∷ bytes))));
              none_left = rest.none_left;
            })
      ]

  send_loop_reliable :
      IsReliable N → (fuel : ℕ) (s : N.Sock) (bytes : List ℕ) → (send_loop N fuel s bytes).0 ≡ true
  unfolding send_loop
  send_loop_reliable r fuel s [] = refl
  send_loop_reliable r zero s (b ∷ bytes) = refl
  send_loop_reliable r (suc fuel) s (b ∷ bytes) =
      let n : ℕ = pos_part (N.send s (b ∷ bytes)).0 in
      let some_sent : (n == 0) ≡ false = ground (arith, r s b bytes) in
      rw some_sent (send_loop_reliable r fuel (N.send s (b ∷ bytes)).1 (drop n (b ∷ bytes)))

  pub socket_send-Accounted :
      (s : N.Sock) (bytes : List ℕ)
      → Accounted (L.sent s) bytes (socket_send N s bytes).0 (L.sent (socket_send N s bytes).1)
  unfolding socket_send
  socket_send-Accounted s bytes = send_loop-Accounted (length bytes) s bytes (omega arith)

  pub socket_send_reliable :
      IsReliable N → (s : N.Sock) (bytes : List ℕ) → (socket_send N s bytes).0 ≡ true
  unfolding socket_send
  socket_send_reliable r s bytes = send_loop_reliable r (length bytes) s bytes

  flush_bytes :
      (s : N.Sock) (bytes : List ℕ) (m : ℕ)
      → let flushed = socket_flush N s (record { bytes = bytes; max = m }) in
        Accounted (L.sent s) bytes flushed.0 (L.sent flushed.1.0)
  unfolding socket_flush
  flush_bytes s [] m = record { unsent = []; in_order = refl; none_left = λ e. refl }
  flush_bytes s (b ∷ bs) m =
      let sent_all = socket_send-Accounted s (b ∷ bs) in
      let filled : ltb 0 (length (b ∷ bs)) ≡ true = ground arith in
      elim (Bool-cases (socket_send N s (b ∷ bs)).0) [
        | inl e ↦ rw (filled, e) (rw e at sent_all)
        | inr e ↦ rw (filled, e) (rw e at sent_all)
      ]

  -- After a flush the bytes of the buffer are accounted for.
  pub flush-Accounted :
      (s : N.Sock) (buf : Buffer)
      → Accounted (L.sent s) buf.bytes (socket_flush N s buf).0 (L.sent (socket_flush N s buf).1.0)
  flush-Accounted s buf = flush_bytes s buf.bytes buf.max

  flush_bytes-Flushed :
      (s : N.Sock) (bytes : List ℕ) (m : ℕ)
      → Flushed N bytes m (socket_flush N s (record { bytes = bytes; max = m }))
  unfolding socket_flush
  flush_bytes-Flushed s [] m = record {
    emptied = λ e. refl;
    shorter = omega arith;
    same_max = refl;
    good = λ r. refl;
  }
  flush_bytes-Flushed s (b ∷ bs) m =
      let good_send : IsReliable N → (socket_send N s (b ∷ bs)).0 ≡ true =
        λ r. socket_send_reliable r s (b ∷ bs) in
      let filled : ltb 0 (length (b ∷ bs)) ≡ true = ground arith in
      elim (Bool-cases (socket_send N s (b ∷ bs)).0) [
        | inl e ↦
            rw (filled, e)
              (record {
                emptied = λ e. refl;
                shorter = omega arith;
                same_max = refl;
                good = λ r. refl;
              })
        | inr e ↦
            rw (filled, e)
              (record {
                emptied = λ bad. cc;
                shorter = omega arith;
                same_max = refl;
                good = λ r. rw e at (good_send r);
              })
      ]

  pub flush-Flushed :
      (s : N.Sock) (buf : Buffer) → Flushed N buf.bytes buf.max (socket_flush N s buf)
  flush-Flushed s buf = flush_bytes-Flushed s buf.bytes buf.max
