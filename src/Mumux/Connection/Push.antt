-- ===== src/Mumux/Connection/Push.antt =====
-- Buffered output keeps the stream of bytes: what the socket has taken, and then what waits in the
-- buffer, is what was pushed, in order.
use mavicona.Base.{
  ℕ, zero, suc, ◌+◌, ◌-◌, ◌≤◌, ◌<◌, ◌≡◌, ◌≢◌, refl, sym, ap, ◌∙◌, Bool, true, false, Bool-cases,
  List, [], ◌∷◌, ◌++◌, append-nil, append_assoc, arith, ◌==◌, leb, min, length, length-append, take,
  drop, length-take, length-drop, take-append-drop, inl, inr,
}
use mavicona.Mumux.Socket.{Network, Buffer, socket_send, socket_flush}
use mavicona.Mumux.Socket.Send.{
  SendLaws, IsReliable, Accounted-whole, socket_send-Accounted, socket_send_reliable,
  flush-Accounted, flush-Flushed,
}
use mavicona.Mumux.Connection.{push_loop}

-- `bytes` were pushed behind the stream `before`: the socket has taken `taken`, and the buffer is
-- `buf`. Where the result is good, what the socket has not taken is what waits in the buffer.
pub record Pushed (before bytes : List ℕ) (m : ℕ) (ok : Bool) (taken : List ℕ) (buf : Buffer)
    : Type 0 where
  pub unsent : List ℕ
  pub in_order : taken ++ unsent ≡ before ++ bytes
  pub waiting : ok ≡ true → unsent ≡ buf.bytes
  pub fits : length buf.bytes ≤ m
  pub same_max : buf.max ≡ m

regroup :
    (n : ℕ) (a b bytes : List ℕ) → (a ++ (b ++ take n bytes)) ++ drop n bytes ≡ (a ++ b) ++ bytes
regroup n a b bytes =
    append_assoc a (b ++ take n bytes) (drop n bytes)
    ∙ (ap (λ t. a ++ t) (append_assoc b (take n bytes) (drop n bytes))
        ∙ (ap (λ t. a ++ (b ++ t)) (take-append-drop n bytes) ∙ sym (append_assoc a b bytes)))

module _ (N : Network) (L : SendLaws N) where
  abbrev pub AfterPush : N.Sock → Buffer → List ℕ → Bool × (N.Sock × Buffer) → Type 0
  AfterPush s buf bytes r = Pushed (L.sent s ++ buf.bytes) bytes buf.max r.0 (L.sent r.1.0) r.1.1

  module _ (s : N.Sock) (buf : Buffer) (n : ℕ) (bytes : List ℕ) where
    abbrev filled : Buffer
    filled = record buf { bytes = buf.bytes ++ take n bytes }

    go_on :
        (r : Bool × (N.Sock × Buffer))
        → AfterPush s filled (drop n bytes) r
        → AfterPush s buf bytes r
    go_on r h = record {
      unsent = h.unsent;
      in_order = h.in_order ∙ regroup n (L.sent s) buf.bytes bytes;
      waiting = h.waiting;
      fits = h.fits;
      same_max = h.same_max;
    }

    -- The flush of the filled buffer fails: what it did not send and what is left are unsent.
    flush_fails :
        (socket_flush N s filled).0 ≡ false
        → length filled.bytes ≤ buf.max
        → AfterPush s buf bytes (false, (socket_flush N s filled).1)
    flush_fails bad room =
        let a = flush-Accounted N L s filled in
        let f = flush-Flushed N L s filled in
        record {
          unsent = a.unsent ++ drop n bytes;
          in_order =
              sym (append_assoc (L.sent (socket_flush N s filled).1.0) a.unsent (drop n bytes))
              ∙ (ap (λ t. t ++ drop n bytes) a.in_order ∙ regroup n (L.sent s) buf.bytes bytes);
          waiting = λ e. cc;
          fits = omega (arith, f.shorter);
          same_max = f.same_max;
        }

    -- After a good flush the stream is the same, and all of it is sent.
    flushed_stream :
        (socket_flush N s filled).0 ≡ true
        → L.sent (socket_flush N s filled).1.0 ≡ L.sent s ++ filled.bytes
    flushed_stream good = Accounted-whole (flush-Accounted N L s filled) good

    -- After a good flush the rest is sent as it stands.
    send_rest :
        (socket_flush N s filled).0 ≡ true
        → AfterPush s buf bytes (
          (socket_send N (socket_flush N s filled).1.0 (drop n bytes)).0,
          (
            (socket_send N (socket_flush N s filled).1.0 (drop n bytes)).1,
            (socket_flush N s filled).1.1,
          ),
        )
    send_rest good =
        let a = socket_send-Accounted N L (socket_flush N s filled).1.0 (drop n bytes) in
        let f = flush-Flushed N L s filled in
        record {
          unsent = a.unsent;
          in_order =
              a.in_order
              ∙ (ap (λ t. t ++ drop n bytes) (flushed_stream good)
                  ∙ regroup n (L.sent s) buf.bytes bytes);
          waiting = λ e. a.none_left e ∙ sym (f.emptied good);
          fits = omega (arith, ap length (f.emptied good));
          same_max = f.same_max;
        }

    -- After a good flush the rest is pushed on the empty buffer.
    push_rest :
        (r : Bool × (N.Sock × Buffer))
        → (socket_flush N s filled).0 ≡ true
        → AfterPush (socket_flush N s filled).1.0 (socket_flush N s filled).1.1 (drop n bytes) r
        → AfterPush s buf bytes r
    push_rest r good h =
        let f = flush-Flushed N L s filled in
        let stream : L.sent (socket_flush N s filled).1.0 ++ (socket_flush N s filled).1.1.bytes
            ≡ L.sent s ++ filled.bytes =
          ap (λ t. L.sent (socket_flush N s filled).1.0 ++ t) (f.emptied good)
          ∙ (append-nil (L.sent (socket_flush N s filled).1.0) ∙ flushed_stream good) in
        record {
          unsent = h.unsent;
          in_order =
              h.in_order
              ∙ (ap (λ t. t ++ drop n bytes) stream ∙ regroup n (L.sent s) buf.bytes bytes);
          waiting = h.waiting;
          fits = omega (arith, h.fits, f.same_max);
          same_max = h.same_max ∙ f.same_max;
        }

  -- The fuel is enough where it is the number of bytes, and one more on a full buffer.
  pub push_loop-AfterPush :
      (fuel : ℕ) (s : N.Sock) (buf : Buffer) (bytes : List ℕ)
      → 0 < buf.max
      → length buf.bytes ≤ buf.max
      → length bytes + (length buf.bytes + 1 - buf.max) ≤ fuel
      → AfterPush s buf bytes (push_loop N fuel s buf bytes)
  unfolding push_loop
  push_loop-AfterPush fuel s buf [] pos fits h = record {
    unsent = buf.bytes;
    in_order = sym (append-nil (L.sent s ++ buf.bytes));
    waiting = λ e. refl;
    fits = fits;
    same_max = refl;
  }
  push_loop-AfterPush zero s buf (d ∷ bytes) pos fits h = absurd (omega arith)
  push_loop-AfterPush (suc fuel) s buf (d ∷ bytes) pos fits h =
      let n = min (length (d ∷ bytes)) (buf.max - length buf.bytes) in
      let full = filled s buf n (d ∷ bytes) in
      let left = drop n (d ∷ bytes) in
      let flushed = socket_flush N s full in
      let f = flush-Flushed N L s full in
      let size : length full.bytes ≡ length buf.bytes + n =
        omega (arith, length-append buf.bytes (take n (d ∷ bytes)), length-take n (d ∷ bytes)) in
      let left_size : length left ≡ length (d ∷ bytes) - n = length-drop n (d ∷ bytes) in
      elim (Bool-cases (length full.bytes == buf.max)) [
        | inr e ↦
            let room : length full.bytes ≢ buf.max = ground arith in
            rw e (
              go_on s buf n (d ∷ bytes) (push_loop N fuel s full left)
                (push_loop-AfterPush fuel s full left pos (omega arith) (omega arith)))
        | inl e ↦ elim (Bool-cases flushed.0) [
          | inr bad ↦ rw (e, bad) (flush_fails s buf n (d ∷ bytes) bad (omega arith))
          | inl good ↦ elim (Bool-cases (leb buf.max (length left))) [
            | inl many ↦ rw (e, good, many) (send_rest s buf n (d ∷ bytes) good)
            | inr few ↦
                rw (e, good, few)
                  (push_rest s buf n (d ∷ bytes) (push_loop N fuel flushed.1.0 flushed.1.1 left)
                    good
                    (push_loop-AfterPush fuel flushed.1.0 flushed.1.1 left
                      (omega (arith, f.same_max)) (omega (arith, ap length (f.emptied good)))
                      (omega (arith, ap length (f.emptied good), f.same_max))))
          ]
        ]
      ]

  pub push_loop_reliable :
      IsReliable N
      → (fuel : ℕ) (s : N.Sock) (buf : Buffer) (bytes : List ℕ)
      → (push_loop N fuel s buf bytes).0 ≡ true
  unfolding push_loop
  push_loop_reliable r fuel s buf [] = refl
  push_loop_reliable r zero s buf (d ∷ bytes) = refl
  push_loop_reliable r (suc fuel) s buf (d ∷ bytes) =
      let n = min (length (d ∷ bytes)) (buf.max - length buf.bytes) in
      let full = filled s buf n (d ∷ bytes) in
      let left = drop n (d ∷ bytes) in
      let flushed = socket_flush N s full in
      let good = (flush-Flushed N L s full).good r in
      elim (Bool-cases (length full.bytes == buf.max)) [
        | inr e ↦ rw e (push_loop_reliable r fuel s full left)
        | inl e ↦ elim (Bool-cases (leb buf.max (length left))) [
          | inl many ↦ rw (e, good, many) (socket_send_reliable N L r flushed.1.0 left)
          | inr few ↦ rw (e, good, few) (push_loop_reliable r fuel flushed.1.0 flushed.1.1 left)
        ]
      ]
