-- ===== src/Mumux/Connection/Stream.antt =====
-- `wby_connection_push` on a connection: the stream of its output.
use mavicona.Base.{
  ℕ, suc, ◌≤◌, ◌<◌, ◌≡◌, sym, ap, ◌∙◌, true, List, [], ◌∷◌, ◌++◌, append-nil, arith, length,
}
use mavicona.Mumux.Socket.{Network}
use mavicona.Mumux.Socket.Send.{
  SendLaws, IsReliable, Accounted-whole, flush-Accounted, flush-Flushed,
}
use mavicona.Mumux.Connection.{Connection, con_serve, connection_push}
use mavicona.Mumux.Connection.Push.{Pushed, push_loop-AfterPush, push_loop_reliable}

-- The output buffer of a connection that serves has room, and is not over-full.
pub record IsServing {S : Type 0} (conn : Connection S) : Type 0 where
  pub serves : conn.state ≡ con_serve
  pub has_room : 0 < conn.io_buf.max
  pub not_over : length conn.io_buf.bytes ≤ conn.io_buf.max

module _ (N : Network) (L : SendLaws N) where
  -- All output so far: what was sent, and then what waits.
  abbrev pub output : Connection N.Sock → List ℕ
  output conn = L.sent conn.socket ++ conn.io_buf.bytes

  -- For a connection that serves, after a push of `bytes` the bytes that the socket has taken are
  -- the first ones of the earlier output and `bytes`, in order; the buffer is not over-full and has
  -- its size; and where 0 is returned, what the socket has not taken waits in the buffer.
  pub push-Pushed :
      (conn : Connection N.Sock) (bytes : List ℕ)
      → IsServing conn
      → let pushed = connection_push N conn bytes in
        Pushed (output conn) bytes conn.io_buf.max pushed.0 (L.sent pushed.1.socket) pushed.1.io_buf
  unfolding connection_push
  push-Pushed conn [] v =
      let a = flush-Accounted N L conn.socket conn.io_buf in
      let f = flush-Flushed N L conn.socket conn.io_buf in
      rw v.serves (record {
        unsent = a.unsent;
        in_order = a.in_order ∙ sym (append-nil (output conn));
        waiting = λ e. a.none_left e ∙ sym (f.emptied e);
        fits = omega (arith, f.shorter, v.not_over);
        same_max = f.same_max;
      })
  push-Pushed conn (d ∷ bytes) v = rw v.serves (
      push_loop-AfterPush N L (suc (length (d ∷ bytes))) conn.socket conn.io_buf (d ∷ bytes)
        v.has_room v.not_over (omega (arith, v.has_room, v.not_over)))

  pub push_reliable :
      (conn : Connection N.Sock) (bytes : List ℕ)
      → IsReliable N
      → IsServing conn
      → (connection_push N conn bytes).0 ≡ true
  unfolding connection_push
  push_reliable conn [] r v = rw v.serves ((flush-Flushed N L conn.socket conn.io_buf).good r)
  push_reliable conn (d ∷ bytes) r v =
      rw v.serves
        (push_loop_reliable N L r (suc (length (d ∷ bytes))) conn.socket conn.io_buf (d ∷ bytes))

  -- With a socket that always takes some of what it is offered, a push for a connection that
  -- serves returns 0, and then the output is the earlier output and the bytes that were pushed.
  pub output-push :
      (conn : Connection N.Sock) (bytes : List ℕ)
      → IsReliable N
      → IsServing conn
      → ((connection_push N conn bytes).0 ≡ true)
        × (output (connection_push N conn bytes).1 ≡ output conn ++ bytes)
  output-push conn bytes r v =
      let p = push-Pushed conn bytes v in
      (
        push_reliable conn bytes r v,
        ap (λ t. L.sent (connection_push N conn bytes).1.socket ++ t)
              (sym (p.waiting (push_reliable conn bytes r v)))
            ∙ p.in_order,
      )

  -- A push of no bytes that returns 0, for a connection that serves, sends all the output and
  -- leaves the buffer empty.
  pub push-flush :
      (conn : Connection N.Sock)
      → IsServing conn
      → (connection_push N conn []).0 ≡ true
      → (L.sent (connection_push N conn []).1.socket ≡ output conn)
        × ((connection_push N conn []).1.io_buf.bytes ≡ [])
  unfolding connection_push
  push-flush conn v good =
      let a = flush-Accounted N L conn.socket conn.io_buf in
      let f = flush-Flushed N L conn.socket conn.io_buf in
      let good' = rw v.serves at good in rw v.serves (Accounted-whole a good', f.emptied good')
