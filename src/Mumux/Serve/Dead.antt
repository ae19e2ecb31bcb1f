-- ===== src/Mumux/Serve/Dead.antt =====
-- A connection that dies while its request is answered, with a socket that is still open.
use mavicona.Base.{
  ◌∙◌, ap, [], ◌-◌, ◌^◌, ℕ, zero, suc, ◌+◌, ◌≡◌, refl, Bool, true, false, none, some, arith, u64,
}
use mavicona.Mumux.Socket.{Network, socket_set_blocking}
use mavicona.Mumux.Connection.{
  Connection, con_serve, connection_set_blocking, connection_set_nonblocking,
}
use mavicona.Mumux.Upgrade.{is_websocket_request}
use mavicona.Mumux.Serve.Graph.{Rounds, start, go_on}
use mavicona.Mumux.Serve.{
  Config, Surroundings, again, answer, served, serve_round, round, round_from, connection_loop,
}

-- An open socket can be put into blocking mode, and stays open.
abbrev pub CanBlock : Network → Type 0
CanBlock N =
    (s : N.Sock)
    → N.is_invalid s ≡ false
    → ((socket_set_blocking N s true).0 ≡ true)
      × (N.is_invalid (socket_set_blocking N s true).1 ≡ false)

-- A call of the dispatch callback that returns 0 and loses the connection, as one does whose
-- `wby_read` failed.
pub record Loses (N : Network) (conn : Connection N.Sock) (r : Bool × Connection N.Sock)
    : Type 0 where
  pub ok : r.0 ≡ true
  pub dead : r.1.flags.alive ≡ false
  pub same_state : r.1.state ≡ conn.state
  pub same_count : r.1.blocking_count ≡ conn.blocking_count
  pub still_open : N.is_invalid r.1.socket ≡ false
  pub same_request : r.1.request ≡ conn.request

-- A request, not for an upgrade, is to be answered.
pub record IsPending (N : Network) (conn : Connection N.Sock) : Type 0 where
  pub is_open : N.is_invalid conn.socket ≡ false
  pub serves : conn.state ≡ con_serve
  pub not_blocking : conn.blocking_count ≡ 0
  pub plain : is_websocket_request conn.request.headers ≡ false

module _ (N : Network) (cfg : Config N.Sock) (env : Surroundings) where
  served_dead :
      (conn : Connection N.Sock)
      → conn.flags.alive ≡ false
      → served N cfg env conn
        ≡ again (record conn { blocking_count = u64 (conn.blocking_count + 2 ^ 64 - 1) })
  unfolding served connection_set_nonblocking
  served_dead conn h = ground arith

  -- The connection is in blocking mode.
  answer_lost :
      (conn : Connection N.Sock)
      → is_websocket_request conn.request.headers ≡ false
      → (cfg.dispatch conn).0 ≡ true
      → answer N cfg env conn ≡ some (cfg.dispatch conn).1
  unfolding answer
  answer_lost conn plain ok = rw (plain, answer) (rw ok refl)

  -- The connection in blocking mode, with an empty buffer for its output.
  abbrev prepared : Connection N.Sock → Connection N.Sock
  prepared conn = record conn {
    io_buf = record conn.io_buf { bytes = [] };
    socket = (socket_set_blocking N conn.socket true).1;
    blocking_count = u64 (conn.blocking_count + 1);
  }

  set_blocking_lem :
      (conn : Connection N.Sock)
      → CanBlock N
      → N.is_invalid conn.socket ≡ false
      → conn.blocking_count ≡ 0
      → connection_set_blocking N (record conn { io_buf = record conn.io_buf { bytes = [] } })
        ≡ (true, prepared conn)
  unfolding connection_set_blocking
  set_blocking_lem conn can opened h = simp (h, (can conn.socket opened).0)

  serve_round_lost :
      (conn : Connection N.Sock)
      → CanBlock N
      → Loses N (prepared conn) (cfg.dispatch (prepared conn))
      → IsPending N conn
      → serve_round N cfg env conn ≡ some (served N cfg env (cfg.dispatch (prepared conn)).1)
  unfolding serve_round
  serve_round_lost conn can lost p =
      rw (set_blocking_lem conn can p.is_open p.not_blocking, serve_round)
        (rw (answer_lost (prepared conn) p.plain lost.ok, serve_round) refl)

  round-IsPending :
      (conn : Connection N.Sock)
      → CanBlock N
      → ((c : Connection N.Sock) → N.is_invalid c.socket ≡ false → Loses N c (cfg.dispatch c))
      → IsPending N conn
      → (conn' : Connection N.Sock) × (round N cfg env conn ≡ some (again conn'))
        × IsPending N conn'
  unfolding round round_from
  round-IsPending conn can loses p =
      let after = loses (prepared conn) (can conn.socket p.is_open).1 in
      let conn' : Connection N.Sock = record (cfg.dispatch (prepared conn)).1 {
        blocking_count = u64 ((cfg.dispatch (prepared conn)).1.blocking_count + 2 ^ 64 - 1);
      } in
      (
        conn',
        ap (λ state. round_from N cfg env state conn) p.serves
            ∙ (serve_round_lost conn can after p
                ∙ ap some (served_dead (cfg.dispatch (prepared conn)).1 after.dead)),
        record {
          is_open = after.still_open;
          serves = after.same_state ∙ p.serves;
          not_blocking =
              ap (λ n. u64 (n + 2 ^ 64 - 1))
                (after.same_count ∙ ap (λ n. u64 (n + 1)) p.not_blocking);
          plain = ap (λ q. is_websocket_request q.headers) after.same_request ∙ p.plain;
        },
      )

  -- With a dispatch callback that loses every connection but leaves its socket open and returns 0,
  -- and sockets that can be put into blocking mode, a request that is not for an upgrade is
  -- dispatched again and again: after any number of rounds it still is to be answered, so that the
  -- loop of `wby_update_connection` has not ended.
  pub connection_loop-dead :
      (n : ℕ) (conn : Connection N.Sock)
      → CanBlock N
      → ((c : Connection N.Sock) → N.is_invalid c.socket ≡ false → Loses N c (cfg.dispatch c))
      → IsPending N conn
      → (conn' : Connection N.Sock) × Rounds N cfg env n conn conn'
        × IsPending N conn'
        × (connection_loop N cfg env n conn ≡ none)
  unfolding connection_loop
  connection_loop-dead zero conn can loses p = (conn, start, p, refl)
  connection_loop-dead (suc n) conn can loses p =
      let (conn', e, p') = round-IsPending conn can loses p in
      let (last, run, pending, none_yet) = connection_loop-dead n conn' can loses p' in
      (last, go_on e run, pending, rw (e, connection_loop) none_yet)
