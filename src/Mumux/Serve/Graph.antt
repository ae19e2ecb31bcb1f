-- ===== src/Mumux/Serve/Graph.antt =====
-- The states that a connection goes through, and what holds in each.
use mavicona.Base.{suc, ℕ, ◌≤◌, ◌<◌, ◌≡◌, refl, true, Option, none, some, arith, length}
use mavicona.Mumux.Socket.{Network}
use mavicona.Mumux.Connection.{
  Connection, ConState, con_request, con_send_continue, con_serve, con_websocket, connection_reset,
  connection_set_blocking, connection_set_nonblocking,
}
use mavicona.Mumux.Serve.{
  Config, Surroundings, Next, again, return, continue_header, expect, set_up, request_read,
  request_round, continue_round, served, serve_round, end_frame, do_frame, websocket_read,
  websocket_round, round_from, round,
}

-- The diagram, less the ends of a connection.
infix 40 ◌⟶◌
pub data ◌⟶◌ : ConState → ConState → Type 0 where
  ask : con_request ⟶ con_serve
  announce : con_request ⟶ con_send_continue
  more : con_send_continue ⟶ con_send_continue
  announced : con_send_continue ⟶ con_serve
  answered : con_serve ⟶ con_request
  upgraded : con_serve ⟶ con_websocket
  frame : con_websocket ⟶ con_websocket

ruleset edges = (ask, announce, more, announced, answered, upgraded, frame)

-- What a state says of the connection: while the header of WBY_CON_STATE_SEND_CONTINUE is sent,
-- some of it is left.
abbrev pub InState : {S : Type 0} → Connection S → ConState → Type 0
InState conn con_send_continue =
    (0 < conn.continue_data_left) × (conn.continue_data_left ≤ length continue_header)
InState conn _ = Unit

abbrev pub IsSound : {S : Type 0} → Connection S → Type 0
IsSound conn = conn.flags.alive ≡ true → InState conn conn.state

-- Another round is in a state that the diagram leads to, or on a connection that has ended; what
-- a return leaves behind is sound.
abbrev pub Follows : {S : Type 0} → ConState → Next S → Type 0
Follows state (again conn) = IsSound conn × (conn.flags.alive ≡ true → state ⟶ conn.state)
Follows state (return conn) = IsSound conn

abbrev pub FollowsIfAny : {S : Type 0} → ConState → Option (Next S) → Type 0
FollowsIfAny state none = Unit
FollowsIfAny state (some next) = Follows state next

module _ (N : Network) (cfg : Config N.Sock) (env : Surroundings) where
  expect-Follows : (conn : Connection N.Sock) → Follows con_request (again (expect N cfg env conn))
  unfolding expect
  expect-Follows conn = grind (arith, edges)

  request-Follows :
      (conn : Connection N.Sock)
      → conn.state ≡ con_request
      → Follows con_request (request_round N cfg env conn)
  unfolding request_round request_read set_up
  request-Follows conn h = grind (arith, edges, expect-Follows)

  continue-Follows :
      (conn : Connection N.Sock)
      → conn.state ≡ con_send_continue
      → IsSound conn
      → Follows con_send_continue (continue_round N cfg env conn)
  unfolding continue_round
  continue-Follows conn h sound = grind (arith, edges)

  served-Follows : (conn : Connection N.Sock) → Follows con_serve (served N cfg env conn)
  unfolding served connection_reset
  served-Follows conn = grind (arith, edges)

  serve-Follows : (conn : Connection N.Sock) → FollowsIfAny con_serve (serve_round N cfg env conn)
  unfolding serve_round connection_set_blocking
  serve-Follows conn = grind (arith, served-Follows)

  end_frame-Follows :
      (conn : Connection N.Sock) → FollowsIfAny con_websocket (end_frame N cfg env conn)
  unfolding end_frame connection_set_nonblocking connection_reset
  end_frame-Follows conn = grind (arith, edges)

  do_frame-Follows :
      (conn : Connection N.Sock) → FollowsIfAny con_websocket (do_frame N cfg env conn)
  unfolding do_frame
  do_frame-Follows conn = grind (arith, end_frame-Follows)

  websocket-Follows :
      (conn : Connection N.Sock)
      → conn.state ≡ con_websocket
      → FollowsIfAny con_websocket (websocket_round N cfg env conn)
  unfolding websocket_round websocket_read connection_set_blocking
  websocket-Follows conn h = grind (arith, edges, do_frame-Follows)

  -- A round on a sound connection follows the diagram, or the connection has ended; whether it goes
  -- on or returns, it leaves a sound connection: while a connection that is alive sends the header
  -- of WBY_CON_STATE_SEND_CONTINUE, between one byte of it and all of it are left.
  pub round-Follows :
      (conn : Connection N.Sock) → IsSound conn → FollowsIfAny conn.state (round N cfg env conn)
  unfolding round round_from
  round-Follows conn sound = go conn.state refl
    where
      go :
          (state : ConState)
          → conn.state ≡ state
          → FollowsIfAny state (round_from N cfg env state conn)
      go con_request h = request-Follows conn h
      go con_send_continue h = continue-Follows conn h sound
      go con_serve h = serve-Follows conn
      go con_websocket h = websocket-Follows conn h

  -- `n` rounds that go on.
  pub data Rounds : ℕ → Connection N.Sock → Connection N.Sock → Type 0 where
    start : {conn : Connection N.Sock} → Rounds 0 conn conn
    go_on :
        {n : ℕ} {conn conn' last : Connection N.Sock}
        → round N cfg env conn ≡ some (again conn')
        → Rounds n conn' last
        → Rounds (suc n) conn last
