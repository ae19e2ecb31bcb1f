-- ===== src/Mumux/Serve/Tests.antt =====
-- Runs of the state machine.
use mavicona.Base.{◌≡◌, refl, false, none, List, [], ◌∷◌, ◌++◌, arith}
use mavicona.Base.Text.{codes}
use mavicona.Mumux.Ascii.{eq_nocase}
use mavicona.Mumux.Socket.{
  socket_set_blocking, socket_recv, recv_loop, after_recv, is_blocking_error,
}
use mavicona.Mumux.Socket.Loopback.{Pipe, loopback}
use mavicona.Mumux.Request.{Header, crlf, find_header}
use mavicona.Mumux.Request.Headers.{is_encoded}
use mavicona.Mumux.Request.Parse.{request_text, read_back_uri}
use mavicona.Mumux.Connection.{Connection, con_request, con_send_continue}
use mavicona.Mumux.Connection.Serving.{serving}
use mavicona.Mumux.Upgrade.{is_websocket_request, has_value}
use mavicona.Mumux.Serve.{request_round, round, connection_loop}
use mavicona.Mumux.Serve.Setting.{config, surroundings}
use mavicona.Mumux.Serve.Graph.{IsSound, FollowsIfAny, round-Follows, Rounds}
use mavicona.Mumux.Serve.Dead.{CanBlock, Loses, IsPending, connection_loop-dead}
use mavicona.Mumux.Serve.Arrival.{Arrived, request_round-Arrived}

abbrev announcing : Connection Pipe
announcing = record serving { state = con_send_continue; continue_data_left = 25 }

announcing-IsSound : IsSound announcing
announcing-IsSound = λ alive. (omega arith, omega arith)

round-Follows_example :
    FollowsIfAny con_send_continue (round loopback config surroundings announcing)
round-Follows_example = round-Follows loopback config surroundings announcing announcing-IsSound

loopback-CanBlock : CanBlock loopback
unfolding socket_set_blocking
loopback-CanBlock s opened = ground (arith, opened)

dispatch-Loses :
    (c : Connection Pipe) → c.socket.closed ≡ false → Loses loopback c (config.dispatch c)
dispatch-Loses c opened = record {
  ok = refl;
  dead = refl;
  same_state = refl;
  same_count = refl;
  still_open = opened;
  same_request = refl;
}

serving-IsPending : IsPending loopback serving
unfolding is_websocket_request has_value find_header
serving-IsPending = record { is_open = refl; serves = refl; not_blocking = refl; plain = refl }

connection_loop-dead_example :
    (conn' : Connection Pipe) × Rounds loopback config surroundings 9 serving conn'
    × IsPending loopback conn'
    × (connection_loop loopback config surroundings 9 serving ≡ none)
connection_loop-dead_example =
    connection_loop-dead loopback config surroundings 9 serving loopback-CanBlock dispatch-Loses
      serving-IsPending

abbrev expecting : List Header
expecting = (codes "Expect", codes "100-continue") ∷ []

-- All but the last four bytes are in the buffer.
abbrev arriving : Connection Pipe
arriving = record serving {
  state = con_request;
  socket = record serving.socket { incoming = 13 ∷ 10 ∷ b'h' ∷ b'i' ∷ [] };
  header_buf = record {
    bytes = codes "PUT / HTTP" ++ (crlf ++ (codes "Expect: 100-continue" ++ crlf));
    max = 64;
  };
}

request_round-Arrived_example :
    Arrived loopback arriving
      (read_back_uri (codes "PUT") (codes "/") (codes "HTTP") expecting)
      (codes "hi")
      (request_round loopback config surroundings arriving)
unfolding is_encoded eq_nocase request_text socket_recv recv_loop after_recv is_blocking_error
request_round-Arrived_example =
    request_round-Arrived loopback config surroundings arriving (codes "PUT") (codes "/")
      (codes "HTTP") expecting (codes "hi") (grind arith) (grind arith) (grind arith)
      (
        record {
          name = grind arith;
          name_first = refl;
          value_line = grind arith;
          value_first = refl;
          value_colon = λ e. cc e;
        },
        tt,
      )
      (omega arith) refl (grind arith) (λ e. cc e) refl
