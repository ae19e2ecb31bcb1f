-- ===== src/Mumux/Serve.antt =====
-- mumux/server.c, `wby_update_connection`: the state machine of a connection.
pub mod Continue
pub mod Graph
pub mod Arrival
pub mod Dead
pub mod Setting
mod Tests
use mavicona.Base.{
  ℕ, zero, suc, ◌+◌, ◌-◌, Bool, true, false, ◌||◌, Option, none, some, List, [], ◌∷◌, ◌++◌, ◌==◌,
  leb, ltb, if◌then◌else◌, length, take, drop,
}
use mavicona.Base.Int.{ℤ, pos, negsuc, ltb_ℤ, ◌-ℤ◌, pos_part}
use mavicona.Base.Text.{codes}
use mavicona.Mumux.Ascii.{eq_nocase, before_nul}
use mavicona.Mumux.Socket.{
  Network, Buffer, Fill, fill_ok, fill_error, fill_full, is_neg, socket_recv, socket_send,
}
use mavicona.Mumux.Peek.{peek_request_size}
use mavicona.Mumux.Request.{Header, Request, setup_request, find_header}
use mavicona.Mumux.Sha.{Sha1}
use mavicona.Mumux.Frame.{Frame, scan_websocket_frame}
use mavicona.Mumux.Connection.{
  Connection, ConState, con_request, con_send_continue, con_serve, con_websocket, empty_buffer,
  no_longer_alive, connection_reset, connection_set_blocking, connection_set_nonblocking,
}
use mavicona.Mumux.Read.{discard_incoming_data}
use mavicona.Mumux.Response.{printf, response_begin, response_end}
use mavicona.Mumux.Upgrade.{is_websocket_request, send_websocket_upgrade}

abbrev pub continue_header : List ℕ
continue_header = codes "HTTP/1.1 100 Continue\r\n\r\n"

abbrev pub plain_text_headers : List Header
plain_text_headers = (codes "Content-Type", codes "text/plain") ∷ []

abbrev pub html_headers : List Header
html_headers = (codes "Content-Type", codes "text/html") ∷ []

-- `wby_websocket_pong`
abbrev pub websocket_pong : List ℕ
websocket_pong = 0x80 ∷ 10 ∷ 0 ∷ []

-- What the server is configured with. A callback returns whether it returned 0, and the connection,
-- which it may read from and write to.
pub record Config (S : Type 0) : Type 0 where
  pub request_buffer_size : ℕ
  pub io_buffer_size : ℕ
  pub dispatch : Connection S → Bool × Connection S
  pub ws_connect : Option (Connection S → Bool × Connection S)
  pub ws_connected : Connection S → Connection S
  pub ws_frame : Connection S → Bool × Connection S

-- What a round of the loop comes to: another round, or a return.
pub data Next (S : Type 0) : Type 0 where
  again : Connection S → Next S
  return : Connection S → Next S

-- What the code does not determine: the memory behind the buffer of `wby_printf` and the unset
-- context of a digest; and the fuel of the loops that read a body.
pub record Surroundings : Type 0 where
  pub behind : ℕ → List ℕ
  pub sha : Sha1
  pub rounds : ℕ
  pub fuel : ℕ

module _ (N : Network) (cfg : Config N.Sock) (env : Surroundings) where
  -- The last part of WBY_CON_STATE_REQUEST, once the request is set up.
  unfoldable pub expect : Connection N.Sock → Connection N.Sock
  expect conn = elim (find_header conn.request.headers (codes "Expect")) [
    | none ↦ record conn { state = con_serve }
    | some expect_header ↦
        if eq_nocase expect_header (codes "100-continue")
        then record conn { continue_data_left = length continue_header; state = con_send_continue }
        else record conn { state = con_serve }
  ]

  -- Cutting the request header writes NULs into the buffer, in front of the body.
  unfoldable pub set_up : Connection N.Sock → ℕ → Next N.Sock
  set_up conn request_size =
      elim (setup_request (before_nul (take (request_size - 2) conn.header_buf.bytes))) [
        | none ↦ return (no_longer_alive conn)
        | some request ↦ again (
            expect (record conn {
              request = request;
              header_body_left = length conn.header_buf.bytes - request_size;
            }))
      ]

  -- The part behind the `wby_socket_recv`.
  unfoldable pub request_read : Fill → Connection N.Sock → Next N.Sock
  request_read fill_error conn = return (no_longer_alive conn)
  request_read result conn = elim (peek_request_size conn.header_buf.bytes) [
    | none ↦
        if conn.header_buf.max == length conn.header_buf.bytes
        then return (no_longer_alive conn)
        else return conn
    | some request_size ↦ set_up conn request_size
  ]

  unfoldable pub request_round : Connection N.Sock → Next N.Sock
  request_round conn =
      let (result, (s, buf)) = socket_recv N conn.socket conn.header_buf in
      request_read result (record conn { socket = s; header_buf = buf })

  unfoldable pub continue_round : Connection N.Sock → Next N.Sock
  continue_round conn =
      let offset = length continue_header - conn.continue_data_left in
      let (written, s) = N.send conn.socket (drop offset continue_header) in
      let left = conn.continue_data_left - pos_part written in
      let conn' = record conn { socket = s; continue_data_left = left } in
      if is_neg written
      then return (no_longer_alive (record conn { socket = s }))
      else if left == 0
      then again (record conn' { state = con_serve })
      else again conn'

  -- A response with a text for its body; the results of the calls are not read.
  unfoldable pub respond : Connection N.Sock → ℕ → List Header → List ℕ → Option (Connection N.Sock)
  respond conn status_code headers text =
      elim (response_begin N env.behind env.rounds env.fuel conn status_code (negsuc 0) headers) [
        | none ↦ none
        | some (ok, conn') ↦ some (response_end N (printf N env.behind conn' text).1)
      ]

  abbrev pub not_supported : Connection N.Sock → List ℕ
  not_supported conn = codes "WebSockets not supported at " ++ (conn.request.uri ++ codes "\r\n")

  abbrev pub not_found : Connection N.Sock → List ℕ
  not_found conn =
      codes "<h1>404 Not Found</h1><hr />Request: " ++ (conn.request.uri ++ codes "\r\n")

  unfoldable pub upgrade : Connection N.Sock → Option (Connection N.Sock)
  upgrade conn = elim (send_websocket_upgrade N env.behind env.rounds env.fuel env.sha conn) [
    | none ↦ none
    | some (ok, conn') ↦
        let failed =
          respond conn' 400 plain_text_headers (codes "WebSockets couldn't not be enabled\r\n") in
        let upgraded =
          cfg.ws_connected (record conn' { flags = record conn'.flags { websocket = true } }) in
        if ok then some upgraded else failed
  ]

  unfoldable pub connect : Connection N.Sock → Option (Connection N.Sock)
  connect conn = elim cfg.ws_connect [
    | none ↦ respond conn 400 plain_text_headers (not_supported conn)
    | some ws_connect ↦
        let (ok, conn') = ws_connect conn in
        if ok then upgrade conn' else respond conn' 400 plain_text_headers (not_supported conn')
  ]

  -- The request is answered.
  unfoldable pub answer : Connection N.Sock → Option (Connection N.Sock)
  answer conn =
      let (ok, conn') = cfg.dispatch conn in
      if is_websocket_request conn.request.headers
      then connect conn
      else if ok
      then some conn'
      else respond conn' 404 html_headers (not_found conn')

  -- What follows the answer in WBY_CON_STATE_SERVE.
  unfoldable pub served : Connection N.Sock → Next N.Sock
  served answered =
      let conn = (connection_set_nonblocking N answered).1 in
      let reset = connection_reset conn cfg.request_buffer_size cfg.io_buffer_size in
      let next : Next N.Sock =
        if conn.flags.websocket
        then again
            (record reset { io_buf = empty_buffer cfg.io_buffer_size; state = con_websocket })
        else again (record reset { state = con_request }) in
      if conn.flags.alive
      then (if conn.flags.close_after_response then return (no_longer_alive conn) else next)
      else again conn

  -- `none` is a loop within the round that did not end within its fuel.
  unfoldable pub serve_round : Connection N.Sock → Option (Next N.Sock)
  serve_round conn =
      let (ok, conn') =
        connection_set_blocking N (record conn { io_buf = record conn.io_buf { bytes = [] } }) in
      let answered : Option (Next N.Sock) = elim (answer conn') [
        | none ↦ none
        | some conn'' ↦ some (served conn'')
      ] in
      if ok then answered else some (return conn')

  -- The part of WBY_CON_STATE_WEBSOCKET behind the frame's own work: what the client did not read
  -- is discarded.
  unfoldable pub end_frame : Connection N.Sock → Option (Next N.Sock)
  end_frame conn =
      let finish : Connection N.Sock → Next N.Sock = λ read.
        let (ok, conn') = connection_set_nonblocking N read in
        let reset = connection_reset conn' cfg.request_buffer_size cfg.io_buffer_size in
        if ok then again (record reset { state = con_websocket }) else return conn' in
      let size = conn.ws_frame.payload_length -ℤ pos conn.body_bytes_read in
      if ltb_ℤ (pos conn.body_bytes_read) conn.ws_frame.payload_length
      then elim (discard_incoming_data N env.rounds env.fuel conn (pos_part size)) [
        | none ↦ none
        | some (ok, conn') ↦ some (if ok then finish conn' else return (no_longer_alive conn'))
      ]
      else some (finish conn)

  -- The opcodes WBY_WSOP_CLOSE, WBY_WSOP_PING and the others.
  unfoldable pub do_frame : Connection N.Sock → Option (Next N.Sock)
  do_frame conn =
      let (sent, s) = socket_send N conn.socket websocket_pong in
      let (ok, conn') = cfg.ws_frame conn in
      if conn.ws_frame.opcode == 8
      then some (return (no_longer_alive conn))
      else if conn.ws_frame.opcode == 9
      then (if sent
          then end_frame (record conn { socket = s })
          else some (return (no_longer_alive (record conn { socket = s }))))
      else (if ok then end_frame conn' else some (return (no_longer_alive conn')))

  unfoldable pub websocket_read : Fill → Connection N.Sock → Option (Next N.Sock)
  websocket_read fill_error conn = some (return (no_longer_alive conn))
  websocket_read result conn = elim (scan_websocket_frame conn.ws_frame conn.io_buf.bytes) [
    | none ↦ some (return conn)
    | some frame ↦
        let scanned = record conn {
          ws_frame = frame;
          body_bytes_read = 0;
          io_data_left = length conn.io_buf.bytes - frame.header_size;
        } in
        let (ok, conn') = connection_set_blocking N scanned in
        if ok then do_frame conn' else some (return conn')
  ]

  unfoldable pub websocket_round : Connection N.Sock → Option (Next N.Sock)
  websocket_round conn =
      let (result, (s, buf)) = socket_recv N conn.socket conn.io_buf in
      websocket_read result (record conn { socket = s; io_buf = buf })

  -- The `switch`.
  unfoldable pub round_from : ConState → Connection N.Sock → Option (Next N.Sock)
  round_from con_request conn = some (request_round conn)
  round_from con_send_continue conn = some (continue_round conn)
  round_from con_serve conn = serve_round conn
  round_from con_websocket conn = websocket_round conn

  unfoldable pub round : Connection N.Sock → Option (Next N.Sock)
  round conn = round_from conn.state conn

  -- `for (;;)`, with fuel: `none` is a loop that has not ended.
  unfoldable pub connection_loop : ℕ → Connection N.Sock → Option (Connection N.Sock)
  connection_loop zero conn = none
  connection_loop (suc n) conn = elim (round conn) [
    | none ↦ none
    | some next ↦ elim next [ again conn' ↦ connection_loop n conn' | return conn' ↦ some conn' ]
  ]

  unfoldable pub update_connection : ℕ → Connection N.Sock → Option (Connection N.Sock)
  update_connection n conn =
      connection_loop n (record conn { flags = record conn.flags { fresh_connection = false } })
