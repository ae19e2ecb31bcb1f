-- ===== src/Mumux/Serve/Arrival.antt =====
-- A request that has arrived whole.
use mavicona.Base.{
  ℕ, ◌+◌, ◌-◌, ◌≤◌, ◌≡◌, ◌≢◌, refl, sym, ap, ◌∙◌, Bool, false, none, some, List, [], ◌∷◌, ◌++◌, All,
  arith, if◌then◌else◌, length, length-append, take, drop, take-append_length, drop-append_length,
  append_assoc,
}
use mavicona.Mumux.Ascii.{before_nul, eq_nocase}
use mavicona.Base.Text.{codes}
use mavicona.Mumux.Socket.{Network, Fill, fill_ok, fill_full, fill_error, socket_recv}
use mavicona.Mumux.Token.Cut.{Lacks}
use mavicona.Mumux.Peek.{peek_request_size}
use mavicona.Mumux.Request.{Header, Request, crlf, max_headers, setup_request, find_header}
use mavicona.Mumux.Request.Line.{IsToken, IsHeader}
use mavicona.Mumux.Request.Headers.{is_encoded}
use mavicona.Mumux.Request.Parse.{request_text, read_back_uri, setup_request-section}
use mavicona.Mumux.Request.Size.{peek_request_size-request_text}
use mavicona.Mumux.Connection.{Connection, con_serve, con_send_continue}
use mavicona.Mumux.Read.Buffered.{waiting}
use mavicona.Mumux.Serve.{
  Config, Surroundings, Next, again, continue_header, expect, set_up, request_read, request_round,
}

before_nul-Lacks : (text : List ℕ) → Lacks 0 text → before_nul text ≡ text
before_nul-Lacks [] h = refl
before_nul-Lacks (c ∷ text) (hc, h) = ground (arith, before_nul-Lacks text h)

-- The client asks for the header `100 Continue` before it sends the body.
abbrev pub wants_continue : List Header → Bool
wants_continue headers = elim (find_header headers (codes "Expect")) [
  | none ↦ false
  | some expect_header ↦ eq_nocase expect_header (codes "100-continue")
]

-- What a round makes of a connection whose buffer holds the request `r` and `body` behind it.
pub record Arrived (N : Network) (conn : Connection N.Sock) (r : Request) (body : List ℕ)
    (next : Next N.Sock) : Type 0 where
  pub after : Connection N.Sock
  pub goes_on : next ≡ again after
  pub same_request : after.request ≡ r
  pub body_waits : waiting after.header_body_left after.header_buf ≡ body
  pub next_state : after.state ≡ (if wants_continue r.headers then con_send_continue else con_serve)
  pub all_left : after.state ≡ con_send_continue → after.continue_data_left ≡ length continue_header
  pub same_flags : after.flags ≡ conn.flags

module _ (N : Network) (cfg : Config N.Sock) (env : Surroundings) where
  expect-Arrived :
      (conn : Connection N.Sock) (body : List ℕ)
      → waiting conn.header_body_left conn.header_buf ≡ body
      → Arrived N conn conn.request body (again (expect N cfg env conn))
  unfolding expect
  expect-Arrived conn body h = record {
    after = expect N cfg env conn;
    goes_on = refl;
    same_request = ground arith;
    body_waits = ground (arith, h);
    next_state = ground arith;
    all_left = ground arith;
    same_flags = ground arith;
  }

  -- The request is set up from the text in front of the blank line.
  read_set_up :
      (result : Fill) (conn : Connection N.Sock) (n : ℕ) (r : Request)
      → result ≢ fill_error
      → peek_request_size conn.header_buf.bytes ≡ some n
      → setup_request (before_nul (take (n - 2) conn.header_buf.bytes)) ≡ some r
      → request_read N cfg env result conn
        ≡ again (
            expect N cfg env
              (record conn { request = r; header_body_left = length conn.header_buf.bytes - n }))
  unfolding request_read set_up
  read_set_up fill_error conn n r ok size ready = absurd (ok refl)
  read_set_up fill_ok conn n r ok size ready = rw (size, request_read) (rw (ready, set_up) refl)
  read_set_up fill_full conn n r ok size ready = rw (size, request_read) (rw (ready, set_up) refl)

  -- A round whose read left the buffer with a whole request of at most 64 headers, without
  -- Transfer-Encoding and without a NUL, goes on with that request: what follows it in the buffer
  -- waits as its body, and the header `100 Continue` is sent first exactly if the client asks for
  -- it.
  pub request_round-Arrived :
      (conn : Connection N.Sock) (method uri version : List ℕ) (hs : List Header) (body : List ℕ)
      → IsToken b' ' method
      → IsToken b' ' uri
      → IsToken b' ' version
      → All IsHeader hs
      → length hs ≤ max_headers
      → is_encoded hs ≡ false
      → Lacks 0 (request_text method uri version hs)
      → (socket_recv N conn.socket conn.header_buf).0 ≢ fill_error
      → (socket_recv N conn.socket conn.header_buf).1.1.bytes
        ≡ request_text method uri version hs ++ (crlf ++ body)
      → Arrived N conn (read_back_uri method uri version hs) body (request_round N cfg env conn)
  unfolding request_round
  request_round-Arrived conn method uri version hs body m u v h few plain no_nul ok got =
      let text = request_text method uri version hs in
      let (result, (s, buf)) = socket_recv N conn.socket conn.header_buf in
      let read : Connection N.Sock = record conn { socket = s; header_buf = buf } in
      let size : peek_request_size buf.bytes ≡ some (length text + 2) =
        ap peek_request_size got
        ∙ peek_request_size-request_text method uri version hs body m u v h in
      let ready : setup_request (before_nul (take (length text + 2 - 2) buf.bytes))
          ≡ some (read_back_uri method uri version hs) =
        ap (λ t. setup_request (before_nul (take (length text + 2 - 2) t))) got
        ∙ ap (λ t. setup_request (before_nul t))
            (take-append_length text (crlf ++ body) (length text + 2 - 2) (omega arith))
        ∙ ap setup_request (before_nul-Lacks text no_nul)
        ∙ setup_request-section method uri version hs m u v h few
        ∙ rw plain refl in
      let waits : waiting (length buf.bytes - (length text + 2)) buf ≡ body =
        let whole : buf.bytes ≡ (text ++ crlf) ++ body = got ∙ sym (append_assoc text crlf body) in
        let front = length-append text crlf in
        let used = ap length whole ∙ length-append (text ++ crlf) body in
        ap (λ t. drop (length buf.bytes - (length buf.bytes - (length text + 2))) t) whole
        ∙ drop-append_length (text ++ crlf) body
            (length buf.bytes - (length buf.bytes - (length text + 2)))
            (omega (arith, front, used)) in
      let e =
        expect-Arrived
          (record read {
            request = read_back_uri method uri version hs;
            header_body_left = length buf.bytes - (length text + 2);
          })
          body waits in
      record {
        after = e.after;
        goes_on =
            read_set_up result read (length text + 2) (read_back_uri method uri version hs) ok size
              ready
            ∙ e.goes_on;
        same_request = e.same_request;
        body_waits = e.body_waits;
        next_state = e.next_state;
        all_left = e.all_left;
        same_flags = e.same_flags;
      }
