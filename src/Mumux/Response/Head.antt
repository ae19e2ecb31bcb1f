-- ===== src/Mumux/Response/Head.antt =====
-- The head of a response, as `wby_response_begin` writes it.
use mavicona.Base.{
  ℕ, ◌<◌, ◌≡◌, refl, sym, ap, ◌∙◌, Bool, true, false, not, ◌&&◌, ◌||◌, some, List, [], ◌∷◌, ◌++◌,
  append-nil, arith, if◌then◌else◌, length, All,
}
use mathlib.Core.Path.{subst}
use mavicona.Base.Int.{ℤ, ltb_ℤ, pos}
use mavicona.Base.Text.{codes}
use mavicona.Mumux.Socket.{Network, is_neg}
use mavicona.Mumux.Socket.Send.{SendLaws, IsReliable}
use mavicona.Mumux.Request.{Header, crlf}
use mavicona.Mumux.Connection.{Connection, Flags}
use mavicona.Mumux.Connection.Stream.{IsServing, output}
use mavicona.Mumux.Response.{
  closes, header_line, status_line, length_line, print_headers, print_close, print_head, printf,
  response_begin,
}
use mavicona.Mumux.Response.Print.{IsPlain, Printed, Printed-IsPlain, Printed-trans, printf-Printed}
use mavicona.Mumux.Response.Text.{
  header_lines, some_closes, client_closes, close_line, closing_already, closing, head_text,
  status_line_short, length_line_short, with_close, with_close-IsServing, with_close-IsPlain,
  or_false, or_assoc,
}

module _ (N : Network) (L : SendLaws N) where
  nothing-Printed : (conn : Connection N.Sock) → IsServing conn → Printed N L conn [] conn
  nothing-Printed conn v = record {
    adds = sym (append-nil (output N L conn));
    serving = v;
    same_flags = refl;
    same_request = refl;
  }

  with_close-Printed :
      {a b : Connection N.Sock} {t : List ℕ} (x : Bool)
      → Printed N L a t b
      → Printed N L (with_close a x) t (with_close b x)
  with_close-Printed {b} x p = record {
    adds = p.adds;
    serving = with_close-IsServing b x p.serving;
    same_flags = ap (λ (f : Flags). record f { close_after_response = x }) p.same_flags;
    same_request = p.same_request;
  }

  module _ (behind : ℕ → List ℕ) (r : IsReliable N) where
    print_headers-Printed :
        (conn : Connection N.Sock) (headers : List Header)
        → IsPlain conn
        → All (λ h. length (header_line h) < 1024) headers
        → Printed N L
            (with_close conn (conn.flags.close_after_response || some_closes headers))
            (header_lines headers)
            (print_headers N behind conn headers)
    unfolding print_headers
    print_headers-Printed conn [] p short =
        rw (or_false conn.flags.close_after_response) (nothing-Printed conn p.serving)
    print_headers-Printed conn (h ∷ headers) p short =
        let b = conn.flags.close_after_response || closes h in
        let conn' = with_close conn b in
        let step = (printf N behind conn' (header_line h)).1 in
        let one =
          printf-Printed N L behind conn' (header_line h) r (with_close-IsPlain conn b p) short.0 in
        let more =
          print_headers-Printed step headers (Printed-IsPlain N L one (with_close-IsPlain conn b p))
            short.1 in
        let flag : step.flags.close_after_response ≡ b =
          ap (λ f. f.close_after_response) one.same_flags in
        let same : (step.flags.close_after_response || some_closes headers)
            ≡ (conn.flags.close_after_response || some_closes (h ∷ headers)) =
          ap (λ f. f || some_closes headers) flag
          ∙ or_assoc conn.flags.close_after_response (closes h) (some_closes headers) in
        subst
          (λ x.
            Printed N L (with_close conn x) (header_lines (h ∷ headers))
              (print_headers N behind conn (h ∷ headers)))
          same
          (Printed-trans N L
            (with_close-Printed (step.flags.close_after_response || some_closes headers) one) more)

    choose_close :
        (conn conn' : Connection N.Sock) (b w : Bool)
        → IsServing conn
        → conn.flags.close_after_response ≡ b
        → Printed N L (with_close conn true) (close_line true) conn'
        → Printed N L
            (with_close conn (b || w))
            (close_line (not b && w))
            (if not b && w then conn' else conn)
    choose_close conn conn' true w v e line =
        subst (λ x. Printed N L (with_close conn x) [] conn) e (nothing-Printed conn v)
    choose_close conn conn' false true v e line = line
    choose_close conn conn' false false v e line =
        subst (λ x. Printed N L (with_close conn x) [] conn) e (nothing-Printed conn v)

    print_close-Printed :
        (conn : Connection N.Sock)
        → IsPlain conn
        → let wants = client_closes conn.request.headers in
          Printed N L
            (with_close conn (conn.flags.close_after_response || wants))
            (close_line (not conn.flags.close_after_response && wants))
            (print_close N behind conn)
    unfolding print_close
    print_close-Printed conn p =
        let wants = client_closes conn.request.headers in
        let line =
          printf-Printed N L behind (with_close conn true) (codes "Connection: close" ++ crlf) r
            (with_close-IsPlain conn true p) (omega arith) in
        choose_close conn
          (printf N behind (with_close conn true) (codes "Connection: close" ++ crlf)).1
          conn.flags.close_after_response wants p.serving refl line

    print_head-Printed :
        (conn : Connection N.Sock) (status_code : ℕ) (n : ℤ) (headers : List Header)
        → IsPlain conn
        → All (λ h. length (header_line h) < 1024) headers
        → let conn' = print_head N behind conn status_code n headers in
          (output N L conn' ≡ output N L conn ++ head_text conn status_code n headers)
          × (conn'.flags.close_after_response ≡ closing conn headers)
          × (conn'.flags.chunked_response ≡ is_neg n)
          × IsServing conn'
          × (conn'.request ≡ conn.request)
    unfolding print_head
    print_head-Printed conn status_code n headers p short =
        let conn_1 = (printf N behind conn (status_line status_code)).1 in
        let one =
          printf-Printed N L behind conn (status_line status_code) r p
            (status_line_short status_code) in
        let p_1 = Printed-IsPlain N L one p in
        let conn_2 = (printf N behind conn_1 (length_line n)).1 in
        let two = printf-Printed N L behind conn_1 (length_line n) r p_1 (length_line_short n) in
        let p_2 = Printed-IsPlain N L two p_1 in
        let conn_3 = (printf N behind conn_2 (codes "Server: wby" ++ crlf)).1 in
        let three =
          printf-Printed N L behind conn_2 (codes "Server: wby" ++ crlf) r p_2 (omega arith) in
        let p_3 = Printed-IsPlain N L three p_2 in
        let before = Printed-trans N L one (Printed-trans N L two three) in
        let b_3 = conn_3.flags.close_after_response || some_closes headers in
        let conn_4 = print_headers N behind conn_3 headers in
        let four = print_headers-Printed conn_3 headers p_3 short in
        let p_4 = Printed-IsPlain N L four (with_close-IsPlain conn_3 b_3 p_3) in
        let wants = client_closes conn_4.request.headers in
        let b_4 = conn_4.flags.close_after_response || wants in
        let conn_5 = print_close N behind conn_4 in
        let five = print_close-Printed conn_4 p_4 in
        let p_5 = Printed-IsPlain N L five (with_close-IsPlain conn_4 b_4 p_4) in
        let conn_6 = (printf N behind conn_5 crlf).1 in
        let six = printf-Printed N L behind conn_5 crlf r p_5 (omega arith) in
        let all =
          Printed-trans N L (with_close-Printed b_4 before)
            (Printed-trans N L (with_close-Printed b_4 four) (Printed-trans N L five six)) in
        let already : conn_4.flags.close_after_response ≡ closing_already conn headers =
          ap (λ f. f.close_after_response) four.same_flags
          ∙ ap (λ f. f.close_after_response || some_closes headers) before.same_flags in
        let asked : wants ≡ client_closes conn.request.headers =
          ap (λ q. client_closes q.headers) (four.same_request ∙ before.same_request) in
        let before_text =
          status_line status_code ++ (length_line n ++ (codes "Server: wby" ++ crlf)) in
        (
          all.adds
              ∙ ap
                  (λ a.
                    output N L conn
                    ++ (before_text
                        ++ (header_lines headers ++ (close_line (not a && wants) ++ crlf))))
                  already
              ∙ ap
                  (λ w.
                    output N L conn
                    ++ (before_text
                        ++ (header_lines headers
                            ++ (close_line (not (closing_already conn headers) && w) ++ crlf))))
                  asked,
          ap (λ f. f.close_after_response) all.same_flags
              ∙ ap (λ a. a || wants) already
              ∙ ap (λ w. closing_already conn headers || w) asked,
          ap (λ f. f.chunked_response || is_neg n) all.same_flags
              ∙ ap (λ c. c || is_neg n) p.no_chunks,
          record {
            serves = all.serving.serves;
            has_room = all.serving.has_room;
            not_over = all.serving.not_over;
          },
          all.same_request,
        )

    -- With a socket that always takes some of what it is offered and lines of fewer than 1024 bytes,
    -- for a connection that serves and is neither a WebSocket nor within a chunked response, and
    -- whose request's body was read, `wby_response_begin` returns 0 and adds to the output a status
    -- line, a line on the length, the server's name, the headers in order, `Connection: close` if
    -- the client asked for it and neither the connection nor a header says so yet, and an empty line.
    -- The connection is to close after the response exactly if it was, a header says so or the client
    -- asked for it, and the response is chunked exactly if its length is negative. The connection
    -- still serves, and its request is the same.
    pub output-response_begin :
        (rounds fuel : ℕ) (conn : Connection N.Sock) (status_code : ℕ) (n : ℤ)
        (headers : List Header)
        → IsPlain conn
        → ltb_ℤ (pos conn.body_bytes_read) conn.request.content_length ≡ false
        → All (λ h. length (header_line h) < 1024) headers
        → (conn' : Connection N.Sock) × (response_begin N behind rounds fuel conn status_code n
              headers
            ≡ some (true, conn'))
          × (output N L conn' ≡ output N L conn ++ head_text conn status_code n headers)
          × (conn'.flags.close_after_response ≡ closing conn headers)
          × (conn'.flags.chunked_response ≡ is_neg n)
          × IsServing conn'
          × (conn'.request ≡ conn.request)
    unfolding response_begin
    output-response_begin rounds fuel conn status_code n headers p done short =
        let q = print_head-Printed conn status_code n headers p short in
        (print_head N behind conn status_code n headers, rw done, q.0, q.1, q.2, q.3, q.4)
