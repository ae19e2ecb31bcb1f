-- ===== src/Mumux/Response/Finish.antt =====
-- The end of a response, as `wby_response_end` writes it.
use mavicona.Base.{
  ℕ, ◌≡◌, refl, sym, ap, ◌∙◌, Bool, true, false, not, ◌&&◌, Bool-cases, List, [], ◌++◌, append-nil,
  inl, inr, if◌then◌else◌,
}
use mavicona.Base.Text.{codes}
use mavicona.Mumux.Socket.{Network}
use mavicona.Mumux.Socket.Send.{SendLaws, IsReliable}
use mavicona.Mumux.Request.{crlf}
use mavicona.Mumux.Connection.{Connection, Flags, no_flags, connection_push, connection_close}
use mavicona.Mumux.Connection.Stream.{IsServing, output, push_reliable, push-flush}
use mavicona.Mumux.Response.{is_zero, end_chunks, response_end}
use mavicona.Mumux.Response.Print.{push-Printed, push_keeps}

-- The end mark of a chunked response.
abbrev pub last_chunk : Bool → List ℕ
last_chunk chunked = if chunked then codes "0" ++ (crlf ++ crlf) else []

abbrev pub with_chunks : Flags → Bool → Flags
with_chunks flags b = record flags { chunked_response = b }

module _ (N : Network) (L : SendLaws N) (r : IsReliable N) where
  -- `conn'` is `conn` with its chunks ended.
  record Ended (conn conn' : Connection N.Sock) : Type 0 where
    adds : output N L conn' ≡ output N L conn ++ last_chunk conn.flags.chunked_response
    serving : IsServing conn'
    flags : conn'.flags ≡ record conn.flags { chunked_response = false }
    same_request : conn'.request ≡ conn.request

  end_chunks-Ended : (conn : Connection N.Sock) → IsServing conn → Ended conn (end_chunks N conn)
  unfolding end_chunks
  end_chunks-Ended conn v =
      let p = push-Printed N L conn (codes "0" ++ (crlf ++ crlf)) r v in
      elim (Bool-cases conn.flags.chunked_response) [
        | inl e ↦ simp e (record {
          adds = p.adds ∙ ap (λ b. output N L conn ++ last_chunk b) (sym e);
          serving = record {
            serves = p.serving.serves;
            has_room = p.serving.has_room;
            not_over = p.serving.not_over;
          };
          flags = ap (λ (f : Flags). record f { chunked_response = false }) p.same_flags;
          same_request = p.same_request;
        })
        | inr e ↦ simp e (record {
          adds =
              sym (append-nil (output N L conn))
              ∙ ap (λ b. output N L conn ++ last_chunk b) (sym e);
          serving = v;
          flags = ap (λ b. with_chunks conn.flags b) e;
          same_request = refl;
        })
      ]

  close_if :
      (b : Bool) (c : Connection N.Sock)
      → let c' = if b then connection_close N c else c in
        (c'.io_buf.bytes ≡ c.io_buf.bytes)
        × (c'.socket ≡ (if b && not (N.is_invalid c.socket) then N.close c.socket else c.socket))
        × (c'.flags ≡ (if b then no_flags else c.flags))
  unfolding connection_close
  close_if false c = (refl, refl, refl)
  close_if true c = elim (Bool-cases (N.is_invalid c.socket)) [
    | inl e ↦ simp e (refl, refl, refl)
    | inr e ↦ simp e (refl, refl, refl)
  ]

  -- For a connection that serves, with a socket that always takes some of what it is offered,
  -- `wby_response_end` sends all the output, with the end mark behind it where the response is
  -- chunked, and leaves the buffer empty. Exactly where the request announced a body of no bytes the
  -- socket is then closed, if it is not yet, and the flags are cleared; else the flags are those
  -- before, less the one for chunks.
  pub sent-response_end :
      (conn : Connection N.Sock)
      → IsServing conn
      → let conn' = response_end N conn in
        let zero_body = is_zero conn.request.content_length in
        (s : N.Sock) × (L.sent s ≡ output N L conn ++ last_chunk conn.flags.chunked_response)
        × (conn'.io_buf.bytes ≡ [])
        × (conn'.socket ≡ (if zero_body && not (N.is_invalid s) then N.close s else s))
        × (conn'.flags ≡ (if zero_body then no_flags else with_chunks conn.flags false))
  unfolding response_end
  sent-response_end conn v =
      let e = end_chunks-Ended conn v in
      let done = end_chunks N conn in
      let good = push_reliable N L done [] r e.serving in
      let f = push-flush N L done e.serving good in
      let flushed = (connection_push N done []).1 in
      let keeps = push_keeps N L done [] in
      let ends = close_if (is_zero conn.request.content_length) flushed in
      (
        flushed.socket,
        f.0 ∙ e.adds,
        ends.0 ∙ f.1,
        ends.1,
        ends.2
            ∙ ap (λ fl. if is_zero conn.request.content_length then no_flags else fl)
                (keeps.0 ∙ e.flags),
      )
