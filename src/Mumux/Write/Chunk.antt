-- ===== src/Mumux/Write/Chunk.antt =====
-- What `wby_write` adds to the output of a chunked response.
use mavicona.Base.{
  ℕ, ◌^◌, ◌<◌, ◌≡◌, refl, ap, ◌∙◌, true, false, Bool-cases, List, [], ◌∷◌, ◌++◌, append_assoc,
  arith, length, inl, inr,
}
use mathlib.Core.Path.{subst}
use mavicona.Mumux.Socket.{Network}
use mavicona.Mumux.Socket.Send.{SendLaws, IsReliable}
use mavicona.Mumux.Connection.{Connection, connection_push, is_serve}
use mavicona.Mumux.Connection.Stream.{IsServing, output, push-Pushed, output-push}
use mavicona.Mumux.Write.{write, write_chunk, chunk_header}
use mavicona.Mumux.Write.Length.{u32-length, push_int-connection_push}

-- A chunk: its size in hexadecimal and its bytes, each with a line break.
abbrev pub chunk_text : List ℕ → List ℕ
chunk_text bytes = chunk_header (length bytes) ++ (bytes ++ (b'\r' ∷ b'\n' ∷ []))

module _ (N : Network) (L : SendLaws N) where
  push-state :
      (conn : Connection N.Sock) (bytes : List ℕ)
      → (connection_push N conn bytes).1.state ≡ conn.state
  unfolding connection_push
  push-state conn [] = elim (Bool-cases (is_serve conn.state)) [
    | inl e ↦ rw e refl
    | inr e ↦ rw e refl
  ]
  push-state conn (b ∷ bs) = elim (Bool-cases (is_serve conn.state)) [
    | inl e ↦ rw e refl
    | inr e ↦ rw e refl
  ]

  -- A connection that serves still does after a push.
  pub push-IsServing :
      (conn : Connection N.Sock) (bytes : List ℕ)
      → IsServing conn
      → IsServing (connection_push N conn bytes).1
  push-IsServing conn bytes v =
      let p = push-Pushed N L conn bytes v in
      record {
        serves = push-state conn bytes ∙ v.serves;
        has_room = omega (arith, v.has_room, p.same_max);
        not_over = omega (arith, p.fits, p.same_max);
      }

  push_chunk :
      (conn : Connection N.Sock) (bytes : List ℕ)
      → IsReliable N
      → IsServing conn
      → length bytes < 2 ^ 31
      → ((write_chunk N conn bytes).0 ≡ true)
        × (output N L (write_chunk N conn bytes).1 ≡ output N L conn ++ chunk_text bytes)
  unfolding write_chunk
  push_chunk conn bytes r v short =
      let header = chunk_header (length bytes) in
      let line_end = b'\r' ∷ b'\n' ∷ [] in
      let one = (connection_push N conn header).1 in
      let two = (connection_push N one bytes).1 in
      let v1 = push-IsServing conn header v in
      let v2 = push-IsServing one bytes v1 in
      let last = output-push N L two line_end r v2 in
      rw (u32-length bytes short, push_int-connection_push N one bytes short, write_chunk)
        (
          last.0,
          last.1
              ∙ (ap (λ t. t ++ line_end)
                    ((output-push N L one bytes r v1).1
                      ∙ (ap (λ t. t ++ bytes) (output-push N L conn header r v).1
                          ∙ append_assoc (output N L conn) header bytes))
                  ∙ (append_assoc (output N L conn) (header ++ bytes) line_end
                      ∙ ap (λ t. output N L conn ++ t) (append_assoc header bytes line_end))),
        )

  write-write_chunk :
      (conn : Connection N.Sock) (bytes : List ℕ)
      → conn.flags.websocket ≡ false
      → conn.flags.chunked_response ≡ true
      → write_chunk N conn bytes ≡ write N conn bytes
  unfolding write
  write-write_chunk conn bytes ws chunked = simp (ws, chunked) refl

  -- For a connection that serves a chunked response and is no WebSocket, with a socket that always
  -- takes some of what it is offered, a write of fewer than 2 ^ 31 bytes returns 0 and adds one chunk to the output: the
  -- number of bytes in hexadecimal, a line break, the bytes and a line break.
  pub output-write_chunk :
      (conn : Connection N.Sock) (bytes : List ℕ)
      → IsReliable N
      → IsServing conn
      → conn.flags.websocket ≡ false
      → conn.flags.chunked_response ≡ true
      → length bytes < 2 ^ 31
      → ((write N conn bytes).0 ≡ true)
        × (output N L (write N conn bytes).1 ≡ output N L conn ++ chunk_text bytes)
  output-write_chunk conn bytes r v ws chunked short =
      subst (λ w. (w.0 ≡ true) × (output N L w.1 ≡ output N L conn ++ chunk_text bytes))
        (write-write_chunk conn bytes ws chunked) (push_chunk conn bytes r v short)
