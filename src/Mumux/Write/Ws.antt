-- ===== src/Mumux/Write/Ws.antt =====
-- What a WebSocket peer is sent by `wby_write`.
use mavicona.Base.{
  ℕ, ◌^◌, ◌<◌, ◌≡◌, refl, sym, ap, ◌∙◌, Bool, true, false, ◌&&◌, Bool-cases, List, ◌++◌,
  append_assoc, length, some, inl, inr,
}
use mavicona.Mumux.Socket.{Network, socket_send}
use mavicona.Mumux.Socket.Send.{SendLaws, Accounted, Accounted-whole, socket_send-Accounted}
use mavicona.Mumux.Frame.{Frame, make_websocket_header, scan_websocket_frame}
use mavicona.Mumux.Frame.RoundTrip.{plain_frame, scan-make}
use mavicona.Mumux.Connection.{Connection}
use mavicona.Mumux.Write.{write, write_frame, header_for}
use mavicona.Mumux.Write.Length.{int_len-pos, first_bytes-all}

and_false : (b : Bool) → (b && false) ≡ false
and_false true = refl
and_false false = refl

and_true : (b : Bool) → (b && true) ≡ b
and_true true = refl
and_true false = refl

-- A header and its payload.
abbrev pub frame_text : ℕ → List ℕ → List ℕ
frame_text opcode bytes = make_websocket_header opcode (length bytes) false ++ bytes

module _ (before first rest : List ℕ) where
  -- Only the first of two sends was made.
  stopped :
      {middle : List ℕ}
      → Accounted before first false middle
      → Accounted before (first ++ rest) false middle
  stopped {middle} a = record {
    unsent = a.unsent ++ rest;
    in_order =
        sym (append_assoc middle a.unsent rest)
        ∙ (ap (λ t. t ++ rest) a.in_order ∙ append_assoc before first rest);
    none_left = λ e. cc;
  }

  went_on :
      {middle after : List ℕ} {ok : Bool}
      → Accounted before first true middle
      → Accounted middle rest ok after
      → Accounted before (first ++ rest) ok after
  went_on a b = record {
    unsent = b.unsent;
    in_order =
        b.in_order
        ∙ (ap (λ t. t ++ rest) (Accounted-whole a refl) ∙ append_assoc before first rest);
    none_left = b.none_left;
  }

-- What a write does to a WebSocket connection: the frame is accounted for, the next frame
-- continues this one, and a bad result is the end of the connection.
pub record Written (N : Network) (L : SendLaws N) (conn : Connection N.Sock) (bytes : List ℕ)
    (r : Bool × Connection N.Sock) : Type 0 where
  pub account :
      Accounted (L.sent conn.socket) (frame_text conn.ws_opcode bytes) r.0 (L.sent r.1.socket)
  pub continues : r.1.ws_opcode ≡ 0
  pub survives : r.1.flags.alive ≡ (conn.flags.alive && r.0)

module _ (N : Network) (L : SendLaws N) where
  -- After a write of fewer than 2 ^ 31 bytes on a WebSocket connection, the bytes that the socket has
  -- taken are the first ones of a frame header with the payload behind it, and all of them where 0 is
  -- returned; the next frame is a continuation; and the connection stays alive just where it was
  -- alive and 0 is returned.
  pub write-Written :
      (conn : Connection N.Sock) (bytes : List ℕ)
      → conn.flags.websocket ≡ true
      → length bytes < 2 ^ 31
      → Written N L conn bytes (write N conn bytes)
  unfolding write write_frame header_for
  write-Written conn bytes ws short =
      let header = make_websocket_header conn.ws_opcode (length bytes) false in
      let a = socket_send-Accounted N L conn.socket header in
      let s = (socket_send N conn.socket header).1 in
      let b = socket_send-Accounted N L s bytes in
      let before = L.sent conn.socket in
      let all = first_bytes-all bytes short in
      let len = int_len-pos bytes short in
      elim (Bool-cases (socket_send N conn.socket header).0) [
        | inr bad ↦
            rw (ws, all, len, bad)
              (record {
                account = stopped before header bytes (rw bad at a);
                continues = refl;
                survives = sym (and_false conn.flags.alive);
              })
        | inl good ↦ elim (Bool-cases (socket_send N s bytes).0) [
          | inr bad ↦
              rw (ws, all, len, good, bad)
                (record {
                  account = went_on before header bytes (rw good at a) (rw bad at b);
                  continues = refl;
                  survives = sym (and_false conn.flags.alive);
                })
          | inl fine ↦
              rw (ws, all, len, good, fine)
                (record {
                  account = went_on before header bytes (rw good at a) (rw fine at b);
                  continues = refl;
                  survives = sym (and_true conn.flags.alive);
                })
        ]
      ]

  -- Where a write of fewer than 2 ^ 31 bytes on a WebSocket connection whose opcode has four bits
  -- returns 0, a peer that scans what was sent finds a frame without the FIN flag that has the
  -- connection's opcode and the number of bytes as its payload length, and behind its header the
  -- bytes.
  pub scan-write :
      (conn : Connection N.Sock) (bytes : List ℕ) (old : Frame)
      → conn.flags.websocket ≡ true
      → conn.ws_opcode < 16
      → length bytes < 2 ^ 31
      → (write N conn bytes).0 ≡ true
      → let header = make_websocket_header conn.ws_opcode (length bytes) false in
        (L.sent (write N conn bytes).1.socket ≡ L.sent conn.socket ++ (header ++ bytes))
        × (scan_websocket_frame old (header ++ bytes)
            ≡ some (plain_frame old (length header) conn.ws_opcode false (length bytes)))
  scan-write conn bytes old ws small short good =
      let w = write-Written conn bytes ws short in
      (
        Accounted-whole w.account good,
        scan-make old conn.ws_opcode (length bytes) false bytes small short,
      )
