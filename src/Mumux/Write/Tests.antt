-- ===== src/Mumux/Write/Tests.antt =====
-- Runs of `wby_write`.
use mavicona.Base.{◌≡◌, refl, true, false, some, [], ◌∷◌, ◌++◌, arith, length}
use mavicona.Mumux.Socket.{socket_send, send_loop}
use mavicona.Mumux.Socket.Loopback.{loopback, loopback_send_laws, Pipe}
use mavicona.Mumux.Frame.{make_websocket_header, scan_websocket_frame}
use mavicona.Mumux.Frame.RoundTrip.{plain_frame}
use mavicona.Mumux.Connection.{Connection}
use mavicona.Mumux.Connection.Serving.{serving, serving-IsServing}
use mavicona.Mumux.Connection.Stream.{IsServing}
use mavicona.Mumux.Write.{
  hex_digits, chunk_header, write, write_frame, int_len, header_for, frame_end,
}
use mavicona.Mumux.Write.Ws.{Written, write-Written, scan-write}

-- The connection as a WebSocket in the middle of a text message, and in a chunked response.
abbrev upgraded : Connection Pipe
upgraded = record serving { flags = record serving.flags { websocket = true }; ws_opcode = 1 }

abbrev chunking : Connection Pipe
chunking = record serving { flags = record serving.flags { chunked_response = true } }

chunk_header_700 : chunk_header 700 ≡ 0x32 ∷ 0x62 ∷ 0x63 ∷ 13 ∷ 10 ∷ []
unfolding chunk_header hex_digits
chunk_header_700 = refl

two_bytes_sent : (write loopback upgraded (8 ∷ 9 ∷ [])).0 ≡ true
unfolding write write_frame int_len header_for socket_send send_loop make_websocket_header
two_bytes_sent = refl

frame_end_sends : (frame_end loopback upgraded).socket.sent ≡ 7 ∷ 0x81 ∷ 0 ∷ []
unfolding frame_end socket_send send_loop make_websocket_header
frame_end_sends = refl

write-Written_example :
    Written loopback loopback_send_laws upgraded (8 ∷ 9 ∷ []) (write loopback upgraded (8 ∷ 9 ∷ []))
write-Written_example =
    write-Written loopback loopback_send_laws upgraded (8 ∷ 9 ∷ []) refl (omega arith)

scan-write_example :
    ((write loopback upgraded (8 ∷ 9 ∷ [])).1.socket.sent
      ≡ (7 ∷ []) ++ (make_websocket_header 1 2 false ++ (8 ∷ 9 ∷ [])))
    × (scan_websocket_frame serving.ws_frame (make_websocket_header 1 2 false ++ (8 ∷ 9 ∷ []))
        ≡ some (plain_frame serving.ws_frame (length (make_websocket_header 1 2 false)) 1 false 2))
scan-write_example =
    scan-write loopback loopback_send_laws upgraded (8 ∷ 9 ∷ []) serving.ws_frame refl (omega arith)
      (omega arith) two_bytes_sent

chunking-IsServing : IsServing chunking
chunking-IsServing = record {
  serves = serving-IsServing.serves;
  has_room = serving-IsServing.has_room;
  not_over = serving-IsServing.not_over;
}
