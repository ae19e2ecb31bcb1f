-- ===== src/Mumux/Socket/Tests.antt =====
-- Runs of the socket routines on a concrete socket.
use mavicona.Base.{false, ℕ, ◌≡◌, refl, [], ◌∷◌, arith}
use mavicona.Mumux.Socket.{
  Buffer, fill_ok, recv_loop, socket_recv, after_recv, is_blocking_error, socket_send, send_loop,
}
use mavicona.Mumux.Socket.Loopback.{loopback, loopback_recv_laws, Pipe}
use mavicona.Mumux.Socket.Reading.{Filled, socket_recv-Filled}

abbrev pipe : Pipe
pipe = record {
  sent = [];
  given = [];
  incoming = 1 ∷ 2 ∷ 3 ∷ 4 ∷ 5 ∷ [];
  blocking = false;
  closed = false;
}

abbrev small_buffer : ℕ → Buffer
small_buffer max = record { bytes = 9 ∷ []; max = max }

send_in_parts : (socket_send loopback pipe (1 ∷ 2 ∷ 3 ∷ 4 ∷ 5 ∷ [])).1.sent ≡ 1 ∷ 2 ∷ 3 ∷ 4 ∷ 5 ∷ []
unfolding socket_send send_loop
send_in_parts = refl

recv_full : (socket_recv loopback pipe (small_buffer 4)).1.1.bytes ≡ 9 ∷ 1 ∷ 2 ∷ 3 ∷ []
unfolding socket_recv recv_loop after_recv is_blocking_error
recv_full = refl

recv_blocks : (socket_recv loopback pipe (small_buffer 8)).0 ≡ fill_ok
unfolding socket_recv recv_loop after_recv is_blocking_error
recv_blocks = refl

socket_recv-Filled_example :
    Filled loopback loopback_recv_laws pipe
      (small_buffer 4)
      (socket_recv loopback pipe (small_buffer 4))
socket_recv-Filled_example =
    socket_recv-Filled loopback loopback_recv_laws pipe (small_buffer 4) (omega arith)
