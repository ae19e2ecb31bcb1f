-- ===== src/Mumux/Read/Tests.antt =====
-- Runs of `wby_read`.
use mavicona.Base.{
  ℕ, zero, suc, ◌<◌, ◌≡◌, ◌≢◌, refl, true, false, List, Option, none, some, [], ◌∷◌, arith, Bool,
  min, take,
}
use mavicona.Mumux.Socket.{Network, received}
use mavicona.Mumux.Socket.Loopback.{loopback, loopback_recv_laws, Pipe, first_of}
use mavicona.Mumux.Connection.{Connection}
use mavicona.Mumux.Connection.Serving.{serving}
use mavicona.Mumux.Read.{read_buffered_data, recv_exact, read, unmask, discard_incoming_data}
use mavicona.Mumux.Read.Buffered.{IsOpen, IsCounted}
use mavicona.Mumux.Read.Stream.{Streamed, read-Streamed}
use mavicona.Mumux.Read.Stuck.{IsClosed, read_stuck}

-- A WebSocket connection with two of its three buffered bytes left to read, a mask and a socket.
abbrev masked : Connection Pipe
masked = record serving {
  flags = record serving.flags { websocket = true };
  io_data_left = 2;
  ws_frame = record serving.ws_frame { flags = 3; mask_key = 1 ∷ 2 ∷ 4 ∷ 8 ∷ [] };
  socket = record {
    sent = [];
    given = [];
    incoming = 4 ∷ 5 ∷ 6 ∷ 7 ∷ [];
    blocking = false;
    closed = false;
  };
}

first_of_open : (incoming : List ℕ) (n : ℕ) → 0 < n → first_of incoming n ≢ received []
first_of_open [] n h e = cc
first_of_open (b ∷ bs) zero h e = absurd (omega arith)
first_of_open (b ∷ bs) (suc n) h e =
    let some_byte : min 2 (suc n) ≡ suc (min 1 n) = omega arith in
    let e' : received (take (min 2 (suc n)) (b ∷ bs)) ≡ received [] = e in cc (rw some_byte at e')

loopback-IsOpen : IsOpen loopback
loopback-IsOpen p n h = first_of_open p.incoming n h

masked-IsCounted : IsCounted masked
masked-IsCounted = record { header_within = omega arith; data_within = omega arith }

-- 2 and 3 from the buffer and 4, 5 and 6 from the socket, with the mask undone.
abbrev bytes_read : Option (Bool × (List ℕ × Connection Pipe)) → List ℕ
bytes_read none = []
bytes_read (some (ok, (bytes, conn))) = bytes

read_five : bytes_read (read loopback 5 masked 5) ≡ 3 ∷ 1 ∷ 0 ∷ 13 ∷ 7 ∷ []
unfolding read read_buffered_data recv_exact unmask
read_five = refl

abbrev discarded : Option (Bool × Connection Pipe) → Bool
discarded none = true
discarded (some (ok, conn)) = ok

-- Two bytes wait in the buffer, the socket has four, and then fails.
discard_too_many : discarded (discard_incoming_data loopback 3 2000 masked 2000) ≡ false
unfolding discard_incoming_data read read_buffered_data recv_exact unmask
discard_too_many = refl

read-Streamed_example :
    Streamed loopback loopback_recv_laws loopback-IsOpen masked 5 (read loopback 5 masked 5)
read-Streamed_example =
    read-Streamed loopback loopback_recv_laws loopback-IsOpen 5 masked 5 (omega arith) (omega arith)
      (omega arith) masked-IsCounted

-- A socket whose peer has closed.
abbrev closed : Network
closed = record loopback { recv = λ p n. (received [], p) }

closed-IsClosed : IsClosed closed
closed-IsClosed p n = refl

read_stuck_example : read closed 1000 masked 3 ≡ none
read_stuck_example = read_stuck closed closed-IsClosed 1000 masked 3 (omega arith)
