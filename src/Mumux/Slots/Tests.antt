-- ===== src/Mumux/Slots/Tests.antt =====
-- A server of three slots, of which two are in use.
use mavicona.Base.{ℕ, ◌+◌, ◌≡◌, refl, Bool, some, [], ◌∷◌, arith, get_elem?}
use mavicona.Mumux.Socket.Loopback.{Pipe, loopback}
use mavicona.Mumux.Connection.Serving.{serving}
use mavicona.Mumux.Slots.{Slot, Server, on_incoming, accept_loop, close_slot}
use mavicona.Mumux.Slots.Incoming.{
  IsServer, IncomingOutcome, on_incoming-Outcome, Accepted, accept_loop-Accepted,
}
use mavicona.Mumux.Slots.Shift.{Shifted, close_slot-Shifted}

abbrev slot : ℕ → Slot Pipe
slot n = record { conn = serving; place = record { header_data = n; io_data = n + 16 } }

abbrev two_used : Server Pipe
two_used = record {
  connection_max = 3;
  request_buffer_size = 16;
  io_buffer_size = 4;
  con_count = 2;
  con = slot 100 ∷ slot 200 ∷ slot 300 ∷ [];
}

two_used-IsServer : IsServer two_used
two_used-IsServer = record { slots = refl; used = omega arith }

on_incoming-Outcome_example :
    (ok : Bool) × (srv' : Server Pipe) × (on_incoming loopback two_used (some serving.socket)
      ≡ some (ok, srv'))
    × IncomingOutcome loopback two_used (some serving.socket) ok srv'
on_incoming-Outcome_example =
    on_incoming-Outcome loopback two_used (some serving.socket) two_used-IsServer

-- There is no end of connections that come in.
accept_loop-Accepted_example :
    (after : Server Pipe) × (accept_loop loopback 2 two_used (λ n. some serving.socket)
      ≡ some after)
    × Accepted two_used after
accept_loop-Accepted_example =
    accept_loop-Accepted loopback 2 two_used (λ n. some serving.socket) two_used-IsServer
      (omega arith)

close_slot-Shifted_example : Shifted two_used 0 (close_slot loopback two_used 0)
close_slot-Shifted_example = close_slot-Shifted loopback two_used 0 (omega arith) (omega arith)

-- The slot that the next connection gets has the buffers of the one that is in use.
shared_buffers :
    ((close_slot loopback two_used 0).con_count ≡ 1)
    × (get_elem? (close_slot loopback two_used 0).con 0 ≡ some (slot 200))
    × (get_elem? (close_slot loopback two_used 0).con 1 ≡ some (slot 200))
unfolding close_slot
shared_buffers = (refl, refl, refl)
