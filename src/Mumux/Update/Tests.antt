-- ===== src/Mumux/Update/Tests.antt =====
-- A turn of a server with two connections.
use mavicona.Base.{
  ℕ, zero, suc, ◌*◌, ◌+◌, ◌≡◌, ◌≤◌, get_elem?, refl, true, false, some, [], ◌∷◌, arith, length,
}
use mavicona.Mumux.Socket.Loopback.{Pipe, loopback}
use mavicona.Mumux.Connection.{Connection, con_send_continue, no_longer_alive}
use mavicona.Mumux.Connection.Serving.{serving}
use mavicona.Mumux.Slots.{Slot, Server, accept_loop}
use mavicona.Mumux.Slots.Incoming.{Accepted}
use mavicona.Mumux.Update.{Ready, interest, read_sockets, write_sockets, update, close_stale}
use mavicona.Mumux.Update.Closing.{used, used-close_stale}
use mavicona.Mumux.Update.Turn.{IsAsked, IsUnshared, TurnOutcome, update-TurnOutcome}
use mavicona.Mumux.Serve.Setting.{config, surroundings}

abbrev announcing : Connection Pipe
announcing = record serving { state = con_send_continue; continue_data_left = 25 }

abbrev lost : Connection Pipe
lost = no_longer_alive serving

abbrev slot : Connection Pipe → ℕ → Slot Pipe
slot conn n = record { conn = conn; place = record { header_data = n; io_data = n + 16 } }

abbrev server : Server Pipe
server = record {
  connection_max = 3;
  request_buffer_size = 16;
  io_buffer_size = 4;
  con_count = 2;
  con = slot lost 100 ∷ slot announcing 200 ∷ slot lost 300 ∷ [];
}

-- The second connection may be written to, and another one comes in.
abbrev ready : Ready Pipe
ready = record { incoming = true; can_read = λ s. false; can_write = λ s. false }

asks_to_write : interest server ≡ record {
  listens = true;
  reads = serving.socket ∷ serving.socket ∷ [];
  writes = serving.socket ∷ [];
}
unfolding interest read_sockets write_sockets
asks_to_write = refl

used-close_stale_example :
    (used (close_stale loopback config surroundings 9 (λ conn. conn) server) ≡ announcing ∷ [])
    × ((close_stale loopback config surroundings 9 (λ conn. conn) server).con_count
        ≤ length (close_stale loopback config surroundings 9 (λ conn. conn) server).con)
used-close_stale_example =
    used-close_stale loopback config surroundings 9 (λ conn. conn) server (omega arith)

-- The buffers of the slot `i` are 100 bytes behind those of the slot before it.
places :
    (i : ℕ) (a : Slot Pipe)
    → get_elem? server.con i ≡ some a
    → (a.place.header_data ≡ 100 * i + 100) × (a.place.io_data ≡ 100 * i + 116)
places zero a e = let here : slot lost 100 ≡ a = cc e in rw (← here) (refl, refl)
places (suc zero) a e = let here : slot announcing 200 ≡ a = cc e in rw (← here) (refl, refl)
places (suc (suc zero)) a e = let here : slot lost 300 ≡ a = cc e in rw (← here) (refl, refl)
places (suc (suc (suc i))) a e = absurd (cc e)

server-IsUnshared : IsUnshared server
server-IsUnshared i j a b h e f =
    let (header_a, io_a) = places i a e in
    let (header_b, io_b) = places j b f in
    (λ same. omega (arith, header_a, header_b), λ same. omega (arith, io_a, io_b))

update-TurnOutcome_example :
    IsAsked server (interest server)
    × (filled : Server Pipe) × Accepted server filled
    × (ready.incoming ≡ true
        → accept_loop loopback 4 server (λ n. some serving.socket) ≡ some filled)
    × (ready.incoming ≡ false → filled ≡ server)
    × TurnOutcome loopback config surroundings 9
        (λ conn. conn)
        ready
        filled
        (update loopback config surroundings 9
          (λ conn. conn)
          (λ i. some ready)
          (λ n. some serving.socket)
          server)
update-TurnOutcome_example =
    update-TurnOutcome loopback config surroundings 9 (λ conn. conn) (λ i. some ready)
      (λ n. some serving.socket) ready server (record { slots = refl; used = omega arith })
      server-IsUnshared refl
