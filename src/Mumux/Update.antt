-- ===== src/Mumux/Update.antt =====
-- mumux/server.c, `wby_update`: one turn of the server.
pub mod Closing
pub mod Turn
mod Tests
use mavicona.Base.{
  ℕ, zero, suc, ◌+◌, Bool, true, false, ◌||◌, Option, none, some, List, [], ◌∷◌, ◌++◌, ltb,
  if◌then◌else◌, length, take, drop, get_elem?, set,
}
use mavicona.Mumux.Socket.{Network}
use mavicona.Mumux.Connection.{Connection, ConState, con_send_continue}
use mavicona.Mumux.Serve.{Config, Surroundings, update_connection}
use mavicona.Mumux.Slots.{Slot, Server, accept_loop, close_slot}

-- What `select` is asked about: the server's own socket, which connections may be read from, and
-- which may be written to.
pub record Interest (S : Type 0) : Type 0 where
  pub listens : Bool
  pub reads : List S
  pub writes : List S

-- What `select` answers.
pub record Ready (S : Type 0) : Type 0 where
  pub incoming : Bool
  pub can_read : S → Bool
  pub can_write : S → Bool

abbrev pub sends_continue : ConState → Bool
sends_continue con_send_continue = true
sends_continue _ = false

module _ {S : Type 0} where
  unfoldable pub read_sockets : List (Slot S) → List S
  read_sockets [] = []
  read_sockets (slot ∷ slots) = slot.conn.socket ∷ read_sockets slots

  unfoldable pub write_sockets : List (Slot S) → List S
  write_sockets [] = []
  write_sockets (slot ∷ slots) =
      let rest = write_sockets slots in
      if sends_continue slot.conn.state then slot.conn.socket ∷ rest else rest

  -- The sets that are built in front of `select`, whose first argument bounds the sockets.
  unfoldable pub interest : Server S → Interest S
  interest srv = record {
    listens = ltb srv.con_count srv.connection_max;
    reads = read_sockets (take srv.con_count srv.con);
    writes = write_sockets (take srv.con_count srv.con);
  }

module _ (N : Network) (cfg : Config N.Sock) (env : Surroundings) (fuel : ℕ)
    (ws_closed : Connection N.Sock → Connection N.Sock) where
  abbrev pub is_due : Ready N.Sock → Connection N.Sock → Bool
  is_due ready conn =
      ready.can_read conn.socket || (ready.can_write conn.socket || conn.flags.fresh_connection)

  -- The loop over the connections with data; `none` is a connection whose loop has not ended. The
  -- buffers of a connection are its own, as they are in the code where no two slots share them.
  unfoldable pub update_slots : Ready N.Sock → List (Slot N.Sock) → Option (List (Slot N.Sock))
  update_slots ready [] = some []
  update_slots ready (slot ∷ slots) =
      let rest = update_slots ready slots in
      let updated : Option (Connection N.Sock) =
        if is_due ready slot.conn
        then update_connection N cfg env fuel slot.conn
        else some slot.conn in
      elim updated [
        | none ↦ none
        | some conn ↦ elim rest [
          | none ↦ none
          | some slots' ↦ some (record slot { conn = conn } ∷ slots')
        ]
      ]

  -- The callback for a WebSocket that is closed.
  abbrev pub tell_closed : Connection N.Sock → Connection N.Sock
  tell_closed conn = if conn.flags.websocket then ws_closed conn else conn

  -- The last loop at index `i`, with fuel for the rounds.
  unfoldable pub close_loop : ℕ → ℕ → Server N.Sock → Server N.Sock
  close_loop zero i srv = srv
  close_loop (suc n) i srv = elim (get_elem? (take srv.con_count srv.con) i) [
    | none ↦ srv
    | some slot ↦
        let further = close_loop n (suc i) srv in
        let told = record srv {
          con = set srv.con i (record slot { conn = tell_closed slot.conn });
        } in
        let shorter = close_loop n i (close_slot N told i) in
        if slot.conn.flags.alive then further else shorter
  ]

  -- A round goes one slot further or takes one out, so their number is enough fuel.
  unfoldable pub close_stale : Server N.Sock → Server N.Sock
  close_stale srv = close_loop srv.con_count 0 srv

  -- `answers` are what the calls of `accept` give. There are at most as many calls as free slots, and
  -- one more.
  unfoldable pub update :
      (Interest N.Sock → Option (Ready N.Sock))
      → (ℕ → Option N.Sock)
      → Server N.Sock
      → Option (Server N.Sock)
  update select answers srv = elim (select (interest srv)) [
    | none ↦ some srv
    | some ready ↦
        let filled =
          if ready.incoming then accept_loop N (suc srv.connection_max) srv answers else some srv in
        elim filled [
          | none ↦ none
          | some srv' ↦ elim (update_slots ready (take srv'.con_count srv'.con)) [
            | none ↦ none
            | some slots ↦
                some (close_stale (record srv' { con = slots ++ drop srv'.con_count srv'.con }))
          ]
        ]
  ]
