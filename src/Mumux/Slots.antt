-- ===== src/Mumux/Slots.antt =====
-- mumux/server.c: the array of connections. `wby_on_incoming`, and the closing of a connection in
-- the last loop of `wby_update`.
pub mod Incoming
pub mod Shift
mod Tests
use mavicona.Base.{
  ℕ, zero, suc, ◌+◌, ◌-◌, Bool, true, false, Option, none, some, List, [], ◌∷◌, ◌++◌, ◌==◌,
  if◌then◌else◌, length, take, drop, get_elem?, set,
}
use mavicona.Mumux.Socket.{Network, socket_set_blocking}
use mavicona.Mumux.Connection.{Connection, no_flags, connection_reset, connection_close}
use mavicona.Mumux.Memory.{Place}

-- A slot of the array: the connection in it, and where its two buffers are.
pub record Slot (S : Type 0) : Type 0 where
  pub conn : Connection S
  pub place : Place

-- `struct wby_server`, less its own socket and the callbacks: `con` has `connection_max` slots, of
-- which the first `con_count` are used.
pub record Server (S : Type 0) : Type 0 where
  pub connection_max : ℕ
  pub request_buffer_size : ℕ
  pub io_buffer_size : ℕ
  pub con_count : ℕ
  pub con : List (Slot S)

-- `wby_socket_config_incoming`: the result of `setsockopt` is not read.
unfoldable pub socket_config_incoming : (N : Network) → N.Sock → Bool × N.Sock
socket_config_incoming N socket = socket_set_blocking N socket false

module _ (N : Network) where
  -- The connection in the next slot, before its socket is configured.
  abbrev pub fresh : Server N.Sock → Connection N.Sock → Connection N.Sock
  fresh srv conn = record (connection_reset conn srv.request_buffer_size srv.io_buffer_size) {
    flags = record no_flags { fresh_connection = true };
  }

  -- The connection once it is kept.
  abbrev pub kept : Connection N.Sock → N.Sock → Connection N.Sock
  kept conn fd = record conn { flags = record conn.flags { alive = true }; socket = fd }

  -- The part behind a valid `accept` into the slot `slot`.
  unfoldable pub fill_slot : Server N.Sock → Slot N.Sock → N.Sock → Bool × Server N.Sock
  fill_slot srv slot fd =
      let (ok, fd') = socket_config_incoming N fd in
      let i = srv.con_count in
      let conn = fresh srv slot.conn in
      if ok
      then (
        true,
        record srv {
          con_count = i + 1;
          con = set srv.con i (record slot { conn = kept conn fd' });
        },
      )
      else (
        false,
        record srv { con_count = i + 1; con = set srv.con i (record slot { conn = conn }) },
      )

  -- `none` is a slot behind the end of the array, at which the code would write past its memory.
  -- Otherwise `true` is a return of 0. `accepted` is what `accept` gives, if it is called; `none` is
  -- no valid socket.
  unfoldable pub on_incoming : Server N.Sock → Option N.Sock → Option (Bool × Server N.Sock)
  on_incoming srv accepted =
      let filled : Option (Slot N.Sock) → N.Sock → Option (Bool × Server N.Sock) =
        λ o fd. elim o [ none ↦ none | some slot ↦ some (fill_slot srv slot fd) ] in
      if srv.con_count == srv.connection_max then some (false, srv) else elim accepted [
        | none ↦ some (false, srv)
        | some fd ↦ filled (get_elem? srv.con srv.con_count) fd
      ]

  -- The loop of `wby_update` that accepts, on the answers of `accept` in their order; one that is
  -- not there is no valid socket. `none` is a loop that has not ended, or a slot that is not there.
  unfoldable pub accept_loop : ℕ → Server N.Sock → (ℕ → Option N.Sock) → Option (Server N.Sock)
  accept_loop zero srv answers = none
  accept_loop (suc fuel) srv answers = elim (on_incoming srv (answers 0)) [
    | none ↦ none
    | some (ok, srv') ↦
        let next = accept_loop fuel srv' (λ n. answers (suc n)) in if ok then next else some srv'
  ]

  -- What the last loop of `wby_update` does to the array for a connection at index `i` that is no
  -- longer alive. `memmove` moves whole slots.
  unfoldable pub close_slot : Server N.Sock → ℕ → Server N.Sock
  close_slot srv i = elim (get_elem? srv.con i) [
    | none ↦ srv
    | some slot ↦
        let remain = srv.con_count - i - 1 in
        let con = set srv.con i (record slot { conn = connection_close N slot.conn }) in
        record srv {
          con_count = srv.con_count - 1;
          con = take i con ++ (take remain (drop (suc i) con) ++ drop (i + remain) con);
        }
  ]
