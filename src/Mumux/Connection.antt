-- ===== src/Mumux/Connection.antt =====
-- mumux/connection.h and mumux/connection.c: the state of a connection and its buffered output;
-- `wby_write` of mumux/request.c.
pub mod Push
pub mod Stream
pub mod Serving
mod Tests
use mavicona.Base.{
  ℕ, zero, suc, ◌+◌, ◌-◌, ◌^◌, ◌&&◌, Bool, true, false, List, [], ◌∷◌, ◌++◌, ◌==◌, leb, min, u64,
  if◌then◌else◌, length, take, drop,
}
use mavicona.Mumux.Socket.{Network, Buffer, socket_set_blocking, socket_send, socket_flush}
use mavicona.Mumux.Frame.{Frame}
use mavicona.Mumux.Request.{Request}

-- `enum wby_connection_flags`, a field for each bit.
pub record Flags : Type 0 where
  pub alive : Bool
  pub fresh_connection : Bool
  pub close_after_response : Bool
  pub chunked_response : Bool
  pub websocket : Bool

abbrev pub no_flags : Flags
no_flags = record {
  alive = false;
  fresh_connection = false;
  close_after_response = false;
  chunked_response = false;
  websocket = false;
}

-- `enum wby_connection_state`
pub data ConState : Type 0 where
  con_request : ConState
  con_send_continue : ConState
  con_serve : ConState
  con_websocket : ConState

abbrev pub is_serve : ConState → Bool
is_serve con_serve = true
is_serve _ = false

-- `struct wby_connection`, less the log, the user data and the two constant sizes.
pub record Connection (S : Type 0) : Type 0 where
  pub request : Request
  pub flags : Flags
  pub state : ConState
  pub socket : S
  pub header_buf : Buffer
  pub io_buf : Buffer
  pub header_body_left : ℕ
  pub io_data_left : ℕ
  pub continue_data_left : ℕ
  pub body_bytes_read : ℕ
  pub ws_frame : Frame
  pub ws_opcode : ℕ
  pub blocking_count : ℕ

-- The connection without its flag WBY_CON_FLAG_ALIVE.
abbrev pub no_longer_alive : {S : Type 0} → Connection S → Connection S
no_longer_alive conn = record conn { flags = record conn.flags { alive = false } }

abbrev pub empty_buffer : ℕ → Buffer
empty_buffer max = record { bytes = []; max = max }

unfoldable pub connection_reset : {S : Type 0} → Connection S → ℕ → ℕ → Connection S
connection_reset conn request_buffer_size io_buffer_size = record conn {
  header_buf = empty_buffer request_buffer_size;
  io_buf = empty_buffer io_buffer_size;
  header_body_left = 0;
  io_data_left = 0;
  continue_data_left = 0;
  body_bytes_read = 0;
  state = con_request;
  blocking_count = 0;
}

module _ (N : Network) where
  -- `true` is a return of 0. The count is an `unsigned long`.
  unfoldable pub connection_set_blocking : Connection N.Sock → Bool × Connection N.Sock
  connection_set_blocking conn =
      let (ok, s) = socket_set_blocking N conn.socket true in
      let switched = record conn { socket = s; blocking_count = u64 (conn.blocking_count + 1) } in
      let counted = record conn { blocking_count = u64 (conn.blocking_count + 1) } in
      if conn.blocking_count == 0
      then (if ok then (true, switched) else (false, no_longer_alive (record conn { socket = s })))
      else (true, counted)

  unfoldable pub connection_set_nonblocking : Connection N.Sock → Bool × Connection N.Sock
  connection_set_nonblocking conn =
      let (ok, s) = socket_set_blocking N conn.socket false in
      let count = u64 (conn.blocking_count + 2 ^ 64 - 1) in
      let switched = record conn { socket = s; blocking_count = count } in
      let counted = record conn { blocking_count = count } in
      if conn.flags.alive && conn.blocking_count == 1
      then (if ok then (true, switched) else (false, no_longer_alive (record conn { socket = s })))
      else (true, counted)

  unfoldable pub connection_close : Connection N.Sock → Connection N.Sock
  connection_close conn =
      let closed = record conn { socket = N.close conn.socket; flags = no_flags } in
      if N.is_invalid conn.socket then record conn { flags = no_flags } else closed

  -- The loop of `wby_connection_push`, on the bytes that are left; `true` is a return of 0. The
  -- buffer is never over-full, and its size is an `int`, so that the subtraction is that of ℕ.
  unfoldable pub push_loop : ℕ → N.Sock → Buffer → List ℕ → Bool × (N.Sock × Buffer)
  push_loop fuel s buf [] = (true, (s, buf))
  push_loop zero s buf (d ∷ data_left) = (true, (s, buf))
  push_loop (suc fuel) s buf (d ∷ data_left) =
      let copy_size = min (length (d ∷ data_left)) (buf.max - length buf.bytes) in
      let filled = record buf { bytes = buf.bytes ++ take copy_size (d ∷ data_left) } in
      let left = drop copy_size (d ∷ data_left) in
      let (flushed, (s', emptied)) = socket_flush N s filled in
      let (sent, s'') = socket_send N s' left in
      let after_flush = push_loop fuel s' emptied left in
      let next = push_loop fuel s filled left in
      if length filled.bytes == buf.max
      then (if flushed
          then (if leb buf.max (length left) then (sent, (s'', emptied)) else after_flush)
          else (false, (s', emptied)))
      else next

  abbrev pub with_output : Connection N.Sock → Bool × (N.Sock × Buffer) → Bool × Connection N.Sock
  with_output conn (ok, (s, buf)) = (ok, record conn { socket = s; io_buf = buf })

  -- A round takes a byte, but for the first one on a full buffer: one more than the length is
  -- enough fuel.
  unfoldable pub connection_push : Connection N.Sock → List ℕ → Bool × Connection N.Sock
  connection_push conn [] =
      if is_serve conn.state
      then with_output conn (socket_flush N conn.socket conn.io_buf)
      else (false, conn)
  connection_push conn (d ∷ data_) =
      if is_serve conn.state
      then with_output conn
          (push_loop (suc (length (d ∷ data_))) conn.socket conn.io_buf (d ∷ data_))
      else (false, conn)
