-- ===== src/Mumux/Write.antt =====
-- `wby_write` and `wby_frame_end` of mumux/request.c: output as WebSocket frames, as chunks or as it
-- stands. The switches between blocking and non-blocking mode are left to the callers.
pub mod Length
pub mod Ws
pub mod Chunk
mod Tests
use mavicona.Base.{
  ℕ, zero, suc, ◌+◌, ◌/◌, ◌%◌, Bool, true, false, List, [], ◌∷◌, ◌++◌, ltb, if◌then◌else◌, length,
  take, ◌-◌, ◌^◌, u8, u32, bit_and,
}
use mavicona.Base.Int.{ℤ, pos, negsuc, pos_part, to_int}
use mavicona.Mumux.Socket.{Network, socket_send}
use mavicona.Mumux.Frame.{make_websocket_header}
use mavicona.Mumux.Connection.{Connection, connection_push, is_serve, no_longer_alive}

abbrev pub hex_digit : ℕ → ℕ
hex_digit d = if ltb d 10 then 48 + d else 87 + d

-- The format `%x`, for a number of at most as many digits as the fuel.
unfoldable pub hex_digits : ℕ → ℕ → List ℕ
hex_digits zero n = []
hex_digits (suc fuel) n =
    let more = hex_digits fuel (n / 16) ++ (hex_digit (n % 16) ∷ []) in
    if ltb n 16 then hex_digit n ∷ [] else more

-- "%x\r\n", which prints an `int` as an `unsigned int`.
unfoldable pub chunk_header : ℕ → List ℕ
chunk_header len = hex_digits 8 len ++ (b'\r' ∷ b'\n' ∷ [])

-- `(int)len` for the number of the bytes, an `unsigned long`.
unfoldable pub int_len : List ℕ → ℤ
int_len bytes = to_int (u32 (length bytes))

-- What `wby_make_websocket_header` writes for an `int` that may be negative, which is less than 126.
unfoldable pub header_for : ℕ → ℤ → List ℕ
header_for opcode (pos n) = make_websocket_header opcode n false
header_for opcode (negsuc n) = u8 opcode ∷ u8 (bit_and (2 ^ 32 - 1 - n) 0x7f) ∷ []

-- The bytes that a loop sees whose count is an `int`: none where it is negative.
abbrev pub first_bytes : List ℕ → List ℕ
first_bytes bytes = take (pos_part (int_len bytes)) bytes

module _ (N : Network) where
  -- The branch for a WebSocket; `true` is a return of 0.
  unfoldable pub write_frame : Connection N.Sock → List ℕ → Bool × Connection N.Sock
  write_frame conn bytes =
      let header = header_for conn.ws_opcode (int_len bytes) in
      let (header_sent, s) = socket_send N conn.socket header in
      let (bytes_sent, s') = socket_send N s (first_bytes bytes) in
      let after_header = record conn { ws_opcode = 0; socket = s } in
      let after_bytes = record conn { ws_opcode = 0; socket = s' } in
      if header_sent
      then (if bytes_sent then (true, after_bytes) else (false, no_longer_alive after_bytes))
      else (false, no_longer_alive after_header)

  -- `wby_connection_push` with `(int)len`: a negative count pushes nothing, and flushes nothing.
  unfoldable pub push_int : Connection N.Sock → List ℕ → Bool × Connection N.Sock
  push_int conn bytes = elim (int_len bytes) [
    | pos n ↦ connection_push N conn (take n bytes)
    | negsuc n ↦ (is_serve conn.state, conn)
  ]

  -- The branch for a chunked response: only the result of the last push is returned.
  unfoldable pub write_chunk : Connection N.Sock → List ℕ → Bool × Connection N.Sock
  write_chunk conn bytes =
      let after_header = (connection_push N conn (chunk_header (u32 (length bytes)))).1 in
      let after_bytes = (push_int after_header bytes).1 in
      connection_push N after_bytes (b'\r' ∷ b'\n' ∷ [])

  unfoldable pub write : Connection N.Sock → List ℕ → Bool × Connection N.Sock
  write conn bytes =
      if conn.flags.websocket
      then write_frame conn bytes
      else if conn.flags.chunked_response
      then write_chunk conn bytes
      else push_int conn bytes

  -- The part of `wby_frame_end` in front of its switch to non-blocking mode.
  unfoldable pub frame_end : Connection N.Sock → Connection N.Sock
  frame_end conn =
      let (sent, s) = socket_send N conn.socket (make_websocket_header conn.ws_opcode 0 true) in
      let after = record conn { socket = s } in if sent then after else no_longer_alive after
