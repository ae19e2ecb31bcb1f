-- ===== src/Mumux/Read.antt =====
-- Reading the body of a request or the payload of a frame: `wby_read_buffered_data` of mumux/util.c,
-- `wby_read` and `wby_con_discard_incoming_data` of mumux/request.c.
pub mod Mask
pub mod Buffered
pub mod Stream
pub mod Stuck
mod Tests
use mavicona.Base.{
  ℕ, zero, suc, ◌+◌, ◌-◌, Bool, true, false, not, ◌&&◌, Option, none, some, List, [], ◌∷◌, ◌++◌,
  u32, bit_and, bit_xor, ◌==◌, ltb, min, if◌then◌else◌, length, take, drop, get_or,
}
use mavicona.Base.Int.{pos, negsuc, to_int}
use mavicona.Mumux.Socket.{Network, Recv, received, failed, bytes_of, Buffer}
use mavicona.Mumux.Frame.{wsf_masked, bit_is_set}
use mavicona.Mumux.Connection.{Connection}

-- What is copied, and what `*data_left` and `*dest_len` are then. The last `data_left` bytes of the
-- buffer are those that wait. `*dest_len` is cast to an `int`; `none` is a copy of a negative number
-- of bytes, which `memcpy` takes for almost 2 ^ 64.
unfoldable pub read_buffered_data : ℕ → Buffer → ℕ → Option (List ℕ × (ℕ × ℕ))
read_buffered_data data_left buffer dest_len =
    if data_left == 0 then some ([], (0, dest_len)) else elim (to_int (u32 dest_len)) [
      | negsuc n ↦ none
      | pos len ↦
          let read_size = min len data_left in
          some (
            take read_size (drop (length buffer.bytes - data_left) buffer.bytes),
            (data_left - read_size, dest_len - read_size),
          )
    ]

-- The loop that undoes the mask, at index `i`.
unfoldable pub unmask : List ℕ → ℕ → List ℕ → List ℕ
unmask key i [] = []
unmask key i (byte ∷ bytes) = bit_xor byte (get_or key (bit_and i 3) 0) ∷ unmask key (i + 1) bytes

module _ (N : Network) where
  -- The loop on `recv` for `len` more bytes, with fuel for as many rounds: `none` is a loop that has
  -- not ended. `false` is a failed `recv`. A `recv` of no bytes does not end the loop.
  unfoldable pub recv_exact : ℕ → N.Sock → ℕ → Option (Bool × (List ℕ × N.Sock))
  recv_exact zero s len = if len == 0 then some (true, ([], s)) else none
  recv_exact (suc fuel) s len =
      let (err, s') = N.recv s len in
      if len == 0 then some (true, ([], s)) else elim err [
        | failed error ↦ some (false, ([], s'))
        | received bytes ↦ elim (recv_exact fuel s' (len - length bytes)) [
          | none ↦ none
          | some (ok, (more, s'')) ↦ some (ok, (bytes ++ more, s''))
        ]
      ]

  abbrev pub is_masked : Connection N.Sock → Bool
  is_masked conn = conn.flags.websocket && bit_is_set conn.ws_frame.flags wsf_masked

  -- The connection once the reads from the buffers left `conn` and `count` bytes came from the
  -- socket.
  abbrev pub after_read : Connection N.Sock → Bool → ℕ → N.Sock → Connection N.Sock
  after_read conn ok count s = record conn {
    socket = s;
    body_bytes_read = conn.body_bytes_read + count;
    flags = record conn.flags { alive = conn.flags.alive && ok };
  }

  -- What stands at `ptr` in the end: a read that failed leaves the mask on.
  abbrev pub shown : Connection N.Sock → Bool → ℕ → List ℕ → List ℕ
  shown conn ok start_pos raw =
      if ok && is_masked conn then unmask conn.ws_frame.mask_key start_pos raw else raw

  -- `true` is a return of 0; then come the bytes at `ptr`. `none` is a loop on `recv` that has not
  -- ended, or a copy of a negative number of bytes. The position `body_bytes_read` is an `int`: a sum
  -- that it does not hold has no meaning in C, and here goes on.
  unfoldable pub read : ℕ → Connection N.Sock → ℕ → Option (Bool × (List ℕ × Connection N.Sock))
  read fuel conn len = elim (read_buffered_data conn.header_body_left conn.header_buf len) [
    | none ↦ none
    | some (head, (head_left, len')) ↦
        elim (read_buffered_data conn.io_data_left conn.io_buf len') [
          | none ↦ none
          | some (body, (body_left, len'')) ↦
              let conn' = record conn {
                header_body_left = head_left;
                io_data_left = body_left;
                body_bytes_read = conn.body_bytes_read + (len - len'');
              } in
              elim (recv_exact fuel conn.socket len'') [
                | none ↦ none
                | some (ok, (tail, s)) ↦ some (
                  ok,
                  (
                    shown conn' ok conn.body_bytes_read ((head ++ body) ++ tail),
                    after_read conn' ok (length tail) s,
                  ),
                )
              ]
        ]
  ]

  -- `wby_con_discard_incoming_data`: reads of at most 1024 bytes, with fuel for the rounds and for
  -- each read. `true` is a return of 0.
  unfoldable pub discard_incoming_data :
      ℕ → ℕ → Connection N.Sock → ℕ → Option (Bool × Connection N.Sock)
  discard_incoming_data zero fuel conn count = if count == 0 then some (true, conn) else none
  discard_incoming_data (suc rounds) fuel conn count =
      let read_size : ℕ = if ltb 1024 count then 1024 else count in
      if count == 0 then some (true, conn) else elim (read fuel conn read_size) [
        | none ↦ none
        | some (ok, (bytes, conn')) ↦ elim ok [
          | true ↦ discard_incoming_data rounds fuel conn' (count - read_size)
          | false ↦ some (false, conn')
        ]
      ]
