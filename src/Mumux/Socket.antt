-- ===== src/Mumux/Socket.antt =====
-- mumux/socket.c: whole sends, reads into a buffer, and the flush of a buffer.
pub mod Send
pub mod Reading
pub mod Loopback
mod Tests
use mavicona.Base.{
  ℕ, zero, suc, ◌-◌, Bool, true, false, List, [], ◌∷◌, ◌++◌, ◌⊎◌, inl, inr, ◌==◌, ltb,
  if◌then◌else◌, length, drop, bit_and, bit_or,
}
use mavicona.Base.Int.{ℤ, pos, negsuc, pos_part}

-- What `recv` returns: a count with its bytes, no bytes at all from a closed peer, or -1 with
-- `errno`.
pub data Recv : Type 0 where
  received : List ℕ → Recv
  failed : ℕ → Recv

abbrev pub bytes_of : Recv → List ℕ
bytes_of (received bytes) = bytes
bytes_of (failed error) = []

-- The system calls on a socket: the state of the socket as the process sees it, what a call returns
-- and the state that it leaves, and the numbers `EAGAIN` and `O_NONBLOCK`. The flags are those that
-- `fcntl` gets and sets. A socket that was closed is the invalid one, WBY_INVALID_SOCKET.
pub record Network : Type 1 where
  pub Sock : Type 0
  pub send : Sock → List ℕ → ℤ × Sock
  pub recv : Sock → ℕ → Recv × Sock
  pub eagain : ℕ
  pub get_flags : Sock → ℤ
  pub set_flags : Sock → ℕ → ℤ × Sock
  pub o_nonblock : ℕ
  pub close : Sock → Sock
  pub is_invalid : Sock → Bool

-- `struct wby_buffer`; `used` is the length of `bytes`, the used part of `data`.
pub record Buffer : Type 0 where
  pub bytes : List ℕ
  pub max : ℕ

-- The results WBY_FILL_OK, WBY_FILL_ERROR and WBY_FILL_FULL.
pub data Fill : Type 0 where
  fill_ok : Fill
  fill_error : Fill
  fill_full : Fill

abbrev pub is_neg : ℤ → Bool
is_neg (pos n) = false
is_neg (negsuc n) = true

-- The comparison with WBY_OK, which is 0.
abbrev pub is_ok : ℤ → Bool
is_ok (pos n) = n == 0
is_ok (negsuc n) = false

module _ (N : Network) where
  unfoldable pub is_blocking_error : ℕ → Bool
  is_blocking_error error = N.eagain == error

  -- `true` is WBY_OK. The flag is one bit, so that to clear it is to subtract it where it is set.
  unfoldable pub socket_set_blocking : N.Sock → Bool → Bool × N.Sock
  socket_set_blocking s blocking =
      let flags = pos_part (N.get_flags s) in
      let flags' : ℕ =
        if blocking then flags - bit_and flags N.o_nonblock else bit_or flags N.o_nonblock in
      let (err, s') = N.set_flags s flags' in
      if is_neg (N.get_flags s) then (false, s) else (is_ok err, s')

  -- `true` is WBY_OK. The fuel is the number of rounds.
  unfoldable pub send_loop : ℕ → N.Sock → List ℕ → Bool × N.Sock
  send_loop fuel s [] = (true, s)
  send_loop zero s (b ∷ bytes) = (true, s)
  send_loop (suc fuel) s (b ∷ bytes) =
      let (err, s') = N.send s (b ∷ bytes) in
      let rest = send_loop fuel s' (drop (pos_part err) (b ∷ bytes)) in
      if pos_part err == 0 then (false, s') else rest

  -- A round sends at least one byte, so the size is enough fuel.
  unfoldable pub socket_send : N.Sock → List ℕ → Bool × N.Sock
  socket_send s buffer = send_loop (length buffer) s buffer

  unfoldable pub socket_flush : N.Sock → Buffer → Bool × (N.Sock × Buffer)
  socket_flush s buf =
      let (ok, s') = socket_send s buf.bytes in
      let emptied = record buf { bytes = [] } in
      if ltb 0 (length buf.bytes)
      then (if ok then (true, (s', emptied)) else (false, (s', buf)))
      else (true, (s, emptied))

  -- What one `recv` makes of the loop: its result, or the buffer to go on with.
  unfoldable pub after_recv : Buffer → Recv → Fill ⊎ Buffer
  after_recv buf (failed error) = if is_blocking_error error then inl fill_ok else inl fill_error
  after_recv buf (received []) = inl fill_error
  after_recv buf (received (b ∷ bytes)) = inr (record buf { bytes = buf.bytes ++ (b ∷ bytes) })

  unfoldable pub recv_loop : ℕ → N.Sock → Buffer → Fill × (N.Sock × Buffer)
  recv_loop zero s buf = (fill_full, (s, buf))
  recv_loop (suc fuel) s buf =
      let buf_left = buf.max - length buf.bytes in
      let (err, s') = N.recv s buf_left in
      if buf_left == 0 then (fill_full, (s, buf)) else elim (after_recv buf err) [
        | inl result ↦ (result, (s', buf))
        | inr buf' ↦ recv_loop fuel s' buf'
      ]

  -- A round that goes on fills at least one byte of the buffer.
  unfoldable pub socket_recv : N.Sock → Buffer → Fill × (N.Sock × Buffer)
  socket_recv s buf = recv_loop (buf.max - length buf.bytes) s buf
