-- ===== src/Mumux/Memory.antt =====
-- mumux/server.c, `wby_init` and the first part of `wby_start`: the memory of a server and where the
-- buffers of its connections stand in it. The size and the alignment of a connection are the
-- compiler's.
pub mod Layout
mod Tests
use mavicona.Base.{ℕ, zero, suc, ◌+◌, ◌-◌, ◌*◌, ◌^◌, bit_and, u64, List, [], ◌∷◌}

-- The numbers of `struct wby_config`, and of `struct wby_connection`: `conn_size` is its size, and
-- `conn_align` its alignment.
pub record Sizes : Type 0 where
  pub connection_max : ℕ
  pub request_buffer_size : ℕ
  pub io_buffer_size : ℕ
  pub conn_size : ℕ
  pub conn_align : ℕ

-- `wby_init`
unfoldable pub needed_memory : Sizes → ℕ
needed_memory s =
    let connections = u64 (s.connection_max * s.conn_size) in
    let requests = u64 (connections + s.connection_max * s.request_buffer_size) in
    let outputs = u64 (requests + s.connection_max * s.io_buffer_size) in
    u64 (outputs + s.conn_align)

-- WBY_ALIGN_PTR; the complement of a word `w` is `2 ^ 64 - 1 - w`.
unfoldable pub align_ptr : ℕ → ℕ → ℕ
align_ptr x mask = bit_and (u64 (x + (mask - 1))) (2 ^ 64 - 1 - (mask - 1))

-- Where the two buffers of a connection start.
pub record Place : Type 0 where
  pub header_data : ℕ
  pub io_data : ℕ

-- The loop over the connections from the address `buffer` on: the places, and the address behind
-- them.
unfoldable pub place_loop : Sizes → ℕ → ℕ → List Place × ℕ
place_loop s zero buffer = ([], buffer)
place_loop s (suc left) buffer =
    let io = u64 (buffer + s.request_buffer_size) in
    let (places, end) = place_loop s left (u64 (io + s.io_buffer_size)) in
    (record { header_data = buffer; io_data = io } ∷ places, end)

-- The part of `wby_start` that sets up the memory: the array of connections, the places of their
-- buffers, and the address behind the last one.
unfoldable pub set_up_memory : Sizes → ℕ → ℕ × (List Place × ℕ)
set_up_memory s memory =
    let con = align_ptr memory s.conn_align in
    (con, place_loop s s.connection_max (u64 (con + s.connection_max * s.conn_size)))
