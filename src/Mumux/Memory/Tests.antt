-- ===== src/Mumux/Memory/Tests.antt =====
-- A server of three connections.
use mavicona.Base.{◌≡◌, refl, [], ◌∷◌, arith}
use mavicona.Mumux.Memory.{Sizes, set_up_memory, align_ptr, place_loop}
use mavicona.Mumux.Memory.Layout.{LaidOut, set_up_memory-LaidOut}

abbrev three : Sizes
three = record {
  connection_max = 3;
  request_buffer_size = 2048;
  io_buffer_size = 4096;
  conn_size = 200;
  conn_align = 8;
}

three_places : set_up_memory three 1001 ≡ (
  1008,
  (
    record { header_data = 1608; io_data = 3656 }
        ∷ record { header_data = 7752; io_data = 9800 }
        ∷ record { header_data = 13896; io_data = 15944 }
        ∷ [],
    20040,
  ),
)
unfolding set_up_memory align_ptr place_loop
three_places = refl

set_up_memory-LaidOut_example : LaidOut three 1001 (set_up_memory three 1001)
set_up_memory-LaidOut_example = set_up_memory-LaidOut three 1001 3 (omega arith) refl (omega arith)
