-- ===== src/Mumux/Connection/Serving.antt =====
-- A connection for runs.
use mavicona.Base.{refl, none, true, false, [], ◌∷◌, arith}
use mavicona.Base.Int.{pos}
use mavicona.Mumux.Socket.Loopback.{Pipe}
use mavicona.Mumux.Connection.{Connection, con_serve, empty_buffer}
use mavicona.Mumux.Connection.Stream.{IsServing}

-- A connection that serves, with a buffer of four bytes that holds three.
abbrev pub serving : Connection Pipe
serving = record {
  request = record {
    method = b'G' ∷ [];
    uri = b'/' ∷ [];
    http_version = [];
    query_params = none;
    content_length = pos 0;
    headers = [];
  };
  flags = record {
    alive = true;
    fresh_connection = false;
    close_after_response = false;
    chunked_response = false;
    websocket = false;
  };
  state = con_serve;
  socket = record { sent = 7 ∷ []; given = []; incoming = []; blocking = false; closed = false };
  header_buf = empty_buffer 16;
  io_buf = record { bytes = 1 ∷ 2 ∷ 3 ∷ []; max = 4 };
  header_body_left = 0;
  io_data_left = 0;
  continue_data_left = 0;
  body_bytes_read = 0;
  ws_frame = record {
    flags = 0;
    opcode = 0;
    header_size = 0;
    mask_key = 0 ∷ 0 ∷ 0 ∷ 0 ∷ [];
    payload_length = pos 0;
  };
  ws_opcode = 0;
  blocking_count = 0;
}

pub serving-IsServing : IsServing serving
serving-IsServing = record { serves = refl; has_room = omega arith; not_over = omega arith }
