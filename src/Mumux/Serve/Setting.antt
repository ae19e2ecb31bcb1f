-- ===== src/Mumux/Serve/Setting.antt =====
-- A configuration for runs.
use mavicona.Base.{true, false, none, [], replicate}
use mavicona.Mumux.Socket.Loopback.{Pipe}
use mavicona.Mumux.Connection.{no_longer_alive}
use mavicona.Mumux.Serve.{Config, Surroundings}

-- Its dispatch callback loses every connection, and its WebSocket callback fails.
abbrev pub config : Config Pipe
config = record {
  request_buffer_size = 64;
  io_buffer_size = 64;
  dispatch = λ conn. (true, no_longer_alive conn);
  ws_connect = none;
  ws_connected = λ conn. conn;
  ws_frame = λ conn. (false, conn);
}

abbrev pub surroundings : Surroundings
surroundings = record {
  behind = λ n. [];
  sha = record {
    state = record { a = 0; b = 0; c = 0; d = 0; e = 0 };
    msg_size_hi = 0;
    msg_size_lo = 0;
    buf_used = 0;
    buffer = replicate 64 0;
  };
  rounds = 4;
  fuel = 100;
}
