-- ===== src/Mumux/Server/Tests.antt =====
-- Runs of the compaction.
use mavicona.Base.{◌≡◌, refl, false, [], ◌∷◌}
use mavicona.Mumux.Socket.Loopback.{Pipe}
use mavicona.Mumux.Connection.{Connection}
use mavicona.Mumux.Connection.Serving.{serving}
use mavicona.Mumux.Server.{compact, compact_loop}

abbrev stale : Connection Pipe
stale = record serving { flags = record serving.flags { alive = false } }

abbrev numbered : Connection Pipe
numbered = record serving { ws_opcode = 2 }

compact_four : (compact (stale ∷ serving ∷ stale ∷ numbered ∷ [])).0 ≡ serving ∷ numbered ∷ []
unfolding compact compact_loop
compact_four = refl
