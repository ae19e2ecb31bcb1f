-- ===== src/Mumux/Server.antt =====
-- mumux/server.c: the last loop of `wby_update`, which closes stale connections and compacts the
-- array of connections.
pub mod Compact
mod Tests
use mavicona.Base.{
  ℕ, zero, suc, Bool, true, false, List, [], ◌∷◌, ◌++◌, some, none, if◌then◌else◌, length, take,
  drop, get_elem?,
}
use mavicona.Mumux.Connection.{Connection}

-- The loop at index `i`, on the first `con_count` connections, with fuel for as many rounds: the
-- connections that stay, and those that were closed, in the order of their closing.
unfoldable pub compact_loop :
    {S : Type 0} → ℕ → ℕ → List (Connection S) → List (Connection S) × List (Connection S)
compact_loop zero i con = (con, [])
compact_loop (suc fuel) i con = elim (get_elem? con i) [
  | none ↦ (con, [])
  | some connection ↦
      let kept = compact_loop fuel (suc i) con in
      let (rest, closed) = compact_loop fuel i (take i con ++ drop (suc i) con) in
      if connection.flags.alive then kept else (rest, connection ∷ closed)
]

-- A round goes one connection further or takes one out, so their number is enough fuel.
unfoldable pub compact :
    {S : Type 0} → List (Connection S) → List (Connection S) × List (Connection S)
compact con = compact_loop (length con) 0 con
