-- ===== src/Cynder/Ring/Tests.antt =====
-- A ring of two nodes, with the length of a text for its hash.
use mavicona.Base.{ℕ, ◌≡◌, ◌⊎◌, refl, some, ◌==◌, if◌then◌else◌, List, [], ◌∷◌, length}
use mavicona.Base.Text.{codes}
use mavicona.Cynder.Ring.{add_node, get_node, entry_for, lower_bound}
use mavicona.Cynder.Ring.Moves.{get_node-add_node}

abbrev name : ℕ → List ℕ
name n = if n == 0 then codes "abcd" else codes "ab"

abbrev ring : List (ℕ × ℕ)
ring = (3, 1) ∷ (5, 0) ∷ []

get_node-add_node_example :
    (get_node length name (add_node length name 2 ring 1) (codes "abcd") ≡ some 1)
    ⊎ (get_node length name (add_node length name 2 ring 1) (codes "abcd")
        ≡ get_node length name ring (codes "abcd"))
get_node-add_node_example = get_node-add_node length name 2 ring 1 (codes "abcd")

found_at : entry_for ring 4 ≡ some (5, 0)
unfolding entry_for lower_bound
found_at = refl
