-- ===== src/Cynder/Ring.antt =====
-- cynder/consistent_hash.h: the ring of hashes that tells which node holds a key.
pub mod Moves
mod Tests
use mavicona.Base.{
  ℕ, zero, suc, ◌+◌, Bool, Option, none, some, List, [], ◌∷◌, ◌++◌, ◌==◌, ltb, leb, if◌then◌else◌,
}
use mavicona.Base.Decimal.{decimal}

-- A `std::map` from hashes to nodes, as its entries in the order of the hashes. An assignment to a
-- hash replaces its entry.
unfoldable pub assign {ℓ} : {A : Type ℓ} → List (ℕ × A) → ℕ → A → List (ℕ × A)
assign [] hash node = (hash, node) ∷ []
assign ((h, n) ∷ ring) hash node =
    let rest = assign ring hash node in
    if ltb hash h
    then (hash, node) ∷ (h, n) ∷ ring
    else if hash == h
    then (hash, node) ∷ ring
    else (h, n) ∷ rest

unfoldable pub erase {ℓ} : {A : Type ℓ} → List (ℕ × A) → ℕ → List (ℕ × A)
erase [] hash = []
erase ((h, n) ∷ ring) hash = let rest = erase ring hash in if hash == h then ring else (h, n) ∷ rest

-- `lower_bound`: the first entry with a hash of at least `hash`.
unfoldable pub lower_bound {ℓ} : {A : Type ℓ} → List (ℕ × A) → ℕ → Option (ℕ × A)
lower_bound [] hash = none
lower_bound ((h, n) ∷ ring) hash =
    let rest = lower_bound ring hash in if leb hash h then some (h, n) else rest

abbrev pub first_entry {ℓ} : {A : Type ℓ} → List (ℕ × A) → Option (ℕ × A)
first_entry [] = none
first_entry (entry ∷ ring) = some entry

-- The entry that `getNode` finds for a hash; `none` is the exception on an empty ring.
unfoldable pub entry_for {ℓ} : {A : Type ℓ} → List (ℕ × A) → ℕ → Option (ℕ × A)
entry_for ring hash = elim (lower_bound ring hash) [
  | none ↦ first_entry ring
  | some entry ↦ some entry
]

abbrev pub node_of {ℓ} : {A : Type ℓ} → Option (ℕ × A) → Option A
node_of none = none
node_of (some (hash, node)) = some node

-- The hash function and the text of a node are parameters of the class.
module _ {Node : Type 0} (hash : List ℕ → ℕ) (stringify : Node → List ℕ) where
  -- The hash of the `r`-th point of a node.
  abbrev pub point : Node → ℕ → ℕ
  point node r = hash (stringify node ++ decimal r)

  -- The loop of `addNode` from `r` on, for `left` more points.
  unfoldable pub add_loop : ℕ → ℕ → List (ℕ × Node) → Node → List (ℕ × Node)
  add_loop zero r ring node = ring
  add_loop (suc left) r ring node = add_loop left (suc r) (assign ring (point node r) node) node

  unfoldable pub add_node : ℕ → List (ℕ × Node) → Node → List (ℕ × Node)
  add_node spread ring node = add_loop spread 0 ring node

  unfoldable pub remove_loop : ℕ → ℕ → List (ℕ × Node) → Node → List (ℕ × Node)
  remove_loop zero r ring node = ring
  remove_loop (suc left) r ring node = remove_loop left (suc r) (erase ring (point node r)) node

  unfoldable pub remove_node : ℕ → List (ℕ × Node) → Node → List (ℕ × Node)
  remove_node spread ring node = remove_loop spread 0 ring node

  -- `getNode`, on the text of a key.
  unfoldable pub get_node : List (ℕ × Node) → List ℕ → Option Node
  get_node ring key = node_of (entry_for ring (hash key))
