-- ===== src/Cynder/Ring/Moves.antt =====
-- Which keys move when a node comes or goes.
use mavicona.Base.{
  ℕ, zero, suc, ◌+◌, ◌<◌, ◌≡◌, ◌≢◌, ◌⊎◌, inl, inr, refl, sym, ap, ◌∙◌, false, Bool-cases, Option,
  Option-cases, none, some, List, [], ◌∷◌, arith, ◌==◌, ==_iff, ltb, leb,
}
use mavicona.Cynder.Ring.{
  assign, erase, lower_bound, first_entry, entry_for, node_of, point, add_loop, add_node,
  remove_loop, remove_node, get_node,
}

not_same : (k j : ℕ) → j ≢ k → (k == j) ≡ false
not_same k j h = elim (Bool-cases (k == j)) [
  | inl same ↦ absurd (h (sym ((==_iff k j).0 same)))
  | inr differs ↦ differs
]

some_inj : {A : Type 0} {a b : A} → some a ≡ some b → a ≡ b
some_inj e = cc e

some_ne_none : {A : Type 0} {a : A} → some a ≢ none
some_ne_none e = cc e

module _ {A : Type 0} where
  -- The lowest entry above a hash is the new one, or the one before.
  lower_bound-assign :
      (ring : List (ℕ × A)) (k h : ℕ) (v : A)
      → (lower_bound (assign ring k v) h ≡ some (k, v))
        ⊎ ((lower_bound (assign ring k v) h ≡ lower_bound ring h))
  unfolding assign lower_bound
  lower_bound-assign [] k h v = elim (Bool-cases (leb h k)) [
    | inl above ↦ rw above (inl refl)
    | inr below ↦ rw below (inr refl)
  ]
  lower_bound-assign ((j, w) ∷ ring) k h v = elim (Bool-cases (ltb k j)) [
    | inl front ↦ elim (Bool-cases (leb h k)) [
      | inl above ↦ rw (front, above) (inl refl)
      | inr below ↦ rw (front, below) (inr refl)
    ]
    | inr behind ↦ elim (Bool-cases (k == j)) [
      | inl same ↦ elim (Bool-cases (leb h k)) [
        | inl above ↦ rw (behind, same) (rw above (inl refl))
        | inr below ↦
            let also : leb h j ≡ false = ground (arith, same, below) in
            rw (behind, same) (rw below (rw also (inr refl)))
      ]
      | inr other ↦ elim (Bool-cases (leb h j)) [
        | inl above ↦ rw (behind, other) (rw above (inr refl))
        | inr below ↦ rw (behind, other) (rw below (lower_bound-assign ring k h v))
      ]
    ]
  ]

  first_entry-assign :
      (ring : List (ℕ × A)) (k : ℕ) (v : A)
      → (first_entry (assign ring k v) ≡ some (k, v))
        ⊎ (first_entry (assign ring k v) ≡ first_entry ring)
  unfolding assign
  first_entry-assign [] k v = inl refl
  first_entry-assign ((j, w) ∷ ring) k v = elim (Bool-cases (ltb k j)) [
    | inl front ↦ rw front (inl refl)
    | inr behind ↦ elim (Bool-cases (k == j)) [
      | inl same ↦ rw (behind, same) (inl refl)
      | inr other ↦ rw (behind, other) (inr refl)
    ]
  ]

  -- What `entry_for` makes of a lowest entry.
  abbrev wrap : List (ℕ × A) → Option (ℕ × A) → Option (ℕ × A)
  wrap ring none = first_entry ring
  wrap ring (some entry) = some entry

  wrapped :
      (ring : List (ℕ × A)) (k : ℕ) (v : A) (o : Option (ℕ × A))
      → (wrap (assign ring k v) o ≡ some (k, v)) ⊎ (wrap (assign ring k v) o ≡ wrap ring o)
  wrapped ring k v none = first_entry-assign ring k v
  wrapped ring k v (some entry) = inr refl

  entry_for-assign :
      (ring : List (ℕ × A)) (k h : ℕ) (v : A)
      → (entry_for (assign ring k v) h ≡ some (k, v))
        ⊎ (entry_for (assign ring k v) h ≡ entry_for ring h)
  unfolding entry_for
  entry_for-assign ring k h v = elim (lower_bound-assign ring k h v) [
    | inl new ↦ rw (new, entry_for) (inl refl)
    | inr same ↦ rw (same, entry_for) (wrapped ring k v (lower_bound ring h))
  ]

  -- An entry that is not erased stays the one for its hashes.
  lower_bound-erase :
      (ring : List (ℕ × A)) (k h : ℕ) (e : ℕ × A)
      → e.0 ≢ k
      → lower_bound ring h ≡ some e
      → lower_bound (erase ring k) h ≡ some e
  unfolding erase lower_bound
  lower_bound-erase [] k h e other found = absurd (cc found)
  lower_bound-erase ((j, w) ∷ ring) k h e other found = elim (Bool-cases (leb h j)) [
    | inl above ↦
        let here : (j, w) ≡ e = some_inj (simp above at found) in
        let differs : (k == j) ≡ false = not_same k j (λ q. other (sym (ap (λ x. x.0) here) ∙ q)) in
        rw differs (rw above (ap some here))
    | inr below ↦
        let later : lower_bound ring h ≡ some e = simp below at found in
        elim (Bool-cases (k == j)) [
          | inl same ↦ rw same later
          | inr differs ↦ rw differs (rw below (lower_bound-erase ring k h e other later))
        ]
  ]

  lower_bound-erase-none :
      (ring : List (ℕ × A)) (k h : ℕ)
      → lower_bound ring h ≡ none
      → lower_bound (erase ring k) h ≡ none
  unfolding erase lower_bound
  lower_bound-erase-none [] k h found = refl
  lower_bound-erase-none ((j, w) ∷ ring) k h found = elim (Bool-cases (leb h j)) [
    | inl above ↦ absurd (some_ne_none (simp above at found))
    | inr below ↦
        let later : lower_bound ring h ≡ none = simp below at found in
        elim (Bool-cases (k == j)) [
          | inl same ↦ rw same later
          | inr differs ↦ rw differs (rw below (lower_bound-erase-none ring k h later))
        ]
  ]

  first_entry-erase :
      (ring : List (ℕ × A)) (k : ℕ) (e : ℕ × A)
      → e.0 ≢ k
      → first_entry ring ≡ some e
      → first_entry (erase ring k) ≡ some e
  unfolding erase
  first_entry-erase [] k e other found = absurd (cc found)
  first_entry-erase ((j, w) ∷ ring) k e other found =
      let here : (j, w) ≡ e = some_inj found in
      let differs : (k == j) ≡ false = not_same k j (λ q. other (sym (ap (λ x. x.0) here) ∙ q)) in
      rw differs found

  entry_for-erase :
      (ring : List (ℕ × A)) (k h : ℕ) (e : ℕ × A)
      → e.0 ≢ k
      → entry_for ring h ≡ some e
      → entry_for (erase ring k) h ≡ some e
  unfolding entry_for
  entry_for-erase ring k h e other found = elim (Option-cases (lower_bound ring h)) [
    | inl nothing ↦
        rw (lower_bound-erase-none ring k h nothing, entry_for)
          (first_entry-erase ring k e other (rw (nothing, entry_for) at found))
    | inr (entry, lowest) ↦
        let here : lower_bound ring h ≡ some e = lowest ∙ rw (lowest, entry_for) at found in
        rw (lower_bound-erase ring k h e other here, entry_for) refl
  ]

module _ {Node : Type 0} (hash : List ℕ → ℕ) (stringify : Node → List ℕ) where
  node_of-add_loop :
      (left r : ℕ) (ring : List (ℕ × Node)) (node : Node) (h : ℕ)
      → (node_of (entry_for (add_loop hash stringify left r ring node) h) ≡ some node)
        ⊎ (node_of (entry_for (add_loop hash stringify left r ring node) h)
            ≡ node_of (entry_for ring h))
  unfolding add_loop
  node_of-add_loop zero r ring node h = inr refl
  node_of-add_loop (suc left) r ring node h =
      elim (node_of-add_loop left (suc r) (assign ring (point hash stringify node r) node) node h) [
        | inl new ↦ inl new
        | inr same ↦ elim (entry_for-assign ring (point hash stringify node r) h node) [
          | inl new ↦ inl (same ∙ ap node_of new)
          | inr old ↦ inr (same ∙ ap node_of old)
        ]
      ]

  -- When a node is added, every key stays where it was or moves to the new node.
  pub get_node-add_node :
      (spread : ℕ) (ring : List (ℕ × Node)) (node : Node) (key : List ℕ)
      → (get_node hash stringify (add_node hash stringify spread ring node) key ≡ some node)
        ⊎ (get_node hash stringify (add_node hash stringify spread ring node) key
            ≡ get_node hash stringify ring key)
  unfolding get_node add_node
  get_node-add_node spread ring node key = node_of-add_loop spread 0 ring node (hash key)

  remove_loop-keeps :
      (left r : ℕ) (ring : List (ℕ × Node)) (node : Node) (h : ℕ) (e : ℕ × Node)
      → ((i : ℕ) → i < left → e.0 ≢ point hash stringify node (r + i))
      → entry_for ring h ≡ some e
      → entry_for (remove_loop hash stringify left r ring node) h ≡ some e
  unfolding remove_loop
  remove_loop-keeps zero r ring node h e other found = found
  remove_loop-keeps (suc left) r ring node h e other found =
      let first : r + 0 ≡ r = omega arith in
      remove_loop-keeps left (suc r) (erase ring (point hash stringify node r)) node h e
        (λ i l q.
          let next : r + suc i ≡ suc r + i = omega arith in
          other (suc i) (omega arith) (q ∙ sym (ap (point hash stringify node) next)))
        (entry_for-erase ring (point hash stringify node r) h e
          (λ q. other 0 (omega arith) (q ∙ sym (ap (point hash stringify node) first))) found)

  -- When a node is removed, a key stays where it was if the entry it is found at is none of that
  -- node's points.
  pub get_node-remove_node :
      (spread : ℕ) (ring : List (ℕ × Node)) (node : Node) (key : List ℕ) (e : ℕ × Node)
      → entry_for ring (hash key) ≡ some e
      → ((i : ℕ) → i < spread → e.0 ≢ point hash stringify node i)
      → get_node hash stringify (remove_node hash stringify spread ring node) key
        ≡ get_node hash stringify ring key
  unfolding get_node remove_node
  get_node-remove_node spread ring node key e found other =
      let from_zero : (i : ℕ) → i < spread → e.0 ≢ point hash stringify node (0 + i) = λ i l q.
        let same : 0 + i ≡ i = omega arith in other i l (q ∙ ap (point hash stringify node) same) in
      ap node_of (remove_loop-keeps spread 0 ring node (hash key) e from_zero found ∙ sym found)
