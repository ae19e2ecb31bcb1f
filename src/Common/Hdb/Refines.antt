-- ===== src/Common/Hdb/Refines.antt =====
-- A table answers like one list of all its items.
use native.Mathlib.Nat.{mod-lt}
use mavicona.Base.{
  ℕ, zero, suc, ◌<◌, ◌≡◌, ◌≢◌, refl, sym, ap, ◌∙◌, append-nil, true, false, Option, none, some,
  List, [], ◌∷◌, ◌++◌, ◌==◌, length, replicate, get_or, set, length-set, length-replicate, arith,
  if◌then◌else◌, Bool-cases, Option-cases, inl, inr,
}
use mavicona.Base.Int.{ℤ, pos, negsuc}
use mavicona.Base.Stdio.{same, same-eq}
use mavicona.Common.Linklist.{Item, LinkList, empty_list, insert_item, unlink_item, find_in}
use mavicona.Common.Hdb.{HashDb, hash_of, new_hash_db, bucket, insert_key}

module _ {A : Type 0} where
  get_or-set_same : (xs : List A) (i : ℕ) (v d : A) → i < length xs → get_or (set xs i v) i d ≡ v
  get_or-set_same [] i v d h = absurd (omega arith)
  get_or-set_same (x ∷ xs) zero v d h = refl
  get_or-set_same (x ∷ xs) (suc i) v d h = get_or-set_same xs i v d (omega arith)

  get_or-set_other :
      (xs : List A) (i j : ℕ) (v d : A) → j ≢ i → get_or (set xs i v) j d ≡ get_or xs j d
  get_or-set_other [] i j v d h = refl
  get_or-set_other (x ∷ xs) zero zero v d h = absurd (h refl)
  get_or-set_other (x ∷ xs) zero (suc j) v d h = refl
  get_or-set_other (x ∷ xs) (suc i) zero v d h = refl
  get_or-set_other (x ∷ xs) (suc i) (suc j) v d h = get_or-set_other xs i j v d (λ e. h (ap suc e))

  get_or-replicate : (n i : ℕ) (d : A) → get_or (replicate n d) i d ≡ d
  get_or-replicate zero i d = refl
  get_or-replicate (suc n) zero d = refl
  get_or-replicate (suc n) (suc i) d = get_or-replicate n i d

-- The items with a key, in their order.
unfoldable pub find_all : List Item → List ℕ → List Item
find_all [] key = []
find_all (item ∷ items) key =
    let rest = find_all items key in if same item.key key then item ∷ rest else rest

abbrev pub first : List Item → Option Item
first [] = none
first (item ∷ items) = some item

abbrev pub tail : List Item → List Item
tail [] = []
tail (item ∷ items) = items

pub find_in-first :
    (items : List Item) (key : List ℕ) → find_in items key ≡ first (find_all items key)
unfolding find_in find_all
find_in-first [] key = refl
find_in-first (item ∷ items) key = ground (arith, find_in-first items key)

pub find_all-append :
    (xs ys : List Item) (key : List ℕ)
    → find_all (xs ++ ys) key ≡ find_all xs key ++ find_all ys key
unfolding find_all
find_all-append [] ys key = refl
find_all-append (x ∷ xs) ys key = elim (Bool-cases (same x.key key)) [
  | inl e ↦ rw (e, find_all-append xs ys key)
  | inr e ↦ rw (e, find_all-append xs ys key)
]

-- The list without the first item that has the key.
unfoldable pub without : List Item → List ℕ → List Item
without items key = elim (unlink_item items key) [ none ↦ items | some left ↦ left ]

pub unlink_item-none :
    (items : List Item) (key : List ℕ) → unlink_item items key ≡ none → find_all items key ≡ []
unfolding unlink_item find_all
unlink_item-none [] key e = refl
unlink_item-none (x ∷ xs) key e = elim (Bool-cases (same x.key key)) [
  | inl h ↦ absurd (let no : some xs ≡ none = rw h at e in cc no)
  | inr h ↦ elim (Option-cases (unlink_item xs key)) [
    | inl n ↦ rw h (unlink_item-none xs key n)
    | inr (left, n) ↦ absurd (let no : some (x ∷ left) ≡ none = rw (h, n) at e in cc no)
  ]
]

pub unlink_item-find_all :
    (items left : List Item) (key q : List ℕ)
    → unlink_item items key ≡ some left
    → find_all left q ≡ (if same key q then tail (find_all items q) else find_all items q)
unfolding unlink_item find_all
unlink_item-find_all [] left key q e = absurd (cc e)
unlink_item-find_all (x ∷ xs) left key q e = elim (Bool-cases (same x.key key)) [
  | inl h ↦
      let t : some xs ≡ some left = rw h at e in
      let here : xs ≡ left = cc t in
      elim (Bool-cases (same key q)) [
        | inl k ↦ let hit : same x.key q ≡ true = rw (same-eq key q k) at h in rw (← here, k, hit)
        | inr k ↦
            let miss : same x.key q ≡ false = rw (same-eq x.key key h) k in rw (← here, k, miss)
      ]
  | inr h ↦ elim (Option-cases (unlink_item xs key)) [
    | inl n ↦ absurd (let no : none ≡ some left = rw (h, n) at e in cc no)
    | inr (rest, n) ↦
        let t : some (x ∷ rest) ≡ some left = rw (h, n) at e in
        let here : x ∷ rest ≡ left = cc t in
        let later = unlink_item-find_all xs rest key q n in
        elim (Bool-cases (same key q)) [
          | inl k ↦
              let miss : same x.key q ≡ false = rw (same-eq key q k) at h in
              rw (← here, k, miss) (rw k at later)
          | inr k ↦ elim (Bool-cases (same x.key q)) [
            | inl m ↦ rw (← here, k, m) (ap (λ u. x ∷ u) (rw k at later))
            | inr m ↦ rw (← here, k, m) (rw k at later)
          ]
        ]
  ]
]

pub find_all-without :
    (items : List Item) (key q : List ℕ)
    → find_all (without items key) q
      ≡ (if same key q then tail (find_all items q) else find_all items q)
unfolding without
find_all-without items key q = elim (Option-cases (unlink_item items key)) [
  | inr (left, e) ↦ rw (without, e) (unlink_item-find_all items left key q e)
  | inl e ↦ elim (Bool-cases (same key q)) [
    | inl k ↦
        let none_there : find_all items q ≡ [] =
          rw (same-eq key q k) at (unlink_item-none items key e) in
        rw (without, e, k, none_there)
    | inr k ↦ rw (without, e, k)
  ]
]

insert_item-items :
    (l : LinkList) (item : Item) → (insert_item l item []).items ≡ l.items ++ item ∷ []
unfolding insert_item
insert_item-items l item = at l.items l.count
  where
    at :
        (items : List Item) (count : ℕ)
        → (insert_item (record { items = items; count = count }) item []).items ≡ items ++ item ∷ []
    at [] count = refl
    at (first ∷ rest) count = refl

-- The table has, for each key, the items of the list with that key, in the same order.
pub record Represents (db : HashDb) (items : List Item) : Type 0 where
  pub sized : length db.array ≡ db.size
  pub some_lists : 0 < db.size
  pub buckets : (key : List ℕ) → find_all (bucket db key).items key ≡ find_all items key

pub new_hash_db-Represents : (n : ℤ) → Represents (new_hash_db n) []
unfolding new_hash_db find_all
new_hash_db-Represents (pos zero) = record {
  sized = refl;
  some_lists = omega arith;
  buckets = λ key. ap (λ l. find_all l.items key) (get_or-replicate 13 (hash_of 13 key) empty_list);
}
new_hash_db-Represents (pos (suc n)) = record {
  sized = length-replicate (suc n) empty_list;
  some_lists = omega arith;
  buckets = λ key.
      ap (λ l. find_all l.items key) (get_or-replicate (suc n) (hash_of (suc n) key) empty_list);
}
new_hash_db-Represents (negsuc n) = record {
  sized = refl;
  some_lists = omega arith;
  buckets = λ key. ap (λ l. find_all l.items key) (get_or-replicate 13 (hash_of 13 key) empty_list);
}

module _ (db : HashDb) (items : List Item) (r : Represents db items) where
  hash_of-lt : (key : List ℕ) → hash_of db.size key < length db.array
  unfolding hash_of
  hash_of-lt key = rw r.sized (mod-lt _ r.some_lists)

  -- A new list in the place of a key, which changes the items with that key and no other.
  pub set-Represents :
      (key : List ℕ) (l : LinkList) (new_items : List Item)
      → ((q : List ℕ)
          → find_all (bucket db q).items q ≡ find_all items q
          → hash_of db.size q ≡ hash_of db.size key
          → find_all l.items q ≡ find_all new_items q)
      → ((q : List ℕ) → same key q ≡ false → find_all new_items q ≡ find_all items q)
      → Represents (record db { array = set db.array (hash_of db.size key) l }) new_items
  set-Represents key l new_items here elsewhere = record {
    sized = length-set db.array _ l ∙ r.sized;
    some_lists = r.some_lists;
    buckets = λ q. elim (Bool-cases (hash_of db.size q == hash_of db.size key)) [
      | inl e ↦
          let same_place : hash_of db.size q ≡ hash_of db.size key = ground arith in
          rw
            (
              same_place,
              get_or-set_same db.array (hash_of db.size key) l empty_list (hash_of-lt key),
            )
            (here q (r.buckets q) same_place)
      | inr e ↦
          let apart : hash_of db.size q ≢ hash_of db.size key = λ p. ground arith in
          let other : same key q ≡ false = elim (Bool-cases (same key q)) [
            | inl k ↦ absurd (apart (sym (ap (hash_of db.size) (same-eq key q k))))
            | inr k ↦ k
          ] in
          rw
            (get_or-set_other db.array (hash_of db.size key) (hash_of db.size q) l empty_list apart)
            (r.buckets q ∙ sym (elsewhere q other))
    ];
  }

  -- An item with no next item.
  pub insert_key-Represents :
      (item : Item) → Represents (insert_key db item []) (items ++ item ∷ [])
  unfolding insert_key find_all
  insert_key-Represents item =
      set-Represents item.key (insert_item (bucket db item.key) item []) (items ++ item ∷ [])
        (λ q before place.
          ap (λ l. find_all l q) (insert_item-items (bucket db item.key) item)
          ∙ find_all-append (bucket db item.key).items (item ∷ []) q
          ∙ rw (find_all-append items (item ∷ []) q)
              (ap (λ u. u ++ find_all (item ∷ []) q) (rw place at before)))
        (λ q other. find_all-append items (item ∷ []) q ∙ rw other (append-nil (find_all items q)))
