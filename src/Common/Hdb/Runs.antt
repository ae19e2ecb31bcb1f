-- ===== src/Common/Hdb/Runs.antt =====
-- Removals, and whole sequences of insertions and removals.
use mavicona.Base.{
  ℕ, ◌-◌, ◌≡◌, ◌⊎◌, refl, sym, ap, ◌∙◌, Bool, true, false, Option, none, some, List, [], ◌∷◌, ◌++◌,
  Bool-cases, Option-cases, inl, inr,
}
use mavicona.Base.Int.{ℤ}
use mavicona.Base.Stdio.{same, same-eq}
use mavicona.Common.Linklist.{
  Item, LinkList, not_there, removed, unlink_item, remove_from, find_in, get_item,
}
use mavicona.Common.Hdb.{HashDb, new_hash_db, bucket, insert_key, remove_key, get_item_by_key}
use mavicona.Common.Hdb.Refines.{
  find_all, first, without, find_in-first, unlink_item-none, find_all-without, unlink_item-find_all,
  Represents, new_hash_db-Represents, set-Represents, insert_key-Represents,
}

abbrev pub is_there : Option Item → Bool
is_there none = false
is_there (some item) = true

unlink_item-some :
    (items left : List Item) (key : List ℕ)
    → unlink_item items key ≡ some left
    → is_there (find_in items key) ≡ true
unfolding unlink_item find_in
unlink_item-some [] left key e = absurd (cc e)
unlink_item-some (x ∷ xs) left key e = elim (Bool-cases (same x.key key)) [
  | inl h ↦ rw h
  | inr h ↦ elim (Option-cases (unlink_item xs key)) [
    | inl n ↦ absurd (let no : none ≡ some left = rw (h, n) at e in cc no)
    | inr (rest, n) ↦ rw h (unlink_item-some xs rest key n)
  ]
]

-- A key that is not empty never reaches the head.
remove_from-cases :
    (items : List Item) (count : ℕ) (key : List ℕ)
    → same [] key ≡ false
    → let l : LinkList = record { items = items; count = count } in
      ((remove_from l key ≡ not_there) × (unlink_item items key ≡ none))
      ⊎ ((left : List Item) × (remove_from l key
            ≡ removed (record { items = left; count = count - 1 }))
          × (unlink_item items key ≡ some left))
unfolding remove_from unlink_item
remove_from-cases [] count key h = inl (refl, refl)
remove_from-cases (x ∷ xs) count key h = elim (Option-cases (unlink_item (x ∷ xs) key)) [
  | inl e ↦ inl (rw (h, e), e)
  | inr (left, e) ↦ inr (left, rw (h, e), e)
]

module _ (db : HashDb) (items : List Item) (r : Represents db items) (key : List ℕ) where
  found_same : is_there (find_in (bucket db key).items key) ≡ is_there (find_in items key)
  found_same = ap is_there (
      find_in-first (bucket db key).items key
      ∙ ap first (r.buckets key)
      ∙ sym (find_in-first items key))

  unchanged-Represents : find_all items key ≡ [] → Represents db (without items key)
  unchanged-Represents nothing = record {
    sized = r.sized;
    some_lists = r.some_lists;
    buckets = λ q. r.buckets q ∙ elim (Bool-cases (same key q)) [
      | inl k ↦
          let no : find_all items q ≡ [] = rw (same-eq key q k) at nothing in
          rw (find_all-without items key q, k, no)
      | inr k ↦ rw (find_all-without items key q, k)
    ];
  }

  -- A removal of a key that is not empty: it tells whether there was an item with the key, and takes
  -- the first one off.
  remove_key-Represents :
      same [] key ≡ false
      → (after : HashDb) × (remove_key db key ≡ some (is_there (find_in items key), after))
        × Represents after (without items key)
  unfolding remove_key
  remove_key-Represents h =
      let l = bucket db key in
      elim (remove_from-cases l.items l.count key h) [
        | inl (e, n) ↦
            let nothing : find_all l.items key ≡ [] = unlink_item-none l.items key n in
            let absent : is_there (find_in items key) ≡ false =
              sym found_same ∙ ap is_there (find_in-first l.items key ∙ ap first nothing) in
            (db, rw (remove_key, e, absent), unchanged-Represents (sym (r.buckets key) ∙ nothing))
        | inr (left, e, n) ↦
            let present : is_there (find_in items key) ≡ true =
              sym found_same ∙ unlink_item-some l.items left key n in
            (
              _,
              rw (remove_key, e, present),
              set-Represents db items r key (record { items = left; count = l.count - 1 })
                  (without items key)
                  (λ q before place.
                    let same_list : find_all l.items q ≡ find_all items q = rw place at before in
                    unlink_item-find_all l.items left key q n
                    ∙ rw (same_list, find_all-without items key q))
                  (λ q other. rw (find_all-without items key q, other)),
            )
      ]

-- What is done with a table. An item that is inserted comes with the items that its next pointer, as
-- the caller left it, leads to.
pub data Action : Type 0 where
  insertion : Item → List Item → Action
  removal : List ℕ → Action

abbrev pub act : Action → HashDb → Option HashDb
act (insertion item next) db = some (insert_key db item next)
act (removal key) db = elim (remove_key db key) [ none ↦ none | some (found, after) ↦ some after ]

unfoldable pub act_all : List Action → HashDb → Option HashDb
act_all [] db = some db
act_all (a ∷ actions) db = elim (act a db) [ none ↦ none | some after ↦ act_all actions after ]

-- The same on one list.
unfoldable pub list_all : List Action → List Item → List Item
list_all [] items = items
list_all (insertion item next ∷ actions) items = list_all actions (items ++ item ∷ [])
list_all (removal key ∷ actions) items = list_all actions (without items key)

-- No item to be inserted has a next item, and no key to be removed is empty.
abbrev pub IsUsable : List Action → Type 0
IsUsable [] = Unit
IsUsable (insertion item next ∷ actions) = (next ≡ []) × IsUsable actions
IsUsable (removal key ∷ actions) = (same [] key ≡ false) × IsUsable actions

act_all-Represents :
    (actions : List Action) (db : HashDb) (items : List Item)
    → Represents db items
    → IsUsable actions
    → (after : HashDb) × (act_all actions db ≡ some after)
      × Represents after (list_all actions items)
unfolding act_all list_all
act_all-Represents [] db items r keys = (db, refl, r)
act_all-Represents (insertion item next ∷ actions) db items r (alone, usable) =
    rw (alone, act_all)
      (act_all-Represents actions (insert_key db item []) (items ++ item ∷ [])
        (insert_key-Represents db items r item) usable)
act_all-Represents (removal key ∷ actions) db items r (whole, keys) =
    let (after, e, t) = remove_key-Represents db items r key whole in
    rw (act_all, e) (act_all-Represents actions after (without items key) t keys)

-- A table that was made with any length, after any sequence of insertions of items whose next pointer
-- is null and of removals of keys that are not empty, gives for every key the item that one list
-- gives: items are inserted at its end, a removal takes the first item with its key, and a lookup
-- finds the first item.
pub get_item_by_key-find_in :
    (n : ℤ) (actions : List Action)
    → IsUsable actions
    → (after : HashDb) × (act_all actions (new_hash_db n) ≡ some after)
      × ((key : List ℕ) → get_item_by_key after key ≡ find_in (list_all actions []) key)
unfolding get_item_by_key get_item
get_item_by_key-find_in n actions keys =
    let (after, e, r) =
      act_all-Represents actions (new_hash_db n) [] (new_hash_db-Represents n) keys in
    (
      after,
      e,
      λ key.
          find_in-first (bucket after key).items key
          ∙ ap first (r.buckets key)
          ∙ sym (find_in-first (list_all actions []) key),
    )
