-- ===== src/Common/Linklist.antt =====
-- common/linklist.h: a linked list of items behind a head item that has an empty key. The list is
-- its items in order, each with the address that stands for it.
use mavicona.Base.{ℕ, ◌+◌, ◌-◌, Option, none, some, List, [], ◌∷◌, ◌++◌, if◌then◌else◌}
use mavicona.Base.Stdio.{same}

pub record Item : Type 0 where
  pub key : List ℕ
  pub address : ℕ

pub record LinkList : Type 0 where
  pub items : List Item
  pub count : ℕ

abbrev pub empty_list : LinkList
empty_list = record { items = []; count = 0 }

-- `insertItem` of an item whose own next pointer leads to the items of the last argument. An empty
-- list takes them along behind the item; else the item is put at the end and its next pointer is set.
unfoldable pub insert_item : LinkList → Item → List Item → LinkList
insert_item l item next = elim l.items [
  | [] ↦ record { items = item ∷ next; count = l.count + 1 }
  | (first ∷ rest) ↦ record { items = l.items ++ item ∷ []; count = l.count + 1 }
]

-- What `removeItem` does: it finds nothing, it deletes an item, or it deletes the head itself, after
-- which the list is not to be used.
pub data Removal : Type 0 where
  not_there : Removal
  removed : LinkList → Removal
  head_deleted : Removal

-- The loop of `removeItem` behind the head, for the items that are left: the items without the first
-- one that has the key.
unfoldable pub unlink_item : List Item → List ℕ → Option (List Item)
unlink_item [] key = none
unlink_item (item ∷ items) key =
    let rest = unlink_item items key in
    if same item.key key
    then some items
    else elim rest [ none ↦ none | some left ↦ some (item ∷ left) ]

unfoldable pub remove_from : LinkList → List ℕ → Removal
remove_from l key = elim l.items [
  | [] ↦ not_there
  | (first ∷ rest) ↦ if same [] key then head_deleted else elim (unlink_item l.items key) [
    | none ↦ not_there
    | some left ↦ removed (record { items = left; count = l.count - 1 })
  ]
]

-- The loop of `getItem`, which passes over the head.
unfoldable pub find_in : List Item → List ℕ → Option Item
find_in [] key = none
find_in (item ∷ items) key =
    let rest = find_in items key in if same item.key key then some item else rest

unfoldable pub get_item : LinkList → List ℕ → Option Item
get_item l key = find_in l.items key
