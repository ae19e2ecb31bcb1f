-- ===== src/Common/Hdb/Tests.antt =====
-- A table of two lists with three items, two of them with one key.
use mavicona.Base.{◌≡◌, refl, none, some, List, [], ◌∷◌, ℕ}
use mavicona.Base.Text.{codes}
use mavicona.Base.Int.{pos}
use mavicona.Base.Stdio.{same}
use mavicona.Common.Linklist.{Item, empty_list, find_in, remove_from, insert_item}
use mavicona.Common.Hdb.{
  HashDb, new_hash_db, hash_of, key_sum, remove_key, insert_key, get_item_by_key,
}
use mavicona.Common.Hdb.Runs.{
  Action, insertion, removal, act_all, list_all, IsUsable, get_item_by_key-find_in,
}

abbrev first_item : Item
first_item = record { key = codes "a"; address = 1 }

abbrev second_item : Item
second_item = record { key = codes "b"; address = 2 }

abbrev third_item : Item
third_item = record { key = codes "a"; address = 3 }

abbrev actions : List Action
actions =
    insertion first_item []
    ∷ insertion second_item []
    ∷ insertion third_item []
    ∷ removal (codes "a")
    ∷ []

actions-IsUsable : IsUsable actions
unfolding same
actions-IsUsable = (refl, (refl, (refl, (refl, tt))))

get_item_by_key-find_in_example :
    (after : HashDb) × (act_all actions (new_hash_db (pos 2)) ≡ some after)
    × ((key : List ℕ) → get_item_by_key after key ≡ find_in (list_all actions []) key)
get_item_by_key-find_in_example = get_item_by_key-find_in (pos 2) actions actions-IsUsable

-- An empty key takes the head of its list away, if the list has an item.
empty_key : remove_key (insert_key (new_hash_db (pos 1)) first_item []) [] ≡ none
unfolding remove_key remove_from insert_key insert_item new_hash_db hash_of key_sum same
empty_key = refl

-- The first item of a list keeps the next pointer that it came with, and no later one does.
next_pointers :
    ((insert_item empty_list first_item (third_item ∷ [])).items ≡ first_item ∷ third_item ∷ [])
    × ((insert_item
          (record { items = first_item ∷ []; count = 1 })
          second_item
          (third_item ∷ [])).items
        ≡ first_item ∷ second_item ∷ [])
unfolding insert_item
next_pointers = (refl, refl)
