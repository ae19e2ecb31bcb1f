-- ===== src/Common/Hdb.antt =====
-- common/hdb.h: a table of linked lists, in which a key's place is computed from its characters. The
-- file that the constructor opens is not read or written afterwards, and is left out.
pub mod Refines
pub mod Runs
mod Tests
use mavicona.Base.{
  ℕ, zero, suc, ◌+◌, ◌-◌, ◌*◌, ◌%◌, ◌^◌, Bool, true, false, Option, none, some, List, [], ◌∷◌,
  length, replicate, get_or, set, ltb, u64, if◌then◌else◌,
}
use mavicona.Base.Int.{ℤ, pos, negsuc}
use mavicona.Common.Linklist.{
  Item, LinkList, empty_list, insert_item, Removal, not_there, removed, head_deleted, remove_from,
  get_item,
}

pub record HashDb : Type 0 where
  pub array : List LinkList
  pub size : ℕ

-- A `char` as a signed number, in 64 bits.
abbrev pub sign_extended : ℕ → ℕ
sign_extended c = if ltb c 128 then c else c + 2 ^ 64 - 256

unfoldable pub key_sum : List ℕ → ℕ
key_sum [] = 0
key_sum (c ∷ key) = u64 (sign_extended c + key_sum key)

unfoldable pub hash_of : ℕ → List ℕ → ℕ
hash_of size key = u64 (key_sum key * length key) % size

-- The constructor; a length that is not positive becomes 13.
unfoldable pub new_hash_db : ℤ → HashDb
new_hash_db (pos zero) = record { array = replicate 13 empty_list; size = 13 }
new_hash_db (pos (suc n)) = record { array = replicate (suc n) empty_list; size = suc n }
new_hash_db (negsuc n) = record { array = replicate 13 empty_list; size = 13 }

abbrev pub bucket : HashDb → List ℕ → LinkList
bucket db key = get_or db.array (hash_of db.size key) empty_list

unfoldable pub insert_key : HashDb → Item → List Item → HashDb
insert_key db item next =
    let index = hash_of db.size item.key in
    record db { array = set db.array index (insert_item (bucket db item.key) item next) }

-- `remove`: whether it found the key, and the table; `none` is a deleted head.
unfoldable pub remove_key : HashDb → List ℕ → Option (Bool × HashDb)
remove_key db key = elim (remove_from (bucket db key) key) [
  | not_there ↦ some (false, db)
  | removed l ↦ some (true, record db { array = set db.array (hash_of db.size key) l })
  | head_deleted ↦ none
]

unfoldable pub get_item_by_key : HashDb → List ℕ → Option Item
get_item_by_key db key = get_item (bucket db key) key
