-- ===== src/Cynder/Layout.antt =====
-- cynder/filepage.cpp: the structures `pageHeader` and `pageIndexItem` as their bytes. The parameter
-- `stack` is what the memory of a local structure holds, byte by byte, before the code writes it.
use mavicona.Base.{
  ℕ, Bool, not, List, [], ◌∷◌, ◌++◌, length, take, drop, get_or, bit_and, bit_or, ◌==◌,
}
use mavicona.Base.Text.{codes}
use mavicona.Base.Stdio.{slice, le, un_le, c_str}

-- The fields of `pageHeader` behind the magic text.
pub record PageHeader : Type 0 where
  pub elements : ℕ
  pub first_free : ℕ
  pub grow_items : ℕ
  pub item_size : ℕ
  pub flags : ℕ

-- The sizes of the two structures.
abbrev pub header_size : ℕ
header_size = 28

abbrev pub index_size : ℕ
index_size = 48

abbrev pub page_magic : List ℕ
page_magic = codes "LFBX01E"

-- The part of a structure at an offset.
abbrev pub part : ℕ → ℕ → List ℕ → List ℕ
part offset n bytes = take n (drop offset bytes)

-- The bytes of `pageHeader`; the two bytes in front of `first_free` are padding.
unfoldable pub header_bytes : (ℕ → ℕ) → PageHeader → List ℕ
header_bytes stack h =
    (page_magic ++ 0 ∷ [])
    ++ le 2 h.elements
    ++ slice stack 10 2
    ++ le 4 h.first_free
    ++ le 4 h.grow_items
    ++ le 4 h.item_size
    ++ le 4 h.flags

unfoldable pub header_of : List ℕ → PageHeader
header_of bytes = record {
  elements = un_le (part 8 2 bytes);
  first_free = un_le (part 12 4 bytes);
  grow_items = un_le (part 16 4 bytes);
  item_size = un_le (part 20 4 bytes);
  flags = un_le (part 24 4 bytes);
}

-- The bytes of `pageIndexItem` after `strcpy` and the assignments of `storeItem`. A name that is too
-- long for its field runs into the fields behind it, which are assigned after it.
unfoldable pub item_bytes : (ℕ → ℕ) → List ℕ → ℕ → ℕ → List ℕ
item_bytes stack name size item =
    let cut = c_str name ++ 0 ∷ [] in
    take 36 (cut ++ slice stack (length cut) 36) ++ le 4 size ++ le 4 item ++ 0 ∷ slice stack 45 3

abbrev pub item_name : List ℕ → List ℕ
item_name bytes = take 36 bytes

abbrev pub item_place : List ℕ → ℕ × ℕ
item_place bytes = (un_le (part 40 4 bytes), un_le (part 36 4 bytes))

abbrev pub item_flags : List ℕ → ℕ
item_flags bytes = un_le (part 44 1 bytes)

abbrev pub deleted : List ℕ → Bool
deleted bytes = not (bit_and (item_flags bytes) 1 == 0)

-- `item.flags |= INDEX_FLAG_DEL`, in the bytes of the item
abbrev pub set_deleted : List ℕ → List ℕ
set_deleted bytes = take 44 bytes ++ bit_or (get_or bytes 44 0) 1 ∷ drop 45 bytes
