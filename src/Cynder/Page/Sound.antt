-- ===== src/Cynder/Page/Sound.antt =====
-- What holds of a page between the calls, and what the writes of one call keep.
use mavicona.Base.{
  ℕ, zero, suc, ◌+◌, ◌*◌, ◌%◌, ◌≤◌, ◌<◌, ◌^◌, ◌≡◌, ◌⊎◌, refl, List, length, true, false,
  if◌then◌else◌, some,
}
use mavicona.Base.Stdio.{File, slice, le, c_str}
use mavicona.Base.Stdio.Written.{un_le-le_2, un_le-le_4}
use mavicona.Cynder.Layout.{
  PageHeader, header_size, index_size, page_magic, header_bytes, header_of,
}
use mavicona.Cynder.Page.{Page, find_item}
use mavicona.Cynder.Page.Walk.{Walk}

abbrev pub page_header : Page → PageHeader
page_header p = record {
  elements = p.elements;
  first_free = p.first_free;
  grow_items = p.grow;
  item_size = p.item_size;
  flags = if p.page_full then 0x10 else 0;
}

-- The bytes of an item are behind the header, in front of the free part, and not in the last index.
pub record IsApart (p : Page) (item size : ℕ) : Type 0 where
  pub behind_header : header_size ≤ item
  pub written : item + size ≤ p.first_free
  pub apart : (item + size ≤ p.last_index) ⊎ (p.last_index + index_size * p.grow + 4 ≤ item)

-- The layout: the last index is in front of the free part, and the items are apart from it.
pub record IsLaidOut (p : Page) (count : ℕ) : Type 0 where
  pub opened : p.is_open ≡ true
  pub not_full : p.page_full ≡ false
  pub grows : 2 ≤ p.grow
  pub counted : count ≡ p.elements
  pub behind : header_size ≤ p.last_index
  pub fits : p.last_index + index_size * p.grow + 4 ≤ p.first_free
  pub in_file : p.first_free ≤ p.file.size
  pub elements_small : p.elements < 2 ^ 16
  pub free_small : p.first_free < 2 ^ 32
  pub item_small : p.item_size < 2 ^ 32
  pub items_apart :
      (name : List ℕ) (item size : ℕ)
      → find_item p.contents name ≡ some (item, size)
      → IsApart p item size

-- The slots taken in the last index.
abbrev pub used : ℕ → ℕ → ℕ
used zero grow = 0
used (suc before) grow = suc (before % grow)

-- The page with the bytes `items` in its slots: its header is that of its fields, and its indexes
-- list the items.
pub record IsSound (p : Page) (items : List (List ℕ)) : Type 0 where
  pub laid_out : IsLaidOut p (length items)
  pub marked : c_str (slice p.file.at 0 header_size) ≡ page_magic
  pub header : header_of (slice p.file.at 0 header_size) ≡ page_header p
  pub walk :
      Walk p.file.at p.grow p.last_index
        (p.last_index + index_size * used p.elements p.grow)
        header_size
        header_size
        items

-- The bytes behind the header and in front of `stop` are the same.
abbrev pub Same : File → File → ℕ → Type 0
Same f g stop = (q : ℕ) → header_size ≤ q → q < stop → g.at q ≡ f.at q

module _ (stack : ℕ → ℕ) where
  pub length-header_bytes : (h : PageHeader) → length (header_bytes stack h) ≡ header_size
  unfolding header_bytes le slice
  length-header_bytes h = refl

  pub c_str-header_bytes : (h : PageHeader) → c_str (header_bytes stack h) ≡ page_magic
  unfolding header_bytes c_str
  c_str-header_bytes h = refl

  pub header_of-header_bytes :
      (h : PageHeader)
      → h.elements < 2 ^ 16
      → h.first_free < 2 ^ 32
      → h.grow_items < 2 ^ 32
      → h.item_size < 2 ^ 32
      → h.flags < 2 ^ 32
      → header_of (header_bytes stack h) ≡ h
  unfolding header_bytes header_of le slice
  header_of-header_bytes h a b c d e = simp (
    un_le-le_2 h.elements a,
    un_le-le_4 h.first_free b,
    un_le-le_4 h.grow_items c,
    un_le-le_4 h.item_size d,
    un_le-le_4 h.flags e,
  )
