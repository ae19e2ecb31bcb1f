-- ===== src/Cynder/Page.antt =====
-- cynder/filepage.cpp and filepage.h: the file pages in which a storage node keeps its items. A page
-- is a file with a header, an index of slots for items, and the data of the items; when the index is
-- full, the page grows by a further index, to which the last one points.
--
-- The parameter `stack` is what the memory of a local structure holds, byte by byte, before the code
-- writes it.
pub mod Walk
pub mod Sound
pub mod Room
pub mod Ready
pub mod Grown
pub mod Entry
pub mod Entered
pub mod Store
pub mod Create
pub mod Reopen
pub mod Names
pub mod Filled
pub mod Life
pub mod Remove
pub mod Removed
mod Tests
use mavicona.Base.{
  ℕ, zero, suc, ◌+◌, ◌-◌, ◌*◌, ◌%◌, Bool, true, false, not, ◌&&◌, Option, none, some, List, [], ◌∷◌,
  ◌++◌, length, take, drop, replicate, get_or, u16, u32, bit_and, bit_or, ltb, ◌==◌, if◌then◌else◌,
}
use mavicona.Cynder.Layout.{
  PageHeader, deleted, header_bytes, header_of, header_size, index_size, item_bytes, item_flags,
  item_name, item_place, page_magic, part, set_deleted,
}
use mavicona.Base.Text.{codes}
use mavicona.Base.Stdio.{
  File, empty_file, seek, slice, fread, fwrite, overlay, le, un_le, c_str, same,
}

-- `m_File` names `file` throughout. `is_open` is the test that `m_pFile` is set.
pub record Page : Type 0 where
  pub elements : ℕ
  pub first_free : ℕ
  pub grow : ℕ
  pub last_index : ℕ
  pub item_size : ℕ
  pub is_open : Bool
  pub file : File
  pub contents : List (List ℕ × (ℕ × ℕ))
  pub page_full : Bool

abbrev pub next_empty : ℕ
next_empty = 0x11

-- `contents` as its entries: an assignment replaces the entry of the name.
unfoldable pub record_item : List (List ℕ × (ℕ × ℕ)) → List ℕ → ℕ × ℕ → List (List ℕ × (ℕ × ℕ))
record_item [] name place = (name, place) ∷ []
record_item ((n, p) ∷ contents) name place =
    let rest = record_item contents name place in
    if same n name then (name, place) ∷ contents else (n, p) ∷ rest

unfoldable pub find_item : List (List ℕ × (ℕ × ℕ)) → List ℕ → Option (ℕ × ℕ)
find_item [] name = none
find_item ((n, p) ∷ contents) name =
    let rest = find_item contents name in if same n name then some p else rest

-- The move to the next index, in the loops of `open` and `removeItem`: at the end of an index, the
-- pointer behind it is read and followed.
unfoldable pub next_index : ℕ → ℕ → File → ℕ × File
next_index pointer grow f =
    let (got, f_1) = fread 4 f in
    let next = un_le (overlay got (le 4 pointer)) in
    if pointer + index_size * grow == u32 f.pos then (next, seek next f_1) else (pointer, f)

-- `shouldClose`: the sum is one of unsigned words, and `UINT_MAX` is the largest word.
unfoldable pub should_close : Page → Page
should_close p =
    if p.is_open && ltb 0xffffffff (u32 (p.first_free + p.item_size))
    then record p { page_full = true }
    else p

module _ (stack : ℕ → ℕ) where
  unfoldable pub write_header : Page → Page
  write_header p =
      let flags = if p.page_full then 0x10 else 0 in
      let h : PageHeader = record {
        elements = p.elements;
        first_free = p.first_free;
        grow_items = p.grow;
        item_size = p.item_size;
        flags = flags;
      } in
      if p.is_open then record p { file = fwrite (header_bytes stack h) (seek 0 p.file) } else p

  unfoldable pub create : ℕ → ℕ → Page → Page
  create alloc size p =
      let first_free = u32 (header_size + index_size * alloc + 4) in
      let h : PageHeader = record {
        elements = 0;
        first_free = first_free;
        grow_items = alloc;
        item_size = size;
        flags = 0;
      } in
      let f_1 = fwrite (header_bytes stack h) empty_file in
      let f_2 = fwrite (le 4 next_empty) (seek (f_1.pos + index_size * alloc) f_1) in
      let f_3 = fwrite (0 ∷ []) (seek (f_2.size + u32 (size * alloc)) f_2) in
      if p.is_open then p else record p {
        elements = 0;
        first_free = first_free;
        grow = alloc;
        last_index = header_size;
        item_size = size;
        is_open = true;
        file = f_3;
      }

  -- The loop of `open`, for `left` more items.
  unfoldable pub open_loop : ℕ → ℕ → Page → Page
  open_loop zero grow p = p
  open_loop (suc left) grow p =
      let (last_index, f_1) = next_index p.last_index grow p.file in
      let (got, f_2) = fread index_size f_1 in
      let item = overlay got (slice stack 0 40 ++ replicate 8 0) in
      let contents =
        if deleted item
        then p.contents
        else record_item p.contents (item_name item) (item_place item) in
      open_loop left grow (record p { last_index = last_index; file = f_2; contents = contents })

  -- `open`; the header of a file that is too short keeps the values it was made with.
  unfoldable pub open_page : Page → Page
  open_page p =
      let (got, f_1) = fread header_size (seek 0 p.file) in
      let bytes = overlay got (slice stack 0 8 ++ replicate 20 0) in
      let h = header_of bytes in
      let full = if bit_and h.flags 0x10 == 0 then p.page_full else true in
      let p_1 = record p { is_open = true; file = f_1 } in
      let p_2 = record p_1 { page_full = full; last_index = header_size } in
      let p_3 = open_loop h.elements h.grow_items p_2 in
      if p.is_open then p else if not (same (c_str bytes) page_magic) then p_1 else record p_3 {
        elements = h.elements;
        first_free = h.first_free;
        grow = h.grow_items;
        item_size = h.item_size;
      }

  -- The constructor; `file_exist` says whether there is a file of the name.
  unfoldable pub new_filepage : Bool → Page → Page
  new_filepage file_exist p = if file_exist then open_page p else create 16 (8 * 1024 * 1024) p

  unfoldable pub grow_page : Page → Page
  grow_page p =
      let new_index = p.first_free in
      let first_free_1 = u32 (p.first_free + index_size * p.grow) in
      let f_1 = fwrite (le 4 next_empty) (seek first_free_1 p.file) in
      let first_free_2 = u32 (first_free_1 + 4) in
      let f_2 = fwrite (le 4 new_index) (seek (p.last_index + index_size * p.grow) f_1) in
      let f_3 = fwrite (0 ∷ []) (seek (f_2.pos + u32 (first_free_2 + p.item_size * p.grow)) f_2) in
      write_header (record p { first_free = first_free_2; last_index = new_index; file = f_3 })

  -- `storeItem` once the page has grown where it has to.
  unfoldable pub store_entry : List ℕ → List ℕ → Page → Page
  store_entry name text p =
      let namepos = p.last_index + index_size * (p.elements % p.grow) in
      let item = p.first_free in
      let size = u32 (length text) in
      let f_1 = fwrite (item_bytes stack name size item) (seek namepos p.file) in
      let f_2 = fwrite text (seek p.first_free f_1) in
      write_header (
        should_close (record p {
          first_free = u32 (p.first_free + length text);
          contents = record_item p.contents name (item, size);
          elements = u16 (p.elements + 1);
          file = f_2;
        }))

  unfoldable pub store_item : List ℕ → List ℕ → Page → Page
  store_item name text p =
      let index_full = p.elements % p.grow == 0 && ltb 1 p.elements in
      if not p.is_open
      then p
      else if ltb 40 (length name)
      then p
      else store_entry name text (if index_full then grow_page p else p)

-- `retrieveItem`, and the page after it; the buffer has zeros where the file has no bytes.
unfoldable pub retrieve_item : List ℕ → Page → Option (List ℕ) × Page
retrieve_item name p = if not p.is_open then (none, p) else elim (find_item p.contents name) [
  | none ↦ (none, p)
  | some (item, size) ↦
      let (got, f) = fread size (seek item p.file) in
      (some (overlay got (replicate size 0)), record p { file = f })
]

module _ (stack : ℕ → ℕ) where
  -- The loop of `removeItem`, for `left` more items. `strcmp` sees the name of an item and, if the
  -- name has no NUL, the fields behind it.
  unfoldable pub remove_loop_page : ℕ → ℕ → List ℕ → ℕ → File → File
  remove_loop_page zero grow name pointer f = f
  remove_loop_page (suc left) grow name pointer f =
      let (pointer_1, f_1) = next_index pointer grow f in
      let (got, f_2) = fread index_size f_1 in
      let item = overlay got (slice stack 0 40 ++ replicate 8 0) in
      let f_3 =
        if same (c_str item) (c_str name)
        then fwrite (set_deleted item) (seek (f_2.pos - index_size) f_2)
        else f_2 in
      remove_loop_page left grow name pointer_1 f_3

  unfoldable pub remove_item : List ℕ → Page → Page
  remove_item name p = if not p.is_open then p else elim (find_item p.contents name) [
    | none ↦ p
    | some place ↦ record p {
      file = remove_loop_page p.elements p.grow name header_size (seek header_size p.file);
    }
  ]

  -- The destructor, after which the file is what it has written.
  unfoldable pub close_page : Page → Page
  close_page p = record (write_header stack p) { is_open = false }
