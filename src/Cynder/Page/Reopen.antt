-- ===== src/Cynder/Page/Reopen.antt =====
-- `open` on the file of a sound page.
use mavicona.Base.{
  ℕ, ◌+◌, ◌-◌, ◌*◌, ◌≤◌, ◌<◌, ◌^◌, ◌≡◌, refl, List, [], ◌∷◌, ◌++◌, length, arith, true, false,
  if◌then◌else◌, min, length-append, replicate,
}
use mavicona.Base.Stdio.{File, slice, fread, seek, overlay, length-slice, c_str, same}
use mavicona.Cynder.Layout.{header_size, index_size, page_magic, deleted, item_name, item_place}
use mavicona.Cynder.Page.{Page, record_item, open_loop, open_page}
use mavicona.Cynder.Page.Walk.{
  Walk, Walk-le, done, slot, hop, overlay_all, next_index-slot, next_index-hop,
}
use mavicona.Cynder.Page.Sound.{IsSound, used}
use mavicona.Cynder.Page.Room.{used-le}
use mavicona.Base.Stdio.{same_refl}

-- The entries that a list of slots stands for: deleted items have none.
unfoldable pub list_items : List (List ℕ × (ℕ × ℕ)) → List (List ℕ) → List (List ℕ × (ℕ × ℕ))
list_items contents [] = contents
list_items contents (item ∷ items) =
    list_items
      (if deleted item then contents else record_item contents (item_name item) (item_place item))
      items

pub list_items-append :
    (xs ys : List (List ℕ)) (contents : List (List ℕ × (ℕ × ℕ)))
    → list_items contents (xs ++ ys) ≡ list_items (list_items contents xs) ys
unfolding list_items
list_items-append [] ys contents = refl
list_items-append (x ∷ xs) ys contents = list_items-append xs ys _

pub fread-slot :
    (n : ℕ) (f : File) (pos : ℕ)
    → pos + n ≤ f.size
    → fread n (seek pos f) ≡ (slice f.at pos n, seek (pos + n) f)
unfolding fread
fread-slot n f pos h = let all : min n (f.size - pos) ≡ n = omega arith in rw all

module _ (stack : ℕ → ℕ) (f : File) (r : Page) where
  -- The page in the loop, at the position `pos` with the index at `base`.
  abbrev pub turn : ℕ → ℕ → List (List ℕ × (ℕ × ℕ)) → Page
  turn base pos contents = record r { last_index = base; file = seek pos f; contents = contents }

  read_whole :
      (pos : ℕ) (old : List ℕ)
      → length old ≤ index_size
      → overlay (slice f.at pos index_size) old ≡ slice f.at pos index_size
  read_whole pos old h = overlay_all (slice f.at pos index_size) old (rw length-slice h)

  -- The loop reads the slots of the walk and ends where the walk ends.
  pub open_loop-Walk :
      {grow last stop : ℕ} {base pos : ℕ} {items : List (List ℕ)}
      (contents : List (List ℕ × (ℕ × ℕ)))
      → Walk f.at grow last stop base pos items
      → stop ≤ f.size
      → stop < 2 ^ 32
      → open_loop stack (length items) grow (turn base pos contents)
        ≡ turn last stop (list_items contents items)
  unfolding open_loop list_items
  open_loop-Walk contents done inside small = refl
  open_loop-Walk {grow = grow} {base = base} {pos = pos} contents (slot apart rest) inside small =
      let far = Walk-le rest in
      let long : length (slice stack 0 40 ++ replicate 8 0) ≤ index_size =
        omega (arith, length-append (slice stack 0 40) (replicate 8 0), length-slice stack 0 40) in
      rw
        (
          open_loop,
          next_index-slot base grow (seek pos f) (omega arith) apart,
          fread-slot index_size f pos (omega arith),
          read_whole pos (slice stack 0 40 ++ replicate 8 0) long,
        )
        (open_loop-Walk _ rest inside small)
  open_loop-Walk {grow = grow} {base = base} {pos = pos} contents
        (hop {next = next} end points behind rest) inside small =
      let far = Walk-le rest in
      let long : length (slice stack 0 40 ++ replicate 8 0) ≤ index_size =
        omega (arith, length-append (slice stack 0 40) (replicate 8 0), length-slice stack 0 40) in
      rw
        (
          open_loop,
          next_index-hop base grow (seek pos f) (omega arith) (omega arith) end,
          points,
          fread-slot index_size f next (omega arith),
          read_whole next (slice stack 0 40 ++ replicate 8 0) long,
        )
        (open_loop-Walk _ rest inside small)

-- `open` on a page object that has just been made.
pub record IsFresh (r : Page) : Type 0 where
  pub closed : r.is_open ≡ false
  pub not_full : r.page_full ≡ false
  pub nothing : r.contents ≡ []

-- The slots that are taken end in front of the free part.
pub stop_below :
    (p : Page) (items : List (List ℕ))
    → IsSound p items
    → p.last_index + index_size * used p.elements p.grow + 4 ≤ p.first_free
stop_below p items s =
    let l = s.laid_out in omega (arith, l.fits, used-le p.elements p.grow l.grows)

module _ (stack : ℕ → ℕ) (p r : Page) (items : List (List ℕ)) (s : IsSound p items)
    (fresh : IsFresh r) where
  abbrev stop : ℕ
  stop = p.last_index + index_size * used p.elements p.grow

  abbrev bytes : List ℕ
  bytes = slice p.file.at 0 header_size

  abbrev blank : List ℕ
  blank = slice stack 0 8 ++ replicate 20 0

  whole_header : overlay bytes blank ≡ bytes
  whole_header = overlay_all bytes blank (
      rw length-slice
        (omega (arith, length-append (slice stack 0 8) (replicate 20 0), length-slice stack 0 8)))

  abbrev pub opened : Page
  opened = record r {
    elements = p.elements;
    first_free = p.first_free;
    grow = p.grow;
    item_size = p.item_size;
    is_open = true;
    last_index = p.last_index;
    file = seek stop p.file;
    contents = list_items [] items;
  }

  pub open_page-opened : open_page stack (record r { file = p.file }) ≡ opened
  unfolding open_page
  open_page-opened =
      let l = s.laid_out in
      let inside : 0 + header_size ≤ p.file.size = omega (arith, l.in_file, l.behind, l.fits) in
      let magic_there : same (c_str bytes) page_magic ≡ true = rw s.marked (same_refl page_magic) in
      let walked =
        open_loop-Walk stack p.file (record r { is_open = true }) r.contents s.walk
          (omega (arith, stop_below p items s, l.in_file))
          (omega (arith, stop_below p items s, l.free_small)) in
      let loop = rw l.counted at walked in
      rw
        (
          fread-slot header_size p.file 0 inside,
          whole_header,
          s.header,
          l.not_full,
          fresh.closed,
          magic_there,
        )
        (rw (loop, fresh.nothing))
