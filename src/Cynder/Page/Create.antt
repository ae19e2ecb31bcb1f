-- ===== src/Cynder/Page/Create.antt =====
-- A new page.
use mavicona.Base.{
  ℕ, ◌+◌, ◌*◌, ◌≤◌, ◌<◌, ◌^◌, ◌≡◌, refl, ap, [], ◌∷◌, arith, true, false, ◌∙◌, inl, some, none, u32,
}
use mavicona.Base.Stdio.{File, empty_file, slice, fwrite, seek, le, c_str}
use mavicona.Base.Stdio.Written.{
  slice_outside, slice-fwrite, size-fwrite, pos-fwrite, size-fwrite_end,
}
use mavicona.Cynder.Layout.{PageHeader, header_size, index_size, header_bytes, header_of}
use mavicona.Cynder.Page.{Page, next_empty, create, find_item}
use mavicona.Cynder.Page.Walk.{done}
use mavicona.Cynder.Page.Sound.{
  IsSound, length-header_bytes, c_str-header_bytes, header_of-header_bytes,
}
use mavicona.Cynder.Page.Grown.{size-write_le}

module _ (stack : ℕ → ℕ) (alloc size : ℕ) (p : Page) where
  abbrev free : ℕ
  free = header_size + index_size * alloc + 4

  abbrev header : PageHeader
  header = record {
    elements = 0;
    first_free = free;
    grow_items = alloc;
    item_size = size;
    flags = 0;
  }

  abbrev first : File
  first = fwrite (header_bytes stack header) empty_file

  abbrev second : File
  second = fwrite (le 4 next_empty) (seek (first.pos + index_size * alloc) first)

  abbrev third : File
  third = fwrite (0 ∷ []) (seek (second.size + u32 (size * alloc)) second)

  abbrev pub created : Page
  created = record p {
    elements = 0;
    first_free = free;
    grow = alloc;
    last_index = header_size;
    item_size = size;
    is_open = true;
    file = third;
  }

  first_pos : first.pos ≡ header_size
  first_pos = rw (pos-fwrite, length-header_bytes)

  first_size : header_size ≤ first.size
  first_size =
      let end = size-fwrite_end (header_bytes stack header) empty_file (omega arith) in
      omega (arith, end, length-header_bytes stack header)

  second_size : (free ≤ second.size) × (first.size ≤ second.size)
  second_size =
      let end = size-write_le next_empty (seek (first.pos + index_size * alloc) first) in
      let more = size-fwrite (le 4 next_empty) (seek (first.pos + index_size * alloc) first) in
      (omega (arith, end, first_pos), more)

  third_header : slice third.at 0 header_size ≡ header_bytes stack header
  third_header =
      let (reach, more) = second_size in
      slice_outside (0 ∷ []) (seek (second.size + u32 (size * alloc)) second) 0 header_size
        (omega (arith, reach)) (inl (omega (arith, reach)))
      ∙ slice_outside (le 4 next_empty) (seek (first.pos + index_size * alloc) first) 0 header_size
          first_size (inl (omega (arith, first_pos)))
      ∙ rw (length-header_bytes stack header) at
          (slice-fwrite (header_bytes stack header) empty_file)

  pub create-created : p.is_open ≡ false → free < 2 ^ 32 → create stack alloc size p ≡ created
  unfolding create
  create-created e h = let small : u32 free ≡ free = omega arith in rw (e, small)

  -- A page that was created is sound and has no items.
  pub create-IsSound :
      p.is_open ≡ false
      → p.page_full ≡ false
      → p.contents ≡ []
      → 2 ≤ alloc
      → free < 2 ^ 32
      → size < 2 ^ 32
      → IsSound (create stack alloc size p) []
  unfolding find_item
  create-IsSound e not_full nothing two room small =
      let (reach, more) = second_size in
      let longer = size-fwrite (0 ∷ []) (seek (second.size + u32 (size * alloc)) second) in
      rw (create-created e room) (record {
        laid_out = record {
          opened = refl;
          not_full = not_full;
          grows = two;
          counted = refl;
          behind = omega arith;
          fits = omega arith;
          in_file = omega (arith, reach, longer);
          elements_small = omega arith;
          free_small = room;
          item_small = small;
          items_apart = λ name item n found.
              let no : none ≡ some (item, n) = simp nothing at found in absurd (cc no);
        };
        marked = ap c_str third_header ∙ c_str-header_bytes stack header;
        header = rw not_full (
            ap header_of third_header
            ∙ header_of-header_bytes stack header (omega arith) room (omega arith) small
                (omega arith));
        walk = done;
      })
