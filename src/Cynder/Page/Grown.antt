-- ===== src/Cynder/Page/Grown.antt =====
-- A page whose last index is full, after `growPage`.
use mavicona.Base.{
  ℕ, ◌+◌, ◌*◌, ◌%◌, ◌≤◌, ◌<◌, ◌^◌, ◌≡◌, ◌⊎◌, refl, sym, ap, List, [], ◌∷◌, length, arith, ◌∙◌, inl,
  inr, some,
}
use mavicona.Base.Stdio.{File, slice, fwrite, seek, le, un_le, length-le, slice_agree}
use mavicona.Base.Stdio.Written.{
  fwrite_outside, slice_outside, slice-fwrite, size-fwrite, size-fwrite_some, pos-fwrite,
  un_le-le_4,
}
use mavicona.Cynder.Layout.{header_size, index_size, header_bytes}
use mavicona.Cynder.Page.{Page, next_empty, find_item, grow_page}
use mavicona.Cynder.Page.Walk.{Walk, Walk-agree, Walk-hop}
use mavicona.Cynder.Page.Sound.{IsLaidOut, IsSound, used, page_header}
use mavicona.Cynder.Page.Room.{used-full}
use mavicona.Cynder.Page.Ready.{IsReady, written, written-Same, grown_file, grown, grow_page-grown}

pub size-write_le : (n : ℕ) (f : File) → f.pos + 4 ≤ (fwrite (le 4 n) f).size
unfolding le
size-write_le n f = size-fwrite_some _ _ f

slice-write_le : (n : ℕ) (f : File) → slice (fwrite (le 4 n) f).at f.pos 4 ≡ le 4 n
unfolding le
slice-write_le n f = slice-fwrite (le 4 n) f

-- The room that a page needs to grow.
abbrev pub growth : Page → ℕ
growth p = index_size * p.grow + 4 + p.item_size * p.grow

module _ (p : Page) (count : ℕ) (l : IsLaidOut p count) where
  abbrev end : ℕ
  end = p.last_index + index_size * p.grow

  abbrev start : ℕ
  start = p.first_free + index_size * p.grow

  abbrev first : File
  first = fwrite (le 4 next_empty) (seek start p.file)

  abbrev second : File
  second = fwrite (le 4 p.first_free) (seek end first)

  first_size : start + 4 ≤ first.size
  first_size = size-write_le next_empty (seek start p.file)

  second_size : first.size ≤ second.size
  second_size = size-fwrite (le 4 p.first_free) (seek end first)

  second_pos : second.pos ≡ end + 4
  second_pos = rw (pos-fwrite, length-le)

  -- The zero that extends the file is behind all that is written.
  third_slice :
      (pos n : ℕ) → pos + n ≤ start + 4 → slice (grown_file p).at pos n ≡ slice second.at pos n
  third_slice pos n h =
      let where_ : end + 4 ≡ second.pos = sym second_pos in
      slice_outside (0 ∷ []) (seek (second.pos + (start + 4 + p.item_size * p.grow)) second) pos n
        (omega (arith, first_size, second_size)) (inl (omega (arith, second_pos, l.behind)))

  third_at : (q : ℕ) → q < start + 4 → (grown_file p).at q ≡ second.at q
  third_at q h =
      fwrite_outside (0 ∷ []) (seek (second.pos + (start + 4 + p.item_size * p.grow)) second) q
        (omega (arith, first_size, second_size)) (inl (omega (arith, second_pos)))

  pub grown_file-size : start + 4 ≤ (grown_file p).size
  grown_file-size =
      let more =
        size-fwrite (0 ∷ []) (seek (second.pos + (start + 4 + p.item_size * p.grow)) second) in
      omega (arith, first_size, second_size, more)

  -- What was in the file, but for the pointer behind the last index.
  pub grown_file-at :
      (q : ℕ) → q < p.first_free → (q < end) ⊎ (end + 4 ≤ q) → (grown_file p).at q ≡ p.file.at q
  grown_file-at q h out =
      third_at q (omega arith)
      ∙ fwrite_outside (le 4 p.first_free) (seek end first) q (omega (arith, first_size))
          (rw length-le out)
      ∙ fwrite_outside (le 4 next_empty) (seek start p.file) q (omega (arith, l.in_file))
          (inl (omega arith))

  pub grown_file-pointer : un_le (slice (grown_file p).at end 4) ≡ p.first_free
  grown_file-pointer =
      ap un_le
        (third_slice end 4 (omega (arith, l.fits)) ∙ slice-write_le p.first_free (seek end first))
      ∙ un_le-le_4 p.first_free l.free_small

-- The items are apart from the new index, since they are in front of it.
grown-IsLaidOut :
    (p : Page) (count : ℕ)
    → IsLaidOut p count
    → p.first_free + growth p < 2 ^ 32
    → IsLaidOut (grown p) count
grown-IsLaidOut p count l room = record {
  opened = l.opened;
  not_full = l.not_full;
  grows = l.grows;
  counted = l.counted;
  behind = omega (arith, l.behind, l.fits);
  fits = omega arith;
  in_file = grown_file-size p count l;
  elements_small = l.elements_small;
  free_small = omega arith;
  item_small = l.item_small;
  items_apart = λ name item size found.
      let a = l.items_apart name item size found in
      record {
        behind_header = a.behind_header;
        written = omega (arith, a.written);
        apart = inl a.written;
      };
}

module _ (stack : ℕ → ℕ) where
  pub written-IsLaidOut :
      (p : Page) (count : ℕ)
      → IsLaidOut p count
      → IsLaidOut (record p { file = written stack p }) count
  written-IsLaidOut p count l = record {
    opened = l.opened;
    not_full = l.not_full;
    grows = l.grows;
    counted = l.counted;
    behind = l.behind;
    fits = l.fits;
    in_file =
        omega (arith, l.in_file, size-fwrite (header_bytes stack (page_header p)) (seek 0 p.file));
    elements_small = l.elements_small;
    free_small = l.free_small;
    item_small = l.item_small;
    items_apart = λ name item size found.
        let a = l.items_apart name item size found in
        record { behind_header = a.behind_header; written = a.written; apart = a.apart };
  }

  -- The first slot of the new index follows the last one of the old index.
  pub IsReady-grow_page :
      (p : Page) (items : List (List ℕ))
      → IsSound p items
      → p.elements % p.grow ≡ 0
      → 1 ≤ p.elements
      → p.first_free + growth p < 2 ^ 32
      → IsReady (grow_page stack p) items
  IsReady-grow_page p items s full some_there room =
      let l = s.laid_out in
      let g = grown-IsLaidOut p (length items) l room in
      let all : used p.elements p.grow ≡ p.grow =
        used-full p.elements p.grow l.grows full some_there in
      let slot_zero : p.first_free ≡ p.first_free + index_size * (p.elements % p.grow) =
        omega arith in
      let below : p.last_index + index_size * p.grow + 4 ≤ p.first_free = l.fits in
      let walk : Walk p.file.at p.grow p.last_index (p.last_index + index_size * p.grow) header_size
          header_size items =
        rw all at s.walk in
      let behind = l.behind in
      rw (grow_page-grown stack p l.opened (omega arith)) (record {
        laid_out = written-IsLaidOut (grown p) (length items) g;
        room = omega (arith, l.grows);
        extend = λ f agree.
            let kept : (q : ℕ) → header_size ≤ q → q < p.first_free → f.at q ≡ (grown_file p).at q =
              λ q a b.
                agree q a (omega arith)
                ∙ written-Same stack (grown p) q a
                    (omega (arith, grown_file-size p (length items) l)) in
            let points : un_le (slice f.at (p.last_index + index_size * p.grow) 4) ≡ p.first_free =
              ap un_le (
                slice_agree _ _ (p.last_index + index_size * p.grow) 4
                  (λ q a b. kept q (omega arith) (omega arith)))
              ∙ grown_file-pointer p (length items) l in
            rw (← slot_zero) (
              Walk-hop p.first_free
                (Walk-agree f.at walk (λ q a b. sym (
                  kept q a (omega arith)
                  ∙ grown_file-at p (length items) l q (omega arith) (inl b))))
                refl points (omega arith));
      })

  -- The bytes of the items stay where the page grows.
  pub grow_page-others :
      (p : Page) (items : List (List ℕ))
      → IsSound p items
      → p.first_free + growth p < 2 ^ 32
      → (name : List ℕ) (item size : ℕ) → find_item p.contents name ≡ some (item, size)
      → slice (grow_page stack p).file.at item size ≡ slice p.file.at item size
  grow_page-others p items s room name item size found =
      let l = s.laid_out in
      let a = l.items_apart name item size found in
      let behind = a.behind_header in
      let inside = a.written in
      let long = grown_file-size p (length items) l in
      rw (grow_page-grown stack p l.opened (omega arith)) (
        slice_agree _ _ item size (λ q c d.
          written-Same stack (grown p) q (omega arith) (omega arith)
          ∙ grown_file-at p (length items) l q (omega arith)
              (elim a.apart [ inl below ↦ inl (omega arith) | inr above ↦ inr (omega arith) ])))
