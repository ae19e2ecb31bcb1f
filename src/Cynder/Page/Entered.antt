-- ===== src/Cynder/Page/Entered.antt =====
-- A page after a new item went to its slot: it is sound, the item is there, and the others are where
-- they were.
use mavicona.Base.{
  ℕ, suc, ◌+◌, ◌*◌, ◌%◌, ◌≤◌, ◌<◌, ◌^◌, ◌≡◌, ◌⊎◌, refl, sym, ap, List, [], ◌∷◌, ◌++◌, length, arith,
  ◌∙◌, inl, inr, some, if◌then◌else◌, length-append, Bool-cases,
}
use mavicona.Base.Stdio.{File, slice, fwrite, seek, slice_agree, c_str, same}
use mavicona.Base.Stdio.Written.{slice_outside, slice-fwrite, size-fwrite, size-fwrite_end}
use mavicona.Cynder.Layout.{header_size, index_size, item_bytes, header_of}
use mavicona.Cynder.Page.{Page, find_item, record_item, store_entry}
use mavicona.Cynder.Page.Walk.{Walk}
use mavicona.Cynder.Page.Sound.{
  IsApart, IsLaidOut, IsSound, used, page_header, c_str-header_bytes, header_of-header_bytes,
}
use mavicona.Cynder.Page.Ready.{next_slot, IsReady, written, written-Same, slice-written}
use mavicona.Cynder.Page.Grown.{written-IsLaidOut}
use mavicona.Cynder.Page.Entry.{
  find_item-record_item, length-item_bytes, entered, store_entry-entered,
}

-- What one more item does to a page.
pub record HasEntry (p q : Page) (items : List (List ℕ)) (name text bytes : List ℕ) : Type 0 where
  pub sound : IsSound q (items ++ bytes ∷ [])
  pub listed : q.contents ≡ record_item p.contents name (p.first_free, length text)
  pub grow : q.grow ≡ p.grow
  pub item_size : q.item_size ≡ p.item_size
  pub elements : q.elements ≡ p.elements + 1
  pub first_free : q.first_free ≡ p.first_free + length text
  pub here : slice q.file.at p.first_free (length text) ≡ text
  pub others :
      (n : List ℕ) (item size : ℕ)
      → find_item p.contents n ≡ some (item, size)
      → slice q.file.at item size ≡ slice p.file.at item size

module _ (stack : ℕ → ℕ) (name text : List ℕ) (p : Page) (items : List (List ℕ))
    (ready : IsReady p items) where
  abbrev bytes : List ℕ
  bytes = item_bytes stack name (length text) p.first_free

  abbrev first : File
  first = fwrite bytes (seek (next_slot p) p.file)

  abbrev second : File
  second = fwrite text (seek p.first_free first)

  abbrev last : File
  last = written stack (entered stack name text p)

  first_size : p.file.size ≤ first.size
  first_size = size-fwrite bytes (seek (next_slot p) p.file)

  second_size : first.size ≤ second.size
  second_size = size-fwrite text (seek p.first_free first)

  reaches : p.first_free + length text ≤ second.size
  reaches =
      size-fwrite_end text (seek p.first_free first)
        (omega (arith, first_size, ready.laid_out.in_file))

  -- The header changes nothing behind it.
  last_slice :
      (pos n : ℕ)
      → header_size ≤ pos
      → pos + n ≤ p.first_free + length text
      → slice last.at pos n ≡ slice second.at pos n
  last_slice pos n a b =
      let far = reaches in
      slice_agree _ _ pos n
        (λ q c d. written-Same stack (entered stack name text p) q (omega arith) (omega arith))

  -- What is in front of the free part and apart from the slot stays.
  stays :
      (pos n : ℕ)
      → header_size ≤ pos
      → pos + n ≤ p.first_free
      → (pos + n ≤ next_slot p) ⊎ (next_slot p + index_size ≤ pos)
      → slice last.at pos n ≡ slice p.file.at pos n
  stays pos n a b out =
      let size_1 = first_size in
      let inside = ready.laid_out.in_file in
      last_slice pos n a (omega arith)
      ∙ slice_outside text (seek p.first_free first) pos n (omega arith) (inl b)
      ∙ slice_outside bytes (seek (next_slot p) p.file) pos n (omega arith)
          (rw length-item_bytes out)

  stays_at : (q : ℕ) → header_size ≤ q → q < next_slot p → last.at q ≡ p.file.at q
  unfolding slice
  stays_at q a b =
      let room = ready.room in
      let fits = ready.laid_out.fits in
      let one : last.at q ∷ [] ≡ p.file.at q ∷ [] = stays q 1 a (omega arith) (inl (omega arith)) in
      cc one

  slot_fits : next_slot p + index_size ≤ p.first_free
  slot_fits = omega (arith, ready.room, ready.laid_out.fits)

  in_slot : slice last.at (next_slot p) index_size ≡ bytes
  in_slot =
      let size_1 = first_size in
      let inside = ready.laid_out.in_file in
      let fits = slot_fits in
      let after = ready.laid_out.behind in
      let long = length-item_bytes stack name (length text) p.first_free in
      last_slice (next_slot p) index_size (omega arith) (omega arith)
      ∙ slice_outside text (seek p.first_free first) (next_slot p) index_size (omega arith)
          (inl fits)
      ∙ rw long at (slice-fwrite bytes (seek (next_slot p) p.file))

  in_free : slice last.at p.first_free (length text) ≡ text
  in_free =
      let after = ready.laid_out.behind in
      let fits = ready.laid_out.fits in
      last_slice p.first_free (length text) (omega arith) (omega arith)
      ∙ slice-fwrite text (seek p.first_free first)

  -- An item apart from the last index is apart from the slot.
  stays_apart :
      (item size : ℕ) → IsApart p item size → slice last.at item size ≡ slice p.file.at item size
  stays_apart item size a =
      let room = ready.room in
      stays item size a.behind_header a.written
        (elim a.apart [ inl below ↦ inl (omega arith) | inr above ↦ inr (omega arith) ])

  new-IsApart :
      (n : List ℕ) (item size : ℕ)
      → find_item (record_item p.contents name (p.first_free, length text)) n ≡ some (item, size)
      → IsApart (entered stack name text p) item size
  new-IsApart n item size found =
      let l = ready.laid_out in
      let e : (if same name n then some (p.first_free, length text) else find_item p.contents n)
          ≡ some (item, size) =
        sym (find_item-record_item p.contents name n (p.first_free, length text)) ∙ found in
      elim (Bool-cases (same name n)) [
        | inl hit ↦
            let t : some (p.first_free, length text) ≡ some (item, size) = rw hit at e in
            let a : p.first_free ≡ item = cc t in
            let b : length text ≡ size = cc t in
            record {
              behind_header = omega (arith, l.behind, l.fits);
              written = omega arith;
              apart = inr (omega (arith, l.fits));
            }
        | inr miss ↦
            let t : find_item p.contents n ≡ some (item, size) = rw miss at e in
            let a = l.items_apart n item size t in
            record {
              behind_header = a.behind_header;
              written = omega (arith, a.written);
              apart = a.apart;
            }
      ]

  entered-IsLaidOut :
      p.first_free + length text < 2 ^ 32
      → p.elements + 1 < 2 ^ 16
      → IsLaidOut (entered stack name text p) (length (items ++ bytes ∷ []))
  entered-IsLaidOut room few =
      let l = ready.laid_out in
      record {
        opened = l.opened;
        not_full = l.not_full;
        grows = l.grows;
        counted = omega (arith, length-append items (bytes ∷ []), l.counted);
        behind = l.behind;
        fits = omega (arith, l.fits);
        in_file = reaches;
        elements_small = few;
        free_small = room;
        item_small = l.item_small;
        items_apart = new-IsApart;
      }

  used_next : used (p.elements + 1) p.grow ≡ suc (p.elements % p.grow)
  used_next = let next : p.elements + 1 ≡ suc p.elements = omega arith in rw next

  pub store_entry-HasEntry :
      p.first_free + length text < 2 ^ 32
      → p.elements + 1 < 2 ^ 16
      → p.grow < 2 ^ 32
      → HasEntry p (store_entry stack name text p) items name text bytes
  store_entry-HasEntry room few grow_small =
      let l = ready.laid_out in
      let e = entered stack name text p in
      let walk : Walk last.at p.grow p.last_index (next_slot p + index_size) header_size header_size
          (items ++ slice last.at (next_slot p) index_size ∷ []) =
        ready.extend last stays_at in
      let stop : p.last_index + index_size * used (p.elements + 1) p.grow
          ≡ next_slot p + index_size =
        omega (arith, used_next) in
      let listing : Walk last.at p.grow p.last_index (next_slot p + index_size) header_size
          header_size (items ++ bytes ∷ []) =
        rw in_slot at walk in
      rw (store_entry-entered stack name text p l.opened room few) (record {
        sound = record {
          laid_out =
              written-IsLaidOut stack e (length (items ++ bytes ∷ [])) (entered-IsLaidOut room few);
          marked = ap c_str (slice-written stack e) ∙ c_str-header_bytes stack (page_header e);
          header =
              ap header_of (slice-written stack e)
              ∙ header_of-header_bytes stack (page_header e) few room grow_small l.item_small
                  (rw l.not_full (omega arith));
          walk = rw stop listing;
        };
        listed = refl;
        grow = refl;
        item_size = refl;
        elements = refl;
        first_free = refl;
        here = in_free;
        others = λ n item size found. stays_apart item size (l.items_apart n item size found);
      })
