-- ===== src/Cynder/Page/Store.antt =====
-- `storeItem` and `retrieveItem` on a sound page.
use mavicona.Base.{
  ℕ, ◌+◌, ◌-◌, ◌*◌, ◌%◌, ◌≤◌, ◌<◌, ◌^◌, ◌≡◌, ◌≢◌, sym, ap, List, [], ◌∷◌, ◌++◌, length, arith, true,
  false, ◌∙◌, inl, inr, some, none, if◌then◌else◌, Bool-cases, ltb, ◌==◌, min, ◌&&◌,
  length-replicate, replicate, Option-cases,
}
use mavicona.Base.Stdio.{slice, fread, length-slice, same}
use mavicona.Cynder.Layout.{index_size, item_bytes}
use mavicona.Cynder.Page.{
  Page, find_item, record_item, store_entry, store_item, grow_page, retrieve_item,
}
use mavicona.Cynder.Page.Walk.{overlay_all}
use mavicona.Cynder.Page.Sound.{IsLaidOut, IsSound}
use mavicona.Cynder.Page.Room.{used-room, full_index}
use mavicona.Cynder.Page.Ready.{IsReady-here, grow_page-grown}
use mavicona.Cynder.Page.Grown.{growth, IsReady-grow_page, grow_page-others}
use mavicona.Cynder.Page.Entry.{find_item-record_item}
use mavicona.Base.Stdio.{same_refl, same-eq}
use mavicona.Cynder.Page.Entered.{store_entry-HasEntry}

-- What one more item does to a page, at an offset in its free part.
pub record HasStored (stack : ℕ → ℕ) (p q : Page) (items : List (List ℕ)) (name text : List ℕ)
    : Type 0 where
  pub offset : ℕ
  pub sound : IsSound q (items ++ item_bytes stack name (length text) offset ∷ [])
  pub listed : q.contents ≡ record_item p.contents name (offset, length text)
  pub grow : q.grow ≡ p.grow
  pub item_size : q.item_size ≡ p.item_size
  pub first_free : q.first_free ≤ p.first_free + growth p + length text
  pub in_free : offset + length text ≤ q.first_free
  pub elements : q.elements ≡ p.elements + 1
  pub here : slice q.file.at offset (length text) ≡ text
  pub others :
      (n : List ℕ) (item size : ℕ)
      → find_item p.contents n ≡ some (item, size)
      → slice q.file.at item size ≡ slice p.file.at item size

module _ (stack : ℕ → ℕ) where
  store_item-entry :
      (name text : List ℕ) (p : Page)
      → p.is_open ≡ true
      → length name ≤ 40
      → store_item stack name text p
        ≡ store_entry stack name text
            (if p.elements % p.grow == 0 && ltb 1 p.elements then grow_page stack p else p)
  unfolding store_item
  store_item-entry name text p e h =
      let fits : ltb 40 (length name) ≡ false = ground arith in rw (e, fits)

  -- An item with a name that fits is stored: the page stays sound with one slot more, the new item
  -- has its bytes, and the bytes of every other item are what they were.
  pub store_item-HasStored :
      (name text : List ℕ) (p : Page) (items : List (List ℕ))
      → IsSound p items
      → length name ≤ 40
      → p.first_free + growth p + length text < 2 ^ 32
      → p.elements + 1 < 2 ^ 16
      → p.grow < 2 ^ 32
      → HasStored stack p (store_item stack name text p) items name text
  store_item-HasStored name text p items s short room few grow_small =
      let l = s.laid_out in
      elim (Bool-cases (p.elements % p.grow == 0 && ltb 1 p.elements)) [
        | inl e ↦
            let (zero_left, some_there) = full_index p.elements p.grow e in
            let g = grow_page-grown stack p l.opened (omega arith) in
            let same_contents : (grow_page stack p).contents ≡ p.contents =
              ap (λ r. r.contents) g in
            let same_grow : (grow_page stack p).grow ≡ p.grow = ap (λ r. r.grow) g in
            let same_elements : (grow_page stack p).elements ≡ p.elements =
              ap (λ r. r.elements) g in
            let first : (grow_page stack p).first_free ≡ p.first_free + index_size * p.grow + 4 =
              ap (λ r. r.first_free) g in
            let h =
              store_entry-HasEntry stack name text (grow_page stack p) items
                (IsReady-grow_page stack p items s zero_left some_there (omega arith)) (omega arith)
                (omega arith) (omega arith) in
            rw (store_item-entry name text p l.opened short, e)
              (record {
                offset = (grow_page stack p).first_free;
                sound = h.sound;
                listed =
                    h.listed
                    ∙ ap (λ c. record_item c name ((grow_page stack p).first_free, length text))
                        same_contents;
                grow = h.grow ∙ same_grow;
                item_size = h.item_size ∙ ap (λ r. r.item_size) g;
                first_free = omega (arith, h.first_free);
                in_free = omega (arith, h.first_free);
                elements = omega (arith, h.elements);
                here = h.here;
                others = λ n item size found.
                    h.others n item size (ap (λ c. find_item c n) same_contents ∙ found)
                    ∙ grow_page-others stack p items s (omega arith) n item size found;
              })
        | inr e ↦
            let (taken, below) = used-room p.elements p.grow l.grows e in
            let h =
              store_entry-HasEntry stack name text p items (IsReady-here p items s taken below)
                (omega arith) few grow_small in
            rw (store_item-entry name text p l.opened short, e)
              (record {
                offset = p.first_free;
                sound = h.sound;
                listed = h.listed;
                grow = h.grow;
                item_size = h.item_size;
                first_free = omega (arith, h.first_free);
                in_free = omega (arith, h.first_free);
                elements = h.elements;
                here = h.here;
                others = h.others;
              })
      ]

-- What `retrieveItem` gives for an item of a page: the bytes at its place.
pub retrieve_item-place :
    (name : List ℕ) (p : Page) (count item size : ℕ)
    → IsLaidOut p count
    → find_item p.contents name ≡ some (item, size)
    → (retrieve_item name p).0 ≡ some (slice p.file.at item size)
unfolding retrieve_item fread
retrieve_item-place name p count item size l found =
    let a = l.items_apart name item size found in
    let all : min size (p.file.size - item) ≡ size = omega (arith, a.written, l.in_file) in
    let whole =
      overlay_all (slice p.file.at item size) (replicate size 0)
        (omega (arith, length-slice p.file.at item size, length-replicate {A = ℕ} size 0)) in
    rw (l.opened, found, all, whole)

pub retrieve_item-none :
    (name : List ℕ) (p : Page)
    → p.is_open ≡ true
    → find_item p.contents name ≡ none
    → (retrieve_item name p).0 ≡ none
unfolding retrieve_item
retrieve_item-none name p e found = rw (e, found)

module _ (stack : ℕ → ℕ) (name text : List ℕ) (p : Page) (items : List (List ℕ)) where
  -- A stored item is retrieved with its bytes; every other name gives what it gave before.
  pub retrieve_item-store_item :
      (s : IsSound p items)
      → length name ≤ 40
      → p.first_free + growth p + length text < 2 ^ 32
      → p.elements + 1 < 2 ^ 16
      → p.grow < 2 ^ 32
      → ((retrieve_item name (store_item stack name text p)).0 ≡ some text)
        × ((m : List ℕ)
            → m ≢ name
            → (retrieve_item m (store_item stack name text p)).0 ≡ (retrieve_item m p).0)
  retrieve_item-store_item s short room few grow_small =
      let h = store_item-HasStored stack name text p items s short room few grow_small in
      let q = store_item stack name text p in
      let l = s.laid_out in
      let k = h.sound.laid_out in
      let find_in : (m : List ℕ)
          → find_item q.contents m
            ≡ (if same name m then some (h.offset, length text) else find_item p.contents m) =
        λ m.
          ap (λ c. find_item c m) h.listed
          ∙ find_item-record_item p.contents name m (h.offset, length text) in
      (
        retrieve_item-place name q _ h.offset (length text) k (rw (find_in name, same_refl name))
            ∙ ap some h.here,
        λ m apart.
            let other : same name m ≡ false = elim (Bool-cases (same name m)) [
              | inl e ↦ absurd (apart (sym (same-eq name m e)))
              | inr e ↦ e
            ] in
            let kept : find_item q.contents m ≡ find_item p.contents m = rw (find_in m, other) in
            elim (Option-cases (find_item p.contents m)) [
              | inl e ↦
                  retrieve_item-none m q k.opened (kept ∙ e)
                  ∙ sym (retrieve_item-none m p l.opened e)
              | inr ((item, size), e) ↦
                  retrieve_item-place m q _ item size k (kept ∙ e)
                  ∙ ap some (h.others m item size e)
                  ∙ sym (retrieve_item-place m p _ item size l e)
            ],
      )
