-- ===== src/Cynder/Page/Entry.antt =====
-- A new item: where its bytes and those of its slot are afterwards, and what stays.
use mavicona.Base.{
  ℕ, ◌+◌, ◌%◌, ◌<◌, ◌^◌, ◌≡◌, refl, List, [], ◌∷◌, length, arith, true, false, u32, inl, inr, some,
  if◌then◌else◌, ltb, length-append, length-take, Bool-cases,
}
use mavicona.Base.Stdio.{same-eq, fwrite, seek, length-le, length-slice, same}
use mavicona.Cynder.Layout.{index_size, item_bytes}
use mavicona.Cynder.Page.{Page, find_item, record_item, should_close, store_entry}
use mavicona.Cynder.Page.Ready.{next_slot, written, write_header-open}

-- `contents` after an assignment.
pub find_item-record_item :
    (contents : List (List ℕ × (ℕ × ℕ))) (name m : List ℕ) (place : ℕ × ℕ)
    → find_item (record_item contents name place) m
      ≡ (if same name m then some place else find_item contents m)
unfolding find_item record_item
find_item-record_item [] name m place = refl
find_item-record_item ((n, p) ∷ contents) name m place =
    let rest = find_item-record_item contents name m place in
    elim (Bool-cases (same n name)) [
      | inl e ↦ rw (e, same-eq n name e) (ground arith)
      | inr e ↦ elim (Bool-cases (same name m)) [
        | inl f ↦ let other : same n m ≡ false = rw (← same-eq name m f) e in rw (e, other, rest, f)
        | inr f ↦ rw (e, rest, f)
      ]
    ]

should_close-open : (p : Page) → should_close p ≡ p
unfolding should_close
should_close-open p =
    let no : ltb 0xffffffff (u32 (p.first_free + p.item_size)) ≡ false = ground arith in
    rw no (ground arith)

small : (n : ℕ) → n < 2 ^ 32 → n % 2 ^ 32 ≡ n
small n h = omega arith

small_16 : (n : ℕ) → n < 2 ^ 16 → n % 2 ^ 16 ≡ n
small_16 n h = omega arith

module _ (stack : ℕ → ℕ) where
  pub length-item_bytes :
      (name : List ℕ) (size item : ℕ) → length (item_bytes stack name size item) ≡ index_size
  unfolding item_bytes
  length-item_bytes name size item =
      simp (length-append, length-take, length-slice, length-le) (omega arith)

  -- The page of `store_entry` in front of its header.
  abbrev pub entered : List ℕ → List ℕ → Page → Page
  entered name text p = record p {
    first_free = p.first_free + length text;
    contents = record_item p.contents name (p.first_free, length text);
    elements = p.elements + 1;
    file = fwrite text (
        seek p.first_free
          (fwrite (item_bytes stack name (length text) p.first_free) (seek (next_slot p) p.file)));
  }

  pub store_entry-entered :
      (name text : List ℕ) (p : Page)
      → p.is_open ≡ true
      → p.first_free + length text < 2 ^ 32
      → p.elements + 1 < 2 ^ 16
      → store_entry stack name text p
        ≡ record (entered name text p) { file = written stack (entered name text p) }
  unfolding store_entry
  store_entry-entered name text p e h few =
      rw
        (
          should_close-open,
          small (length text) (omega arith),
          small (p.first_free + length text) h,
          small_16 (p.elements + 1) few,
        )
        (write_header-open stack (entered name text p) e)
