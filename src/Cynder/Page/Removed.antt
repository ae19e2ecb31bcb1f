-- ===== src/Cynder/Page/Removed.antt =====
-- A page after `removeItem`, and when it is opened again.
use mavicona.Base.{
  ℕ, ◌<◌, ◌^◌, ◌≡◌, ◌≢◌, refl, sym, ap, List, [], ◌∷◌, length, map, length-map, All, arith, true,
  ◌∙◌, some, Bool-cases, inl, inr, get_or, ◌==◌,
}
use mavicona.Base.Stdio.{slice, seek, slice_agree, same, c_str}
use mavicona.Cynder.Layout.{header_size, header_of}
use mavicona.Cynder.Page.{Page, find_item, remove_item, remove_loop_page, close_page, open_page}
use mavicona.Cynder.Page.Sound.{IsSound}
use mavicona.Cynder.Page.Ready.{write_header-open}
use mavicona.Base.Stdio.{same-eq}
use mavicona.Cynder.Page.Names.{IsName, c_str-All}
use mavicona.Cynder.Page.Reopen.{IsFresh, list_items, stop_below, open_page-opened}
use mavicona.Cynder.Page.Filled.{IsListed, rewritten, rewritten-IsSound}
use mavicona.Cynder.Page.Remove.{mark, remove_loop-IsMarked}

module _ (stack : ℕ → ℕ) (name : List ℕ) (p : Page) where
  abbrev marked : Page
  marked = record p {
    file = remove_loop_page stack p.elements p.grow name header_size (seek header_size p.file);
  }

  remove_item-marked :
      (place : ℕ × ℕ)
      → p.is_open ≡ true
      → find_item p.contents name ≡ some place
      → remove_item stack name p ≡ marked
  unfolding remove_item
  remove_item-marked place e found = simp (e, found)

  -- `removeItem` keeps a page sound, with the slots that it marks.
  pub remove_item-IsSound :
      (items : List (List ℕ)) (place : ℕ × ℕ)
      → IsSound p items
      → find_item p.contents name ≡ some place
      → IsSound (remove_item stack name p) (map (mark name) items)
  remove_item-IsSound items place s found =
      let l = s.laid_out in
      let below = stop_below p items s in
      let m =
        remove_loop-IsMarked stack name p.elements p.file s.walk l.counted
          (omega (arith, l.in_file)) (omega (arith, l.free_small)) in
      let front : slice marked.file.at 0 header_size ≡ slice p.file.at 0 header_size =
        slice_agree _ _ 0 header_size
          (λ q a b. m.outside q (omega (arith, l.in_file, l.behind, l.fits)) (inl b)) in
      rw (remove_item-marked place l.opened found) (record {
        laid_out = record {
          opened = l.opened;
          not_full = l.not_full;
          grows = l.grows;
          counted = length-map items (mark name) ∙ l.counted;
          behind = l.behind;
          fits = l.fits;
          in_file = omega (arith, l.in_file, m.size);
          elements_small = l.elements_small;
          free_small = l.free_small;
          item_small = l.item_small;
          items_apart = λ n item size e.
              let a = l.items_apart n item size e in
              record { behind_header = a.behind_header; written = a.written; apart = a.apart };
        };
        marked = ap c_str front ∙ s.marked;
        header = ap header_of front ∙ s.header;
        walk = m.walk;
      })

  module _ (r : Page) (fresh : IsFresh r) where
    abbrev pub reopened : Page
    reopened =
        open_page stack (record r { file = (close_page stack (remove_item stack name p)).file })

    -- When `removeItem` was called on a sound page with a name that it has, and the page is closed, a
    -- fresh object opens its file with the entries of its slots, but for those that were deleted or
    -- whose bytes from the name on read as the name, up to a NUL.
    pub open_page-remove_item :
        (items : List (List ℕ)) (place : ℕ × ℕ)
        → IsSound p items
        → p.grow < 2 ^ 32
        → find_item p.contents name ≡ some place
        → reopened.contents ≡ list_items [] (map (mark name) items)
    unfolding close_page
    open_page-remove_item items place s small found =
        let q = remove_item stack name p in
        let t = remove_item-IsSound items place s found in
        let grow : q.grow ≡ p.grow =
          ap (λ u. u.grow) (remove_item-marked place s.laid_out.opened found) in
        let u = rewritten-IsSound stack q (map (mark name) items) t (omega arith) in
        let file : (close_page stack q).file ≡ (rewritten stack q).file =
          ap (λ w. w.file) (write_header-open stack q t.laid_out.opened) in
        rw file (
          ap (λ w. w.contents)
            (open_page-opened stack (rewritten stack q) r (map (mark name) items) u fresh))

-- The byte behind a text that ends inside of a list is a NUL.
behind-c_str : (s : List ℕ) → length (c_str s) < length s → get_or s (length (c_str s)) 0 ≡ 0
unfolding c_str
behind-c_str [] h = refl
behind-c_str (c ∷ s) h = elim (Bool-cases (c == 0)) [
  | inl e ↦ rw e (ground arith)
  | inr e ↦ rw e (behind-c_str s (let t = rw e at h in omega arith))
]

-- The slots whose size is no multiple of 256: the byte behind the name, the lowest of the size, is
-- not zero.
abbrev pub HasSize : List ℕ → Type 0
HasSize item = (36 < length item) × (get_or item 36 0 ≢ 0)

mark-HasSize : (name item : List ℕ) → IsName name → HasSize item → mark name item ≡ item
unfolding mark
mark-HasSize name item n (long, nonzero) = elim (Bool-cases (same (c_str item) (c_str name))) [
  | inr e ↦ rw e
  | inl e ↦
      let text : c_str item ≡ name = same-eq _ _ e ∙ c_str-All name n.no_nul in
      let count : length (c_str item) ≡ 36 = ap length text ∙ n.long in
      absurd (nonzero (rw count at (behind-c_str item (omega arith))))
]

map-mark :
    (name : List ℕ) (items : List (List ℕ))
    → IsName name
    → All HasSize items
    → map (mark name) items ≡ items
map-mark name [] n h = refl
map-mark name (item ∷ items) n (here, rest) =
    rw (mark-HasSize name item n here, map-mark name items n rest)

module _ (stack : ℕ → ℕ) (name : List ℕ) (p r : Page) (l : IsListed p) (fresh : IsFresh r) where
  -- `removeItem` of a name of 36 characters does not last on a sound page where no item has a size
  -- that is a multiple of 256: a fresh object that opens the file has the entry of the name.
  pub remove_item-kept :
      (place : ℕ × ℕ)
      → IsName name
      → All HasSize l.items
      → find_item p.contents name ≡ some place
      → find_item (reopened stack name p r fresh).contents name ≡ some place
  remove_item-kept place n sizes found =
      let after =
        open_page-remove_item stack name p r fresh l.items place l.sound l.grow_small found in
      ap (λ c. find_item c name)
        (after ∙ ap (list_items []) (map-mark name l.items n sizes) ∙ sym l.listed)
      ∙ found
