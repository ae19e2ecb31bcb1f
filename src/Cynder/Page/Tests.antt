-- ===== src/Cynder/Page/Tests.antt =====
-- Pages of two slots to an index, and items in them.
use mavicona.Base.{
  ℕ, ◌+◌, ◌<◌, ◌^◌, ◌≡◌, ◌≢◌, refl, sym, List, [], ◌∷◌, length, map, All, Bool, arith, true, false,
  ◌∙◌, some, ltb→lt, ◌==◌, not, ◌&&◌,
}
use mavicona.Base.Text.{codes}
use mavicona.Base.Stdio.{empty_file, slice, c_str, le, same, un_le}
use mavicona.Cynder.Layout.{item_bytes}
use mavicona.Cynder.Page.{
  Page, create, store_item, store_entry, retrieve_item, open_page, close_page, find_item,
  record_item, grow_page, write_header, should_close,
}
use mavicona.Cynder.Page.Sound.{IsSound}
use mavicona.Cynder.Page.Ready.{IsReady-here}
use mavicona.Cynder.Page.Entered.{HasEntry, store_entry-HasEntry}
use mavicona.Cynder.Page.Create.{create-IsSound}
use mavicona.Cynder.Page.Reopen.{IsFresh, list_items}
use mavicona.Cynder.Page.Names.{IsName, list_items-item_bytes}
use mavicona.Cynder.Page.Store.{retrieve_item-store_item}
use mavicona.Cynder.Page.Filled.{Fits, IsListed, fill, open_page-close_page}
use mavicona.Cynder.Page.Life.{latest, retrieve_item-latest}
use mavicona.Cynder.Page.Remove.{mark}
use mavicona.Cynder.Page.Removed.{HasSize, open_page-remove_item, remove_item-kept, reopened}

abbrev junk : ℕ → ℕ
junk q = 7

abbrev fresh_page : Page
fresh_page = record {
  elements = 9;
  first_free = 9;
  grow = 9;
  last_index = 9;
  item_size = 9;
  is_open = false;
  file = empty_file;
  contents = [];
  page_full = false;
}

fresh_page-IsFresh : IsFresh fresh_page
fresh_page-IsFresh = record { closed = refl; not_full = refl; nothing = refl }

abbrev first_name : List ℕ
first_name = codes "00000000-1111-2222-3333-444444444444"

abbrev second_name : List ℕ
second_name = codes "00000000-1111-2222-3333-555555555555"

abbrev stored : List (List ℕ × List ℕ)
stored = (first_name, codes "one") ∷ (second_name, codes "two") ∷ (first_name, codes "three") ∷ []

abbrev no_zeros : List ℕ → Bool
no_zeros [] = true
no_zeros (c ∷ name) = not (c == 0) && no_zeros name

no_zeros-All : (name : List ℕ) → no_zeros name ≡ true → All (λ c. c ≢ 0) name
no_zeros-All [] h = tt
no_zeros-All (c ∷ name) h = (ground arith, no_zeros-All name (ground arith))

first_name-IsName : IsName first_name
first_name-IsName = record { long = refl; no_nul = no_zeros-All first_name refl }

second_name-IsName : IsName second_name
second_name-IsName = record { long = refl; no_nul = no_zeros-All second_name refl }

abbrev new_page : Page
new_page = create junk 2 16 fresh_page

stored-Fits : Fits junk stored new_page
unfolding create store_item store_entry write_header should_close grow_page
stored-Fits = (
  first_name-IsName,
  record { free = ltb→lt _ _ refl; few = ltb→lt _ _ refl; grow_small = ltb→lt _ _ refl },
  (
    second_name-IsName,
    record { free = ltb→lt _ _ refl; few = ltb→lt _ _ refl; grow_small = ltb→lt _ _ refl },
    (
      first_name-IsName,
      record { free = ltb→lt _ _ refl; few = ltb→lt _ _ refl; grow_small = ltb→lt _ _ refl },
      tt,
    ),
  ),
)

last_stored : latest stored first_name ≡ some (codes "three")
unfolding latest same
last_stored = refl

retrieve_item-latest_example :
    ((retrieve_item first_name (fill junk stored new_page)).0 ≡ latest stored first_name)
    × ((retrieve_item first_name (
          open_page junk
            (record fresh_page { file = (close_page junk (fill junk stored new_page)).file }))).0
        ≡ latest stored first_name)
retrieve_item-latest_example =
    retrieve_item-latest junk 2 16 stored fresh_page fresh_page-IsFresh (ltb→lt 1 2 refl)
      (ltb→lt _ _ refl) (ltb→lt _ _ refl) stored-Fits first_name

new_page-IsSound : IsSound new_page []
new_page-IsSound =
    create-IsSound junk 2 16 fresh_page refl refl refl (ltb→lt 1 2 refl) (ltb→lt _ _ refl)
      (ltb→lt _ _ refl)

retrieve_item-store_item_example :
    ((retrieve_item (codes "a") (store_item junk (codes "a") (codes "text") new_page)).0
      ≡ some (codes "text"))
    × ((m : List ℕ)
        → m ≢ codes "a"
        → (retrieve_item m (store_item junk (codes "a") (codes "text") new_page)).0
          ≡ (retrieve_item m new_page).0)
unfolding create
retrieve_item-store_item_example =
    retrieve_item-store_item junk (codes "a") (codes "text") new_page [] new_page-IsSound
      (ltb→lt _ _ refl) (ltb→lt _ _ refl) (ltb→lt _ _ refl) (ltb→lt _ _ refl)

-- A page with one item.
module _ (name text : List ℕ) where
  abbrev one_page : Page
  one_page = store_entry junk name text new_page

  one_page-HasEntry :
      128 + length text < 2 ^ 32
      → HasEntry new_page one_page [] name text (item_bytes junk name (length text) 128)
  unfolding create
  one_page-HasEntry room =
      store_entry-HasEntry junk name text new_page []
        (IsReady-here new_page [] new_page-IsSound refl (ltb→lt _ _ refl)) room (ltb→lt _ _ refl)
        (ltb→lt _ _ refl)

abbrev one_text : List ℕ
one_text = codes "one"

abbrev full_page : Page
full_page = one_page first_name one_text

full_page-IsListed : IsListed full_page
unfolding create list_items
full_page-IsListed =
    let h = one_page-HasEntry first_name one_text (ltb→lt _ _ refl) in
    record {
      items = item_bytes junk first_name 3 128 ∷ [];
      sound = h.sound;
      listed =
          h.listed
          ∙ sym (
              list_items-item_bytes junk first_name 3 128 first_name-IsName [] (ltb→lt _ _ refl)
                (ltb→lt _ _ refl));
      grow_small = omega (arith, h.grow);
    }

full_page-sizes : All HasSize (full_page-IsListed.items)
unfolding full_page-IsListed item_bytes c_str slice le
full_page-sizes = ((ltb→lt _ _ refl, λ e. omega arith), tt)

full_page-found : find_item full_page.contents first_name ≡ some (128, 3)
unfolding find_item store_entry record_item create write_header should_close same
full_page-found = refl

remove_item-kept_example :
    find_item (reopened junk first_name full_page fresh_page fresh_page-IsFresh).contents first_name
    ≡ some (128, 3)
remove_item-kept_example =
    remove_item-kept junk first_name full_page fresh_page full_page-IsListed fresh_page-IsFresh
      (128, 3) first_name-IsName full_page-sizes full_page-found

new_page-grow : new_page.grow ≡ 2
unfolding create
new_page-grow = refl

abbrev short_page : Page
short_page = one_page (codes "ab") one_text

short_page-found : find_item short_page.contents (codes "ab") ≡ some (128, 3)
unfolding find_item store_entry record_item create write_header should_close same
short_page-found = refl

open_page-remove_item_example :
    (reopened junk (codes "ab") short_page fresh_page fresh_page-IsFresh).contents
    ≡ list_items [] (map (mark (codes "ab")) (item_bytes junk (codes "ab") 3 128 ∷ []))
open_page-remove_item_example =
    let h = one_page-HasEntry (codes "ab") one_text (ltb→lt _ _ refl) in
    open_page-remove_item junk (codes "ab") short_page fresh_page fresh_page-IsFresh
      (item_bytes junk (codes "ab") 3 128 ∷ []) (128, 3) h.sound
      (omega (arith, h.grow, new_page-grow)) short_page-found

-- The slot of a short name is marked, so the page has no entry when it is opened again.
marked_slot : list_items [] (map (mark (codes "ab")) (item_bytes junk (codes "ab") 3 128 ∷ [])) ≡ []
unfolding list_items mark item_bytes c_str same slice le un_le
marked_slot = refl

open_page-close_page_example :
    let o = open_page junk (record fresh_page { file = (close_page junk full_page).file }) in
    (o.contents ≡ full_page.contents)
    × (o.elements ≡ full_page.elements)
    × (o.first_free ≡ full_page.first_free)
    × (o.last_index ≡ full_page.last_index)
    × ((m : List ℕ) → (retrieve_item m o).0 ≡ (retrieve_item m full_page).0)
    × IsListed o
open_page-close_page_example =
    open_page-close_page junk full_page fresh_page full_page-IsListed fresh_page-IsFresh
