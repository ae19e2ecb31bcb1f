-- ===== src/Cynder/Page/Filled.antt =====
-- A page over its lifetime: made, filled by a sequence of `storeItem` calls, closed and opened again.
use mavicona.Base.{
  ℕ, ◌+◌, ◌<◌, ◌^◌, ◌≡◌, refl, sym, ap, List, [], ◌∷◌, ◌++◌, length, arith, ◌∙◌, some, Option-cases,
  inl, inr,
}
use mavicona.Base.Stdio.{File, c_str, slice_agree}
use mavicona.Cynder.Layout.{header_of, item_bytes}
use mavicona.Cynder.Page.{
  Page, record_item, find_item, store_item, retrieve_item, close_page, open_page,
}
use mavicona.Cynder.Page.Walk.{Walk-agree}
use mavicona.Cynder.Page.Sound.{
  IsLaidOut, IsSound, page_header, c_str-header_bytes, header_of-header_bytes,
}
use mavicona.Cynder.Page.Ready.{written, written-Same, slice-written, write_header-open}
use mavicona.Cynder.Page.Grown.{growth, written-IsLaidOut}
use mavicona.Cynder.Page.Store.{store_item-HasStored, retrieve_item-place, retrieve_item-none}
use mavicona.Cynder.Page.Reopen.{list_items, IsFresh, stop_below, opened, open_page-opened}
use mavicona.Cynder.Page.Names.{IsName, list_items-item_bytes}

-- The room for one more item: its offset stays below 2 ^ 32, even if the page has to grow.
pub record HasRoom (p : Page) (text : List ℕ) : Type 0 where
  pub free : p.first_free + growth p + length text < 2 ^ 32
  pub few : p.elements + 1 < 2 ^ 16
  pub grow_small : p.grow < 2 ^ 32

-- A sound page whose entries in memory are those of its slots.
pub record IsListed (p : Page) : Type 0 where
  pub items : List (List ℕ)
  pub sound : IsSound p items
  pub listed : p.contents ≡ list_items [] items
  pub grow_small : p.grow < 2 ^ 32

module _ (stack : ℕ → ℕ) where
  -- The page after a sequence of stores.
  unfoldable pub fill : List (List ℕ × List ℕ) → Page → Page
  fill [] p = p
  fill ((name, text) ∷ stored) p = fill stored (store_item stack name text p)

  -- Each item has a whole name, and room when its turn comes.
  abbrev pub Fits : List (List ℕ × List ℕ) → Page → Type 0
  Fits [] p = Unit
  Fits ((name, text) ∷ stored) p =
      IsName name × HasRoom p text × Fits stored (store_item stack name text p)

  pub store_item-IsListed :
      (name text : List ℕ) (p : Page)
      → IsListed p
      → IsName name
      → HasRoom p text
      → IsListed (store_item stack name text p)
  store_item-IsListed name text p l n room =
      let h =
        store_item-HasStored stack name text p l.items l.sound (omega (arith, n.long)) room.free
          room.few room.grow_small in
      let below = h.sound.laid_out.free_small in
      record {
        items = l.items ++ item_bytes stack name (length text) h.offset ∷ [];
        sound = h.sound;
        listed =
            h.listed
            ∙ ap (λ c. record_item c name (h.offset, length text)) l.listed
            ∙ sym (
                (list_items-item_bytes stack name (length text) h.offset n l.items
                  (omega (arith, room.free)) (omega (arith, h.in_free))));
        grow_small = omega (arith, h.grow, l.grow_small);
      }

  pub fill-IsListed :
      (stored : List (List ℕ × List ℕ)) (p : Page)
      → IsListed p
      → Fits stored p
      → IsListed (fill stored p)
  unfolding fill
  fill-IsListed [] p l fits = l
  fill-IsListed ((name, text) ∷ stored) p l (n, room, fits) =
      fill-IsListed stored (store_item stack name text p) (store_item-IsListed name text p l n room)
        fits

  -- The header that the destructor writes keeps the page sound.
  abbrev pub rewritten : Page → Page
  rewritten p = record p { file = written stack p }

  pub rewritten-IsSound :
      (p : Page) (items : List (List ℕ))
      → IsSound p items
      → p.grow < 2 ^ 32
      → IsSound (rewritten p) items
  rewritten-IsSound p items s small =
      let l = s.laid_out in
      record {
        laid_out = written-IsLaidOut stack p (length items) l;
        marked = ap c_str (slice-written stack p) ∙ c_str-header_bytes stack (page_header p);
        header =
            ap header_of (slice-written stack p)
            ∙ header_of-header_bytes stack (page_header p) l.elements_small l.free_small small
                l.item_small (rw l.not_full (omega arith));
        walk = Walk-agree (written stack p).at s.walk (λ q a b.
            sym (written-Same stack p q a (omega (arith, stop_below p items s, l.in_file))));
      }

  module _ (p r : Page) (l : IsListed p) (fresh : IsFresh r) where
    abbrev closed_file : File
    closed_file = (close_page stack p).file

    closed_file-rewritten : closed_file ≡ (rewritten p).file
    unfolding close_page
    closed_file-rewritten = ap (λ q. q.file) (write_header-open stack p l.sound.laid_out.opened)

    abbrev pub reopened : Page
    reopened = open_page stack (record r { file = closed_file })

    s : IsSound (rewritten p) l.items
    s = rewritten-IsSound p l.items l.sound l.grow_small

    abbrev again : Page
    again = opened stack (rewritten p) r l.items s fresh

    reopened-again : reopened ≡ again
    reopened-again =
        rw closed_file-rewritten (open_page-opened stack (rewritten p) r l.items s fresh)

    again-IsLaidOut : IsLaidOut again (length l.items)
    again-IsLaidOut =
        let d = s.laid_out in
        record {
          opened = refl;
          not_full = fresh.not_full;
          grows = d.grows;
          counted = d.counted;
          behind = d.behind;
          fits = d.fits;
          in_file = d.in_file;
          elements_small = d.elements_small;
          free_small = d.free_small;
          item_small = d.item_small;
          items_apart = λ name item size found.
              let a = d.items_apart name item size (ap (λ c. find_item c name) l.listed ∙ found) in
              record { behind_header = a.behind_header; written = a.written; apart = a.apart };
        }

    again-IsListed : IsListed again
    again-IsListed = record {
      items = l.items;
      sound = record {
        laid_out = again-IsLaidOut;
        marked = s.marked;
        header = s.header ∙ rw (fresh.not_full, s.laid_out.not_full);
        walk = s.walk;
      };
      listed = refl;
      grow_small = l.grow_small;
    }

    retrieve_item-again : (m : List ℕ) → (retrieve_item m again).0 ≡ (retrieve_item m p).0
    retrieve_item-again m =
        let d = l.sound.laid_out in
        elim (Option-cases (find_item p.contents m)) [
          | inl e ↦
              retrieve_item-none m again refl (sym (ap (λ c. find_item c m) l.listed) ∙ e)
              ∙ sym (retrieve_item-none m p d.opened e)
          | inr ((item, size), e) ↦
              let a = d.items_apart m item size e in
              retrieve_item-place m again _ item size again-IsLaidOut
                (sym (ap (λ c. find_item c m) l.listed) ∙ e)
              ∙ ap some (
                  slice_agree _ _ item size (λ q b c.
                    written-Same stack p q (omega (arith, a.behind_header))
                      (omega (arith, a.written, d.in_file))))
              ∙ sym (retrieve_item-place m p _ item size d e)
        ]

    -- Where the entries of a sound page are those of its slots, and the page is closed, a fresh object
    -- opens its file as it was: its entries, the number of its elements, its free offset and its last
    -- index are the same, every item is retrieved as before, and the page is sound again.
    pub open_page-close_page :
        (reopened.contents ≡ p.contents)
        × (reopened.elements ≡ p.elements)
        × (reopened.first_free ≡ p.first_free)
        × (reopened.last_index ≡ p.last_index)
        × ((m : List ℕ) → (retrieve_item m reopened).0 ≡ (retrieve_item m p).0)
        × IsListed reopened
    open_page-close_page =
        rw reopened-again (sym l.listed, refl, refl, refl, retrieve_item-again, again-IsListed)
