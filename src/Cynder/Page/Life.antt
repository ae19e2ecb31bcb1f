-- ===== src/Cynder/Page/Life.antt =====
-- What a page file is for: it gives back what was stored in it, also after it was closed.
use mavicona.Base.{
  ℕ, ◌+◌, ◌*◌, ◌≤◌, ◌<◌, ◌^◌, ◌≡◌, refl, sym, ap, List, [], ◌∷◌, arith, true, false, ◌∙◌, Option,
  some, none, Bool-cases, Option-cases, inl, inr, if◌then◌else◌,
}
use mavicona.Base.Stdio.{same}
use mavicona.Cynder.Layout.{header_size, index_size}
use mavicona.Cynder.Page.{Page, find_item, create, store_item, retrieve_item, close_page, open_page}
use mavicona.Cynder.Page.Create.{create-IsSound, create-created}
use mavicona.Base.Stdio.{same_refl, same-eq}
use mavicona.Cynder.Page.Store.{retrieve_item-store_item, retrieve_item-none}
use mavicona.Cynder.Page.Reopen.{IsFresh, list_items}
use mavicona.Cynder.Page.Filled.{
  IsListed, Fits, fill, store_item-IsListed, fill-IsListed, open_page-close_page,
}

-- The text that was stored last under a name.
unfoldable pub latest : List (List ℕ × List ℕ) → List ℕ → Option (List ℕ)
latest [] m = none
latest ((name, text) ∷ stored) m = elim (latest stored m) [
  | some t ↦ some t
  | none ↦ if same name m then some text else none
]

abbrev or_before : Option (List ℕ) → Option (List ℕ) → Option (List ℕ)
or_before none before = before
or_before (some t) before = some t

or_before-none : (o : Option (List ℕ)) → or_before o none ≡ o
or_before-none none = refl
or_before-none (some t) = refl

module _ (stack : ℕ → ℕ) where
  retrieve_item-fill :
      (stored : List (List ℕ × List ℕ)) (p : Page) (m : List ℕ)
      → IsListed p
      → Fits stack stored p
      → (retrieve_item m (fill stack stored p)).0
        ≡ or_before (latest stored m) (retrieve_item m p).0
  unfolding fill latest
  retrieve_item-fill [] p m l fits = refl
  retrieve_item-fill ((name, text) ∷ stored) p m l (n, room, fits) =
      let q = store_item stack name text p in
      let rest =
        retrieve_item-fill stored q m (store_item-IsListed stack name text p l n room) fits in
      let (here, others) =
        retrieve_item-store_item stack name text p l.items l.sound (omega (arith, n.long)) room.free
          room.few room.grow_small in
      let one : (retrieve_item m q).0
          ≡ or_before (if same name m then some text else none) (retrieve_item m p).0 =
        elim (Bool-cases (same name m)) [
          | inl e ↦ rw e (rw (← same-eq name m e) here)
          | inr e ↦ rw e (
              others m (λ same_name.
                let no : true ≡ false = sym (same_refl name) ∙ rw same_name at e in cc no))
        ] in
      elim (Option-cases (latest stored m)) [
        | inl e ↦ rest ∙ rw (e, one)
        | inr (t, e) ↦ rest ∙ rw e
      ]

  module _ (alloc size : ℕ) (stored : List (List ℕ × List ℕ)) (r : Page) (fresh : IsFresh r) where
    abbrev pub filled : Page
    filled = fill stack stored (create stack alloc size r)

    -- A page is created with at least two slots to an index, in a fresh object, and items are stored
    -- in it, each with a name of 36 characters without a NUL and with room below 2 ^ 32 when its turn
    -- comes. It gives for every name the text that was stored last under it, and nothing for a name
    -- that was not stored: before it is closed, and when a fresh object opens the file again.
    pub retrieve_item-latest :
        2 ≤ alloc
        → header_size + index_size * alloc + 4 < 2 ^ 32
        → size < 2 ^ 32
        → Fits stack stored (create stack alloc size r)
        → (m : List ℕ)
        → ((retrieve_item m filled).0 ≡ latest stored m)
          × ((retrieve_item m
                (open_page stack (record r { file = (close_page stack filled).file }))).0
              ≡ latest stored m)
    unfolding find_item list_items
    retrieve_item-latest two room small fits m =
        let s =
          create-IsSound stack alloc size r fresh.closed fresh.not_full fresh.nothing two room
            small in
        let made = create-created stack alloc size r fresh.closed room in
        let nothing : (create stack alloc size r).contents ≡ [] =
          ap (λ q. q.contents) made ∙ fresh.nothing in
        let grow : (create stack alloc size r).grow ≡ alloc = ap (λ q. q.grow) made in
        let l : IsListed (create stack alloc size r) = record {
          items = [];
          sound = s;
          listed = nothing;
          grow_small = omega arith;
        } in
        let before =
          retrieve_item-fill stored (create stack alloc size r) m l fits
          ∙ rw
              (retrieve_item-none m (create stack alloc size r) s.laid_out.opened
                (ap (λ c. find_item c m) nothing))
              (or_before-none (latest stored m)) in
        let (_, _, _, _, after, _) =
          open_page-close_page stack filled r
            (fill-IsListed stack stored (create stack alloc size r) l fits) fresh in
        (before, after m ∙ before)
