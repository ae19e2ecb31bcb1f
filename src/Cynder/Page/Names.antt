-- ===== src/Cynder/Page/Names.antt =====
-- The entry of a slot with a name that fills its field.
use mavicona.Base.{
  ℕ, ◌+◌, ◌<◌, ◌^◌, ◌≡◌, ◌≢◌, refl, sym, List, [], ◌∷◌, ◌++◌, length, All, arith, false, ◌∙◌, ◌==◌,
  take, drop, take-append_length, drop-append_length, drop-drop, append_assoc,
}
use mavicona.Base.Stdio.{slice, le, un_le, c_str}
use mavicona.Base.Stdio.Written.{un_le-le_4}
use mavicona.Cynder.Layout.{item_bytes, item_name, item_place, deleted}
use mavicona.Cynder.Page.{record_item}
use mavicona.Cynder.Page.Reopen.{list_items, list_items-append}

-- The names of the storage node's items are identifiers of 36 characters.
pub record IsName (name : List ℕ) : Type 0 where
  pub long : length name ≡ 36
  pub no_nul : All (λ c. c ≢ 0) name

pub c_str-All : (name : List ℕ) → All (λ c. c ≢ 0) name → c_str name ≡ name
unfolding c_str
c_str-All [] h = refl
c_str-All (c ∷ name) (apart, h) =
    let test : (c == 0) ≡ false = ground arith in rw (test, c_str-All name h)

module _ (stack : ℕ → ℕ) (name : List ℕ) (size item : ℕ) (h : IsName name) where
  abbrev behind : List ℕ
  behind = le 4 size ++ (le 4 item ++ (0 ∷ slice stack 45 3))

  item_bytes-name : item_bytes stack name size item ≡ name ++ behind
  unfolding item_bytes
  item_bytes-name =
      let short : take 36 (name ++ (0 ∷ slice stack (length (name ++ 0 ∷ [])) 36)) ≡ name =
        take-append_length name _ 36 (sym h.long) in
      simp (c_str-All name h.no_nul, append_assoc, short)

  abbrev bytes : List ℕ
  bytes = item_bytes stack name size item

  item_name-name : item_name bytes ≡ name
  item_name-name = rw item_bytes-name (take-append_length name behind 36 (sym h.long))

  field : (k : ℕ) → drop (36 + k) bytes ≡ drop k behind
  field k = rw (
    item_bytes-name,
    ← drop-drop k 36 (name ++ behind),
    drop-append_length name behind 36 (sym h.long),
  )

  item_place-name : size < 2 ^ 32 → item < 2 ^ 32 → item_place bytes ≡ (item, size)
  unfolding le
  item_place-name a b = rw (field 0, field 4) (rw (un_le-le_4 size a, un_le-le_4 item b))

  deleted-name : deleted bytes ≡ false
  unfolding le un_le slice
  deleted-name = rw (field 8)

  -- One more slot is one more assignment.
  pub list_items-item_bytes :
      (items : List (List ℕ))
      → size < 2 ^ 32
      → item < 2 ^ 32
      → list_items [] (items ++ bytes ∷ []) ≡ record_item (list_items [] items) name (item, size)
  unfolding list_items
  list_items-item_bytes items a b =
      list_items-append items (bytes ∷ []) []
      ∙ rw (deleted-name, item_name-name, item_place-name a b)
