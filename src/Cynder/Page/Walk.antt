-- ===== src/Cynder/Page/Walk.antt =====
-- The slots of a page in the order in which its loops visit them.
use mavicona.Base.{
  ℕ, ◌+◌, ◌*◌, ◌≤◌, ◌<◌, ◌^◌, ◌≡◌, ◌≢◌, sym, ap, ◌∙◌, List, [], ◌∷◌, ◌++◌, length, arith, ◌==◌,
  true, false, min, ◌-◌, u32, drop_all, append-nil,
}
use mavicona.Base.Stdio.{
  File, slice, fread, seek, overlay, le, un_le, slice_agree, length-slice, length-le,
}
use mavicona.Cynder.Layout.{index_size}
use mavicona.Cynder.Page.{next_index}

-- From the index at `base` and the position `pos`, the slots with the bytes `items` are visited up
-- to the index at `last` and the position `stop`. An index has `grow` slots and the pointer to the
-- next index, which starts behind it.
pub data Walk (at : ℕ → ℕ) (grow last stop : ℕ) : ℕ → ℕ → List (List ℕ) → Type 0 where
  done : Walk at grow last stop last stop []
  slot :
      {base pos : ℕ} {items : List (List ℕ)}
      → pos ≢ base + index_size * grow
      → Walk at grow last stop base (pos + index_size) items
      → Walk at grow last stop base pos (slice at pos index_size ∷ items)
  hop :
      {base pos next : ℕ} {items : List (List ℕ)}
      → pos ≡ base + index_size * grow
      → un_le (slice at pos 4) ≡ next
      → pos + 4 ≤ next
      → Walk at grow last stop next (next + index_size) items
      → Walk at grow last stop base pos (slice at next index_size ∷ items)

module _ {at : ℕ → ℕ} {grow last stop : ℕ} where
  pub Walk-le :
      {base pos : ℕ} {items : List (List ℕ)} → Walk at grow last stop base pos items → pos ≤ stop
  Walk-le done = omega arith
  Walk-le (slot apart rest) = omega (arith, Walk-le rest)
  Walk-le (hop end points behind rest) = omega (arith, Walk-le rest)

-- A walk is one of every file with the same bytes between its two ends.
pub Walk-agree :
    {f : ℕ → ℕ} (g : ℕ → ℕ) {grow last stop base pos : ℕ} {items : List (List ℕ)}
    → Walk f grow last stop base pos items
    → ((q : ℕ) → pos ≤ q → q < stop → f q ≡ g q)
    → Walk g grow last stop base pos items
Walk-agree {f} g {pos = pos} done h = done
Walk-agree {f} g {pos = pos} (slot apart rest) h =
    let far = Walk-le rest in
    rw (slice_agree f g pos index_size (λ q a b. h q a (omega arith)))
      (slot apart (Walk-agree g rest (λ q a b. h q (omega arith) b)))
Walk-agree {f} g {pos = pos} (hop {next = next} end points behind rest) h =
    let far = Walk-le rest in
    rw (slice_agree f g next index_size (λ q a b. h q (omega arith) (omega arith))) (
      hop end (sym (ap un_le (slice_agree f g pos 4 (λ q a b. h q a (omega arith)))) ∙ points)
        behind (Walk-agree g rest (λ q a b. h q (omega arith) b)))

-- One more item at the end of a walk: in the next slot of the last index, or in the first slot of
-- an index that the last one points to.
pub Walk-slot :
    {at : ℕ → ℕ} {grow last stop base pos : ℕ} {items : List (List ℕ)}
    → Walk at grow last stop base pos items
    → stop ≢ last + index_size * grow
    → Walk at grow last (stop + index_size) base pos (items ++ slice at stop index_size ∷ [])
Walk-slot done room = slot room done
Walk-slot (slot apart rest) room = slot apart (Walk-slot rest room)
Walk-slot (hop end points behind rest) room = hop end points behind (Walk-slot rest room)

pub Walk-hop :
    {at : ℕ → ℕ} {grow last stop base pos : ℕ} {items : List (List ℕ)} (next : ℕ)
    → Walk at grow last stop base pos items
    → stop ≡ last + index_size * grow
    → un_le (slice at stop 4) ≡ next
    → stop + 4 ≤ next
    → Walk at grow next (next + index_size) base pos (items ++ slice at next index_size ∷ [])
Walk-hop next done full points behind = hop full points behind done
Walk-hop next (slot apart rest) full points behind =
    slot apart (Walk-hop next rest full points behind)
Walk-hop next (hop end points_0 behind_0 rest) full points behind =
    hop end points_0 behind_0 (Walk-hop next rest full points behind)

u32_small : (n : ℕ) → n < 2 ^ 32 → u32 n ≡ n
u32_small n h = omega arith

-- The move to the next index stays where the index has a further slot, and follows the pointer at
-- its end.
pub next_index-slot :
    (pointer grow : ℕ) (f : File)
    → f.pos < 2 ^ 32
    → f.pos ≢ pointer + index_size * grow
    → next_index pointer grow f ≡ (pointer, f)
unfolding next_index
next_index-slot pointer grow f small apart =
    let test : ((pointer + index_size * grow) == u32 f.pos) ≡ false =
      ground (arith, u32_small f.pos small) in
    rw test

pub overlay_all : (got old : List ℕ) → length old ≤ length got → overlay got old ≡ got
overlay_all got old h = rw (drop_all (length got) old h) (append-nil got)

pub next_index-hop :
    (pointer grow : ℕ) (f : File)
    → f.pos + 4 ≤ f.size
    → f.pos < 2 ^ 32
    → f.pos ≡ pointer + index_size * grow
    → let next = un_le (slice f.at f.pos 4) in next_index pointer grow f ≡ (next, seek next f)
unfolding next_index fread
next_index-hop pointer grow f room small end =
    let test : ((pointer + index_size * grow) == u32 f.pos) ≡ true =
      ground (arith, u32_small f.pos small) in
    let four : min 4 (f.size - f.pos) ≡ 4 = omega arith in
    let all =
      overlay_all (slice f.at f.pos 4) (le 4 pointer)
        (rw (length-slice, length-le) (omega arith)) in
    rw (test, four, all)
