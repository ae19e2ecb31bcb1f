-- ===== src/Cynder/Page/Remove.antt =====
-- `removeItem`: the slots that it marks.
use mavicona.Base.{
  ℕ, zero, suc, ◌+◌, ◌-◌, ◌≤◌, ◌<◌, ◌^◌, ◌≡◌, ◌⊎◌, refl, sym, ap, List, ◌++◌, length, map, arith,
  ◌∙◌, Bool-cases, inl, inr, if◌then◌else◌, replicate, length-append, length-take, length-drop,
}
use mavicona.Base.Stdio.{
  File, slice, seek, fwrite, overlay, length-slice, slice_agree, same, c_str, un_le,
}
use mavicona.Base.Stdio.Written.{fwrite_outside, slice-fwrite, size-fwrite_inside, seek-fwrite}
use mavicona.Cynder.Layout.{index_size, set_deleted}
use mavicona.Cynder.Page.{remove_loop_page}
use mavicona.Cynder.Page.Walk.{
  Walk, Walk-le, Walk-agree, done, slot, hop, overlay_all, next_index-slot, next_index-hop,
}
use mavicona.Cynder.Page.Reopen.{fread-slot}

-- What `removeItem` makes of a slot: it marks it if the bytes from its name on are the name.
unfoldable pub mark : List ℕ → List ℕ → List ℕ
mark name item = if same (c_str item) (c_str name) then set_deleted item else item

length-set_deleted :
    (item : List ℕ) → length item ≡ index_size → length (set_deleted item) ≡ index_size
length-set_deleted item h = simp (length-append, length-take, length-drop, h)

-- The file after one turn of the loop, on the slot at `pos`.
record IsTurn (f g : File) (name : List ℕ) (pos : ℕ) : Type 0 where
  pub size : g.size ≡ f.size
  pub outside : (q : ℕ) → q < f.size → (q < pos) ⊎ (pos + index_size ≤ q) → g.at q ≡ f.at q
  pub inside : slice g.at pos index_size ≡ mark name (slice f.at pos index_size)

module _ (name : List ℕ) (f : File) (pos : ℕ) (h : pos + index_size ≤ f.size) where
  abbrev item : List ℕ
  item = slice f.at pos index_size

  abbrev turn : File
  turn =
      if same (c_str item) (c_str name)
      then fwrite (set_deleted item) (seek pos f)
      else seek (pos + index_size) f

  long : length (set_deleted item) ≡ index_size
  long = length-set_deleted item (length-slice f.at pos index_size)

  turn-IsTurn : IsTurn f turn name pos
  unfolding mark
  turn-IsTurn = elim (Bool-cases (same (c_str item) (c_str name))) [
    | inl e ↦ rw e (record {
      size = size-fwrite_inside (set_deleted item) (seek pos f) (omega (arith, long));
      outside = λ q b out. fwrite_outside (set_deleted item) (seek pos f) q b (rw long out);
      inside = rw e (rw long at (slice-fwrite (set_deleted item) (seek pos f)));
    })
    | inr e ↦ rw e (record { size = refl; outside = λ q b out. refl; inside = rw e })
  ]

  turn-seek : turn ≡ seek (pos + index_size) turn
  turn-seek = elim (Bool-cases (same (c_str item) (c_str name))) [
    | inl e ↦ rw e (seek-fwrite (set_deleted item) (seek pos f) ∙ rw long)
    | inr e ↦ rw e
  ]

-- The file after the loop, from the slot at `pos` on.
pub record IsMarked (f g : File) (name : List ℕ) (grow last stop base pos : ℕ)
    (items : List (List ℕ)) : Type 0 where
  pub size : g.size ≡ f.size
  pub outside : (q : ℕ) → q < f.size → (q < pos) ⊎ (stop ≤ q) → g.at q ≡ f.at q
  pub walk : Walk g.at grow last stop base pos (map (mark name) items)

-- One turn in front of the rest of the loop.
module _ {f g k : File} {name : List ℕ} {grow last stop base pos : ℕ} {items : List (List ℕ)}
    (t : IsTurn f g name pos) (m : IsMarked g k name grow last stop base (pos + index_size) items)
    (far : pos + index_size ≤ stop) (inside : stop ≤ f.size) where
  both_outside : (q : ℕ) → q < f.size → (q < pos) ⊎ (stop ≤ q) → k.at q ≡ f.at q
  both_outside q b (inl below) =
      m.outside q (omega (arith, t.size)) (inl (omega arith)) ∙ t.outside q b (inl below)
  both_outside q b (inr above) =
      m.outside q (omega (arith, t.size)) (inr above) ∙ t.outside q b (inr (omega arith))

  both_marked : slice k.at pos index_size ≡ mark name (slice f.at pos index_size)
  both_marked =
      slice_agree k.at g.at pos index_size (λ q a b. m.outside q (omega (arith, t.size)) (inl b))
      ∙ t.inside

module _ (stack : ℕ → ℕ) (name : List ℕ) where
  read_whole :
      (f : File) (pos : ℕ)
      → overlay (slice f.at pos index_size) (slice stack 0 40 ++ replicate 8 0)
        ≡ slice f.at pos index_size
  read_whole f pos = overlay_all (slice f.at pos index_size) (slice stack 0 40 ++ replicate 8 0) (
      rw length-slice
        (omega (arith, length-append (slice stack 0 40) (replicate 8 0), length-slice stack 0 40)))

  -- The loop marks the slots of the walk, and nothing else changes.
  pub remove_loop-IsMarked :
      (n : ℕ) (f : File) {grow last stop base pos : ℕ} {items : List (List ℕ)}
      → Walk f.at grow last stop base pos items
      → length items ≡ n
      → stop ≤ f.size
      → stop < 2 ^ 32
      → IsMarked f
          (remove_loop_page stack n grow name base (seek pos f))
          name
          grow
          last
          stop
          base
          pos
          items
  unfolding remove_loop_page
  remove_loop-IsMarked zero f done count inside small = record {
    size = refl;
    outside = λ q b out. refl;
    walk = done;
  }
  remove_loop-IsMarked zero f (slot apart rest) count inside small = absurd (omega arith)
  remove_loop-IsMarked zero f (hop end points behind rest) count inside small = absurd (omega arith)
  remove_loop-IsMarked (suc n) f done count inside small = absurd (omega arith)
  remove_loop-IsMarked (suc n) f {grow = grow} {last = last} {stop = stop} {base = base} {pos = pos}
        (slot {items = items} apart rest) count inside small =
      let far = Walk-le rest in
      let fits : pos + index_size ≤ f.size = omega arith in
      let g = turn name f pos fits in
      let t = turn-IsTurn name f pos fits in
      let later =
        Walk-agree g.at rest (λ q a b. sym (t.outside q (omega arith) (inr (omega arith)))) in
      let m = remove_loop-IsMarked n g later (omega arith) (omega (arith, t.size)) small in
      let back : pos + index_size - index_size ≡ pos = omega arith in
      rw
        (
          remove_loop_page,
          next_index-slot base grow (seek pos f) (omega arith) apart,
          fread-slot index_size f pos fits,
          read_whole f pos,
          back,
          turn-seek name f pos fits,
        )
        (record {
          size = m.size ∙ t.size;
          outside = both_outside t m far inside;
          walk = rw (← both_marked t m far inside) (slot apart m.walk);
        })
  remove_loop-IsMarked (suc n) f {grow = grow} {last = last} {stop = stop} {base = base} {pos = pos}
        (hop {next = next} {items = items} end points behind rest) count inside small =
      let far = Walk-le rest in
      let fits : next + index_size ≤ f.size = omega arith in
      let g = turn name f next fits in
      let t = turn-IsTurn name f next fits in
      let later =
        Walk-agree g.at rest (λ q a b. sym (t.outside q (omega arith) (inr (omega arith)))) in
      let m = remove_loop-IsMarked n g later (omega arith) (omega (arith, t.size)) small in
      let back : next + index_size - index_size ≡ next = omega arith in
      let pointer =
        slice_agree _ _ pos 4
          (λ q a b. both_outside t m far inside q (omega arith) (inl (omega arith))) in
      rw
        (
          remove_loop_page,
          next_index-hop base grow (seek pos f) (omega arith) (omega arith) end,
          points,
          fread-slot index_size f next fits,
          read_whole f next,
          back,
          turn-seek name f next fits,
        )
        (record {
          size = m.size ∙ t.size;
          outside = λ q b out.
              both_outside t m far inside q b
                (elim out [ inl below ↦ inl (omega arith) | inr above ↦ inr above ]);
          walk =
              rw (← both_marked t m far inside) (hop end (ap un_le pointer ∙ points) behind m.walk);
        })
