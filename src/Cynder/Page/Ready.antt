-- ===== src/Cynder/Page/Ready.antt =====
-- A page with a slot for the next item: as it is, or after it has grown.
use mavicona.Base.{
  ℕ, ◌+◌, ◌*◌, ◌%◌, ◌<◌, ◌^◌, ◌≡◌, sym, List, [], ◌∷◌, ◌++◌, length, arith, true, inr,
}
use mavicona.Base.Stdio.{File, slice, fwrite, seek, le}
use mavicona.Base.Stdio.Written.{fwrite_outside, slice-fwrite}
use mavicona.Cynder.Layout.{header_size, index_size, header_bytes}
use mavicona.Cynder.Page.{Page, next_empty, write_header, grow_page}
use mavicona.Cynder.Page.Walk.{Walk, Walk-agree, Walk-slot}
use mavicona.Cynder.Page.Sound.{IsLaidOut, IsSound, used, Same, page_header, length-header_bytes}

-- Where the next item's slot is.
abbrev pub next_slot : Page → ℕ
next_slot p = p.last_index + index_size * (p.elements % p.grow)

pub record IsReady (p : Page) (items : List (List ℕ)) : Type 0 where
  pub laid_out : IsLaidOut p (length items)
  pub room : p.elements % p.grow < p.grow
  pub extend :
      (f : File)
      → Same p.file f (next_slot p)
      → Walk f.at p.grow p.last_index
          (next_slot p + index_size)
          header_size
          header_size
          (items ++ slice f.at (next_slot p) index_size ∷ [])

pub IsReady-here :
    (p : Page) (items : List (List ℕ))
    → IsSound p items
    → used p.elements p.grow ≡ p.elements % p.grow
    → p.elements % p.grow < p.grow
    → IsReady p items
IsReady-here p items s e room = record {
  laid_out = s.laid_out;
  room = room;
  extend = λ f agree.
      let walk : Walk p.file.at p.grow p.last_index (next_slot p) header_size header_size items =
        rw (← e) s.walk in
      Walk-slot (Walk-agree f.at walk (λ q a b. sym (agree q a b))) (omega arith);
}

-- The page of `growPage` in front of its header.
abbrev pub grown_file : Page → File
grown_file p =
    let start = p.first_free + index_size * p.grow in
    let f_1 = fwrite (le 4 next_empty) (seek start p.file) in
    let f_2 = fwrite (le 4 p.first_free) (seek (p.last_index + index_size * p.grow) f_1) in
    fwrite (0 ∷ []) (seek (f_2.pos + (start + 4 + p.item_size * p.grow)) f_2)

abbrev pub grown : Page → Page
grown p = record p {
  first_free = p.first_free + index_size * p.grow + 4;
  last_index = p.first_free;
  file = grown_file p;
}

module _ (stack : ℕ → ℕ) where
  -- The file once the header is written.
  abbrev pub written : Page → File
  written p = fwrite (header_bytes stack (page_header p)) (seek 0 p.file)

  pub write_header-open :
      (p : Page) → p.is_open ≡ true → write_header stack p ≡ record p { file = written p }
  unfolding write_header
  write_header-open p e = simp e

  pub written-Same : (p : Page) → Same p.file (written p) p.file.size
  written-Same p q a b =
      fwrite_outside (header_bytes stack (page_header p)) (seek 0 p.file) q b
        (inr (rw length-header_bytes (omega arith)))

  pub slice-written :
      (p : Page) → slice (written p).at 0 header_size ≡ header_bytes stack (page_header p)
  slice-written p =
      rw (← length-header_bytes stack (page_header p))
        (slice-fwrite (header_bytes stack (page_header p)) (seek 0 p.file))

  small : (n : ℕ) → n < 2 ^ 32 → n % 2 ^ 32 ≡ n
  small n h = omega arith

  pub grow_page-grown :
      (p : Page)
      → p.is_open ≡ true
      → p.first_free + index_size * p.grow + 4 + p.item_size * p.grow < 2 ^ 32
      → grow_page stack p ≡ record (grown p) { file = written (grown p) }
  unfolding grow_page
  grow_page-grown p e h =
      rw
        (
          small (p.first_free + index_size * p.grow) (omega arith),
          small (p.first_free + index_size * p.grow + 4) (omega arith),
          small (p.first_free + index_size * p.grow + 4 + p.item_size * p.grow) h,
        )
        (write_header-open (grown p) e)
