-- ===== src/Mumux/Slots/Shift.antt =====
-- Slots that move when a connection is closed.
use mavicona.Base.{
  ℕ, suc, ◌+◌, ◌-◌, ◌≤◌, ◌<◌, ◌≡◌, ◌≢◌, sym, ap, ◌∙◌, List, ◌++◌, arith, length, length-take,
  length-drop, length-set, take, drop, get_elem?, set,
}
use mavicona.Mumux.Socket.{Network}
use mavicona.Mumux.Connection.{connection_close}
use mavicona.Mumux.Slots.{Server, close_slot}
use mavicona.Base.Lookup.{
  get_elem?-some, get_elem?-set_other, get_elem?-take, get_elem?-drop, get_elem?-append_left,
  get_elem?-append_right,
}

-- `memmove` of `remain` slots to the index `i`.
abbrev moved {ℓ} : {A : Type ℓ} → List A → ℕ → ℕ → List A
moved con i remain = take i con ++ (take remain (drop (suc i) con) ++ drop (i + remain) con)

module _ {A : Type 0} (con : List A) (i remain : ℕ) (fits : i + remain < length con) where
  front : length (take i con) ≡ i
  front = omega (arith, length-take i con)

  middle : length (take remain (drop (suc i) con)) ≡ remain
  middle = omega (arith, length-take remain (drop (suc i) con), length-drop (suc i) con)

  moved-before : (j : ℕ) → j < i → get_elem? (moved con i remain) j ≡ get_elem? con j
  moved-before j h =
      get_elem?-append_left (take i con) _ j (omega (arith, front)) ∙ get_elem?-take con i j h

  moved-within :
      (j : ℕ) → i ≤ j → j < i + remain → get_elem? (moved con i remain) j ≡ get_elem? con (suc j)
  moved-within j h l =
      let tail = take remain (drop (suc i) con) ++ drop (i + remain) con in
      let at : length (take i con) + (j - i) ≡ j = omega (arith, front) in
      let next : suc i + (j - i) ≡ suc j = omega arith in
      ap (get_elem? (take i con ++ tail)) (sym at)
      ∙ get_elem?-append_right (take i con) tail (j - i)
      ∙ get_elem?-append_left (take remain (drop (suc i) con)) (drop (i + remain) con) (j - i)
          (omega (arith, middle))
      ∙ get_elem?-take (drop (suc i) con) remain (j - i) (omega arith)
      ∙ get_elem?-drop con (suc i) (j - i)
      ∙ ap (get_elem? con) next

  moved-behind : (j : ℕ) → i + remain ≤ j → get_elem? (moved con i remain) j ≡ get_elem? con j
  moved-behind j h =
      let tail = take remain (drop (suc i) con) ++ drop (i + remain) con in
      let at : length (take i con) + (j - i) ≡ j = omega (arith, front) in
      let at' : length (take remain (drop (suc i) con)) + (j - (i + remain)) ≡ j - i =
        omega (arith, middle) in
      let next : i + remain + (j - (i + remain)) ≡ j = omega arith in
      ap (get_elem? (take i con ++ tail)) (sym at)
      ∙ get_elem?-append_right (take i con) tail (j - i)
      ∙ ap (get_elem? tail) (sym at')
      ∙ get_elem?-append_right (take remain (drop (suc i) con)) (drop (i + remain) con)
          (j - (i + remain))
      ∙ get_elem?-drop con (i + remain) (j - (i + remain))
      ∙ ap (get_elem? con) next

-- What is left of a server when the connection at index `i` was closed.
pub record Shifted {S : Type 0} (srv : Server S) (i : ℕ) (srv' : Server S) : Type 0 where
  pub counted : srv'.con_count + 1 ≡ srv.con_count
  pub before : (j : ℕ) → j < i → get_elem? srv'.con j ≡ get_elem? srv.con j
  pub later :
      (j : ℕ) → i ≤ j → suc j < srv.con_count → get_elem? srv'.con j ≡ get_elem? srv.con (suc j)
  pub unused : (j : ℕ) → srv'.con_count < j → get_elem? srv'.con j ≡ get_elem? srv.con j
  pub twice :
      suc i < srv.con_count
      → get_elem? srv'.con srv'.con_count ≡ get_elem? srv'.con (srv'.con_count - 1)

-- Closing a connection takes its slot out of the slots in use and moves the later ones down by one,
-- each with its buffers; the slots that were not in use stay. Where it was not the last one, the slot
-- that is given free is the same as the last one in use: both have the same two buffers.
pub close_slot-Shifted :
    (N : Network) (srv : Server N.Sock) (i : ℕ)
    → srv.con_count ≤ length srv.con
    → i < srv.con_count
    → Shifted srv i (close_slot N srv i)
unfolding close_slot
close_slot-Shifted N srv i used h =
    let (slot, e) = get_elem?-some srv.con i (omega arith) in
    let con = set srv.con i (record slot { conn = connection_close N slot.conn }) in
    let remain : ℕ = srv.con_count - i - 1 in
    let fits : i + remain < length con =
      omega (arith, length-set srv.con i (record slot { conn = connection_close N slot.conn })) in
    let same : (j : ℕ) → j ≢ i → get_elem? con j ≡ get_elem? srv.con j =
      λ j other. get_elem?-set_other srv.con i j _ other in
    rw (e, close_slot)
      record {
        counted = omega arith;
        before = λ j lt. moved-before con i remain fits j lt ∙ same j (λ q. omega arith);
        later = λ j le lt.
            moved-within con i remain fits j le (omega arith) ∙ same (suc j) (λ q. omega arith);
        unused = λ j lt. moved-behind con i remain fits j (omega arith) ∙ same j (λ q. omega arith);
        twice = λ more.
            let last : suc (srv.con_count - 1 - 1) ≡ srv.con_count - 1 = omega arith in
            moved-behind con i remain fits (srv.con_count - 1) (omega arith)
            ∙ sym (
                moved-within con i remain fits (srv.con_count - 1 - 1) (omega arith) (omega arith)
                ∙ ap (get_elem? con) last);
      }
