-- ===== src/Mumux/Update/Closing.antt =====
-- The closing of stale connections, on the slots in use.
use mathlib.Core.Path.{ap₂}
use mavicona.Base.{
  ℕ, zero, suc, ◌+◌, ◌-◌, ◌≤◌, ◌<◌, ◌≡◌, refl, sym, ap, ◌∙◌, true, Bool-cases, Option-cases, none,
  some, List, ◌++◌, arith, append_assoc, map, length, length-append, length-take, length-drop,
  length-set, length-map, take, drop, get_elem?, set, take-append_length, inl, inr,
}
use mavicona.Base.Lookup.{get_elem?-some}
use mavicona.Base.Slices.{
  take-set, drop-set, take-take, drop-take, map-take, map-drop, map-append, map_option,
  get_elem?-map, get_elem?-lt,
}
use mavicona.Mumux.Socket.{Network}
use mavicona.Mumux.Connection.{Connection, connection_close}
use mavicona.Mumux.Server.{compact_loop, compact}
use mavicona.Mumux.Server.Compact.{with_alive, compact-with_alive}
use mavicona.Mumux.Serve.{Config, Surroundings}
use mavicona.Mumux.Slots.{Slot, Server, close_slot}
use mavicona.Mumux.Update.{close_loop, close_stale, tell_closed}

-- The connections in use.
abbrev pub used : {S : Type 0} → Server S → List (Connection S)
used srv = map (λ s. s.conn) (take srv.con_count srv.con)

module _ (N : Network) (srv : Server N.Sock) (i : ℕ) (within : srv.con_count ≤ length srv.con)
    (h : i < srv.con_count) where
  take-close_slot :
      take (close_slot N srv i).con_count (close_slot N srv i).con
      ≡ take i (take srv.con_count srv.con) ++ drop (suc i) (take srv.con_count srv.con)
  unfolding close_slot
  take-close_slot =
      let (slot, e) = get_elem?-some srv.con i (omega arith) in
      let con = set srv.con i (record slot { conn = connection_close N slot.conn }) in
      let remain : ℕ = srv.con_count - i - 1 in
      let len = length-set srv.con i (record slot { conn = connection_close N slot.conn }) in
      let size : srv.con_count - 1 ≡ length (take i con ++ take remain (drop (suc i) con)) = omega (
        arith,
        len,
        length-append (take i con) (take remain (drop (suc i) con)),
        length-take i con,
        length-take remain (drop (suc i) con),
        length-drop (suc i) con,
      ) in
      let short : srv.con_count - suc i ≡ remain = omega arith in
      rw (e, close_slot)
        (ap (take (srv.con_count - 1)) (
            sym
              (append_assoc (take i con) (take remain (drop (suc i) con)) (drop (i + remain) con)))
          ∙ take-append_length (take i con ++ take remain (drop (suc i) con))
              (drop (i + remain) con) (srv.con_count - 1) size
          ∙ ap₂ (λ a b. a ++ take remain b) (take-set srv.con i _) (drop-set srv.con i _)
          ∙ ap₂ (λ a b. a ++ b) (sym (take-take i srv.con_count srv.con (omega arith)))
              (ap (λ n. take n (drop (suc i) srv.con)) (sym short)
                ∙ sym (drop-take (suc i) srv.con_count srv.con)))

  within-close_slot : (close_slot N srv i).con_count ≤ length (close_slot N srv i).con
  unfolding close_slot
  within-close_slot =
      let (slot, e) = get_elem?-some srv.con i (omega arith) in
      let con = set srv.con i (record slot { conn = connection_close N slot.conn }) in
      let remain : ℕ = srv.con_count - i - 1 in
      rw (e, close_slot)
        (omega (
          arith,
          length-set srv.con i (record slot { conn = connection_close N slot.conn }),
          length-append (take i con) (take remain (drop (suc i) con) ++ drop (i + remain) con),
          length-append (take remain (drop (suc i) con)) (drop (i + remain) con),
          length-take i con,
          length-take remain (drop (suc i) con),
          length-drop (suc i) con,
          length-drop (i + remain) con,
        ))

-- A slot in use is changed and then closed.
module _ (N : Network) (srv : Server N.Sock) (i : ℕ) (v : Slot N.Sock)
    (within : srv.con_count ≤ length srv.con) (h : i < srv.con_count) where
  abbrev changed : Server N.Sock
  changed = record srv { con = set srv.con i v }

  within-changed : srv.con_count ≤ length changed.con
  within-changed = omega (arith, length-set srv.con i v, within)

  used-close_changed : used (close_slot N changed i) ≡ take i (used srv) ++ drop (suc i) (used srv)
  used-close_changed =
      let n = srv.con_count in
      let front : take i (take n (set srv.con i v)) ≡ take i (take n srv.con) =
        take-take i n (set srv.con i v) (omega arith)
        ∙ take-set srv.con i v
        ∙ sym (take-take i n srv.con (omega arith)) in
      let behind : drop (suc i) (take n (set srv.con i v)) ≡ drop (suc i) (take n srv.con) =
        drop-take (suc i) n (set srv.con i v)
        ∙ ap (take (n - suc i)) (drop-set srv.con i v)
        ∙ sym (drop-take (suc i) n srv.con) in
      ap (map (λ s. s.conn))
        (take-close_slot N changed i within-changed h ∙ ap₂ (λ a b. a ++ b) front behind)
      ∙ map-append (λ s. s.conn) (take i (take n srv.con)) (drop (suc i) (take n srv.con))
      ∙ ap₂ (λ a b. a ++ b) (map-take (λ s. s.conn) i (take n srv.con))
          (map-drop (λ s. s.conn) (suc i) (take n srv.con))

module _ (N : Network) (cfg : Config N.Sock) (env : Surroundings) (fuel : ℕ)
    (ws_closed : Connection N.Sock → Connection N.Sock) where
  -- The loop on the array does to the connections in use what the compaction of a list does.
  close_loop-compact :
      (n i : ℕ) (srv : Server N.Sock)
      → srv.con_count ≤ length srv.con
      → (used (close_loop N cfg env fuel ws_closed n i srv) ≡ (compact_loop n i (used srv)).0)
        × ((close_loop N cfg env fuel ws_closed n i srv).con_count
            ≤ length (close_loop N cfg env fuel ws_closed n i srv).con)
  unfolding close_loop compact_loop
  close_loop-compact zero i srv h = (refl, h)
  close_loop-compact (suc n) i srv h =
      elim (Option-cases (get_elem? (take srv.con_count srv.con) i)) [
        | inl e ↦
            let f : get_elem? (used srv) i ≡ none =
              get_elem?-map (λ s. s.conn) (take srv.con_count srv.con) i
              ∙ ap (map_option (λ s. s.conn)) e in
            rw (e, close_loop) (rw (f, compact_loop) (refl, h))
        | inr (slot, e) ↦
            let f : get_elem? (used srv) i ≡ some slot.conn =
              get_elem?-map (λ s. s.conn) (take srv.con_count srv.con) i
              ∙ ap (map_option (λ s. s.conn)) e in
            let lt : i < srv.con_count = omega (
              arith,
              get_elem?-lt (take srv.con_count srv.con) i slot e,
              length-take srv.con_count srv.con,
            ) in
            let v = record slot { conn = tell_closed N cfg env fuel ws_closed slot.conn } in
            let told = changed N srv i v h lt in
            let rest =
              close_loop-compact n i (close_slot N told i)
                (within-close_slot N told i (within-changed N srv i v h lt) lt) in
            let further = close_loop-compact n (suc i) srv h in
            let same = used-close_changed N srv i v h lt in
            rw (e, close_loop)
              (rw (f, compact_loop)
                (elim (Bool-cases slot.conn.flags.alive) [
                  | inl alive ↦ simp alive further
                  | inr dead ↦ simp dead (rest.0 ∙ ap (λ l. (compact_loop n i l).0) same, rest.1)
                ]))
      ]

  -- The last loop of `wby_update` leaves in use exactly the connections that are alive, in their
  -- order, and no more slots than there are.
  pub used-close_stale :
      (srv : Server N.Sock)
      → srv.con_count ≤ length srv.con
      → (used (close_stale N cfg env fuel ws_closed srv) ≡ with_alive true (used srv))
        × ((close_stale N cfg env fuel ws_closed srv).con_count
            ≤ length (close_stale N cfg env fuel ws_closed srv).con)
  unfolding close_stale compact
  used-close_stale srv h =
      let loop = close_loop-compact srv.con_count 0 srv h in
      let size : srv.con_count ≡ length (used srv) = omega (
        arith,
        length-map (take srv.con_count srv.con) (λ s. s.conn),
        length-take srv.con_count srv.con,
      ) in
      (
        loop.0
            ∙ ap (λ n. (compact_loop n 0 (used srv)).0) size
            ∙ ap (λ r. r.0) (compact-with_alive (used srv)),
        loop.1,
      )
