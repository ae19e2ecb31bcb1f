-- ===== src/Mumux/Slots/Incoming.antt =====
-- Connections that come in.
use mathlib.Core.Path.{subst}
use mavicona.Base.{
  ℕ, zero, suc, ◌+◌, ◌-◌, ◌≤◌, ◌<◌, ◌≡◌, ◌≢◌, refl, sym, ◌∙◌, Bool, true, false, Bool-cases,
  Option-cases, bit_or, Option, none, some, [], arith, ◌==◌, if◌then◌else◌, length, length-set,
  get_elem?, set, ◌⊎◌, inl, inr,
}
use mavicona.Base.Int.{ℤ, pos, negsuc, pos_part}
use mavicona.Base.Lookup.{get_elem?-some, get_elem?-set_same, get_elem?-set_other}
use mavicona.Mumux.Socket.{Network, is_neg, is_ok, socket_set_blocking}
use mavicona.Mumux.Connection.{Connection, con_request, connection_reset}
use mavicona.Mumux.Slots.{
  Slot, Server, socket_config_incoming, fresh, kept, fill_slot, on_incoming, accept_loop,
}

-- The array has as many slots as the configuration says, and no more are used.
pub record IsServer {S : Type 0} (srv : Server S) : Type 0 where
  pub slots : length srv.con ≡ srv.connection_max
  pub used : srv.con_count ≤ srv.connection_max

-- A slot has been taken for a connection: it keeps its place, all other slots are as they were.
pub record Taken {S : Type 0} (srv srv' : Server S) (old : Slot S) (conn : Connection S)
    : Type 0 where
  pub was : get_elem? srv.con srv.con_count ≡ some old
  pub here : get_elem? srv'.con srv.con_count ≡ some (record old { conn = conn })
  pub others : (j : ℕ) → j ≢ srv.con_count → get_elem? srv'.con j ≡ get_elem? srv.con j
  pub counted : srv'.con_count ≡ srv.con_count + 1
  pub same_max : srv'.connection_max ≡ srv.connection_max

module _ (N : Network) where
  -- The flags of an accepted socket with O_NONBLOCK among them.
  abbrev pub set_nonblocking : N.Sock → ℤ × N.Sock
  set_nonblocking fd = N.set_flags fd (bit_or (pos_part (N.get_flags fd)) N.o_nonblock)

  -- Both calls of `fcntl` on an accepted socket succeed.
  pub record IsConfigured (fd : N.Sock) : Type 0 where
    pub flags_read : is_neg (N.get_flags fd) ≡ false
    pub flags_set : (set_nonblocking fd).0 ≡ pos 0

  -- One of them fails.
  abbrev pub Misconfigured : N.Sock → Type 0
  Misconfigured fd = (is_neg (N.get_flags fd) ≡ true) ⊎ ((set_nonblocking fd).0 ≢ pos 0)

  -- What is kept of an accepted connection.
  pub record Kept (fd : N.Sock) (conn : Connection N.Sock) : Type 0 where
    pub alive : conn.flags.alive ≡ true
    pub is_fresh : conn.flags.fresh_connection ≡ true
    pub waits : conn.state ≡ con_request
    pub nothing_yet : conn.header_buf.bytes ≡ []
    pub socket : conn.socket ≡ (set_nonblocking fd).1

  -- With a return of 0 there was a free slot, `accept` gave a socket that could be configured, and
  -- the slot was taken for it. Else there was no free slot or no socket, and the server is as it
  -- was; or the socket could not be configured, and the slot was taken for a connection that is
  -- not alive and still has the socket that was in the slot before.
  abbrev pub IncomingOutcome : Server N.Sock → Option N.Sock → Bool → Server N.Sock → Type 0
  IncomingOutcome srv accepted true srv' =
      (fd : N.Sock) × (old : Slot N.Sock) × (conn : Connection N.Sock) × (accepted ≡ some fd)
      × (srv.con_count < srv.connection_max)
      × IsConfigured fd
      × Taken srv srv' old conn
      × Kept fd conn
  IncomingOutcome srv accepted false srv' =
      ((srv' ≡ srv) × ((srv.con_count ≡ srv.connection_max) ⊎ (accepted ≡ none)))
      ⊎ ((fd : N.Sock) × (old : Slot N.Sock) × (conn : Connection N.Sock) × (accepted ≡ some fd)
          × (srv.con_count < srv.connection_max)
          × Misconfigured fd
          × Taken srv srv' old conn
          × (conn.flags.alive ≡ false)
          × (conn.socket ≡ old.conn.socket))

  is_ok-pos : (err : ℤ) → is_ok err ≡ true → err ≡ pos 0
  is_ok-pos (pos n) h = ground arith
  is_ok-pos (negsuc n) h = absurd (cc h)

  is_ok-apart : (err : ℤ) → is_ok err ≡ false → err ≢ pos 0
  is_ok-apart err h e = let no : true ≡ false = rw e at h in cc no

  configured :
      (fd : N.Sock)
      → ((socket_config_incoming N fd ≡ (true, (set_nonblocking fd).1)) × IsConfigured fd)
        ⊎ (((socket_config_incoming N fd).0 ≡ false) × Misconfigured fd)
  unfolding socket_config_incoming socket_set_blocking
  configured fd = elim (Bool-cases (is_neg (N.get_flags fd))) [
    | inl bad ↦ inr (simp bad refl, inl bad)
    | inr good ↦ elim (Bool-cases (is_ok (set_nonblocking fd).0)) [
      | inl fine ↦
          inl (simp (good, fine) refl, record { flags_read = good; flags_set = is_ok-pos _ fine })
      | inr failed ↦ inr (simp (good, failed) refl, inr (is_ok-apart _ failed))
    ]
  ]

module _ (N : Network) where
  taken :
      (srv : Server N.Sock) (old : Slot N.Sock) (conn : Connection N.Sock)
      → IsServer srv
      → srv.con_count < srv.connection_max
      → get_elem? srv.con srv.con_count ≡ some old
      → Taken srv
          (record srv {
            con_count = srv.con_count + 1;
            con = set srv.con srv.con_count (record old { conn = conn });
          })
          old
          conn
  taken srv old conn ok room e = record {
    was = e;
    here =
        get_elem?-set_same srv.con srv.con_count (record old { conn = conn })
          (omega (arith, ok.slots));
    others = λ j h. get_elem?-set_other srv.con srv.con_count j (record old { conn = conn }) h;
    counted = refl;
    same_max = refl;
  }

  fill_slot-Outcome :
      (srv : Server N.Sock) (old : Slot N.Sock) (fd : N.Sock)
      → IsServer srv
      → srv.con_count < srv.connection_max
      → get_elem? srv.con srv.con_count ≡ some old
      → IncomingOutcome N srv (some fd) (fill_slot N srv old fd).0 (fill_slot N srv old fd).1
  unfolding fill_slot connection_reset
  fill_slot-Outcome srv old fd ok room e =
      let new = fresh N srv old.conn in
      elim (configured N fd) [
        | inl (good, both) ↦ rw good (
            let conn = kept N new (set_nonblocking N fd).1 in
            (
              fd,
              old,
              conn,
              refl,
              room,
              both,
              taken srv old conn ok room e,
              record {
                alive = refl;
                is_fresh = refl;
                waits = refl;
                nothing_yet = refl;
                socket = refl;
              },
            ))
        | inr (bad, why) ↦
            rw bad (inr (fd, old, new, refl, room, why, taken srv old new ok room e, refl, refl))
      ]

  -- A call of `wby_on_incoming` on a server whose array has as many slots as the configuration says,
  -- no more of them in use, never writes behind the array. It returns 0 exactly if a slot is free,
  -- `accept` gives a valid socket and both calls of `fcntl` that make it non-blocking succeed: then
  -- the slot behind those in use has a fresh connection that is alive, with that socket and an empty
  -- buffer, and waits for a request. Where all slots are in use, or `accept` gives no valid socket,
  -- the server is as it was. Where a call of `fcntl` fails, the slot is taken for a connection that is
  -- not alive and has the socket of the connection before it.
  pub on_incoming-Outcome :
      (srv : Server N.Sock) (accepted : Option N.Sock)
      → IsServer srv
      → (ok : Bool) × (srv' : Server N.Sock) × (on_incoming N srv accepted ≡ some (ok, srv'))
        × IncomingOutcome N srv accepted ok srv'
  unfolding on_incoming
  on_incoming-Outcome srv none ok = elim (Bool-cases (srv.con_count == srv.connection_max)) [
    | inl full ↦ (false, srv, simp full refl, inl (refl, inr refl))
    | inr room ↦ (false, srv, simp room refl, inl (refl, inr refl))
  ]
  on_incoming-Outcome srv (some fd) ok = elim (Bool-cases (srv.con_count == srv.connection_max)) [
    | inl full ↦ (false, srv, simp full refl, inl (refl, inl (ground (arith, full))))
    | inr room ↦
        let below : srv.con_count < srv.connection_max = ground (arith, room, ok.used) in
        let (old, e) = get_elem?-some srv.con srv.con_count (omega (arith, ok.slots, below)) in
        (
          (fill_slot N srv old fd).0,
          (fill_slot N srv old fd).1,
          rw (e, on_incoming) (simp room refl),
          fill_slot-Outcome srv old fd ok below e,
        )
  ]

-- What a loop of calls leaves: no slot that was in use has changed, and the server is well formed.
pub record Accepted {S : Type 0} (srv after : Server S) : Type 0 where
  pub well_formed : IsServer after
  pub more : srv.con_count ≤ after.con_count
  pub same : (j : ℕ) → j < srv.con_count → get_elem? after.con j ≡ get_elem? srv.con j

module _ {S : Type 0} where
  pub Accepted-refl : (srv : Server S) → IsServer srv → Accepted srv srv
  Accepted-refl srv ok = record { well_formed = ok; more = omega arith; same = λ j h. refl }

  Taken-Accepted :
      (srv srv' : Server S) (old : Slot S) (conn : Connection S)
      → length srv'.con ≡ length srv.con
      → IsServer srv
      → srv.con_count < srv.connection_max
      → Taken srv srv' old conn
      → Accepted srv srv'
  Taken-Accepted srv srv' old conn len ok room t = record {
    well_formed = record {
      slots = len ∙ ok.slots ∙ sym t.same_max;
      used = omega (arith, t.counted, t.same_max);
    };
    more = omega (arith, t.counted);
    same = λ j h. t.others j (λ e. omega arith);
  }

  Accepted-trans : (a b c : Server S) → Accepted a b → Accepted b c → Accepted a c
  Accepted-trans a b c h g = record {
    well_formed = g.well_formed;
    more = omega (arith, h.more, g.more);
    same = λ j l. g.same j (omega (arith, h.more)) ∙ h.same j l;
  }

module _ (N : Network) where
  length-fill_slot :
      (srv : Server N.Sock) (slot : Slot N.Sock) (fd : N.Sock)
      → length (fill_slot N srv slot fd).1.con ≡ length srv.con
  unfolding fill_slot
  length-fill_slot srv slot fd = grind (arith, length-set)

  abbrev LengthIfAny : Server N.Sock → Option (Bool × Server N.Sock) → Type 0
  LengthIfAny srv none = Unit
  LengthIfAny srv (some (ok, srv')) = length srv'.con ≡ length srv.con

  length-on_incoming :
      (srv : Server N.Sock) (accepted : Option N.Sock)
      → LengthIfAny srv (on_incoming N srv accepted)
  unfolding on_incoming
  length-on_incoming srv none = elim (Bool-cases (srv.con_count == srv.connection_max)) [
    | inl full ↦ rw (full, on_incoming) refl
    | inr room ↦ rw (room, on_incoming) refl
  ]
  length-on_incoming srv (some fd) = elim (Bool-cases (srv.con_count == srv.connection_max)) [
    | inl full ↦ rw (full, on_incoming) refl
    | inr room ↦ elim (Option-cases (get_elem? srv.con srv.con_count)) [
      | inl e ↦ rw (room, e, on_incoming) tt
      | inr (slot, e) ↦ rw (room, e, on_incoming) (length-fill_slot srv slot fd)
    ]
  ]

  -- The loop ends from `srv` on, within the fuel.
  abbrev Ends : ℕ → Server N.Sock → (ℕ → Option N.Sock) → Type 0
  Ends fuel srv answers =
      (after : Server N.Sock) × (accept_loop N fuel srv answers ≡ some after) × Accepted srv after

  accept_step :
      (fuel : ℕ) (srv : Server N.Sock) (answers : ℕ → Option N.Sock) (ok : Bool)
      → (srv' : Server N.Sock) → IsServer srv
      → length srv'.con ≡ length srv.con
      → srv.connection_max - srv.con_count < suc fuel
      → ((next : Server N.Sock)
          → IsServer next
          → next.connection_max - next.con_count < fuel
          → Ends fuel next (λ n. answers (suc n)))
      → IncomingOutcome N srv (answers 0) ok srv'
      → (after : Server N.Sock) × ((if ok
            then accept_loop N fuel srv' (λ n. answers (suc n))
            else some srv')
          ≡ some after)
        × Accepted srv after
  accept_step fuel srv answers true srv' v len enough next (fd, old, conn, e, room, both, t, k) =
      let step = Taken-Accepted srv srv' old conn len v room t in
      let (after, ends, h) = next srv' step.well_formed (omega (arith, t.counted, t.same_max)) in
      (after, ends, Accepted-trans srv srv' after step h)
  accept_step fuel srv answers false srv' v len enough next (inl (same, why)) =
      (srv', refl, subst (Accepted srv) (sym same) (Accepted-refl srv v))
  accept_step fuel srv answers false srv' v len enough next
        (inr (fd, old, conn, e, room, why, t, _, _)) =
      (srv', refl, Taken-Accepted srv srv' old conn len v room t)

  -- However many connections come in, the loop of `wby_update` that accepts them ends, within one
  -- call more than there are free slots, and never writes behind the array; the slots in use stay as
  -- they are.
  pub accept_loop-Accepted :
      (fuel : ℕ) (srv : Server N.Sock) (answers : ℕ → Option N.Sock)
      → IsServer srv
      → srv.connection_max - srv.con_count < fuel
      → (after : Server N.Sock) × (accept_loop N fuel srv answers ≡ some after) × Accepted srv after
  unfolding accept_loop
  accept_loop-Accepted zero srv answers v enough = absurd (omega arith)
  accept_loop-Accepted (suc fuel) srv answers v enough =
      let (ok, srv', e, outcome) = on_incoming-Outcome N srv (answers 0) v in
      let len : length srv'.con ≡ length srv.con = rw e at (length-on_incoming srv (answers 0)) in
      rw (e, accept_loop)
        (accept_step fuel srv answers ok srv' v len enough
          (λ next v' left. accept_loop-Accepted fuel next (λ n. answers (suc n)) v' left) outcome)
