-- ===== src/Mumux/Update/Turn.antt =====
-- A turn of the server.
use mavicona.Base.{
  ℕ, suc, ◌≤◌, ◌<◌, ◌≡◌, ◌≢◌, refl, ap, ◌∙◌, true, false, Bool-cases, Option-cases, Option, none,
  some, List, [], ◌∷◌, ◌++◌, arith, map, length, length-append, length-take, take, drop,
  take-append_length, get_elem?, inl, inr, ◌⊎◌,
}
use mavicona.Mumux.Socket.{Network}
use mavicona.Mumux.Connection.{Connection, ConState, con_send_continue}
use mavicona.Mumux.Server.Compact.{with_alive}
use mavicona.Mumux.Serve.{Config, Surroundings, update_connection}
use mavicona.Mumux.Slots.{Slot, Server, accept_loop}
use mavicona.Mumux.Slots.Incoming.{IsServer, Accepted, Accepted-refl, accept_loop-Accepted}
use mavicona.Mumux.Update.{
  Interest, Ready, interest, read_sockets, write_sockets, sends_continue, is_due, update_slots,
  close_stale, update,
}
use mavicona.Mumux.Update.Closing.{used, used-close_stale}

sends_continue-eq : (state : ConState) → sends_continue state ≡ true → state ≡ con_send_continue
sends_continue-eq con_send_continue h = refl
sends_continue-eq _ h = absurd (cc h)

module _ {S : Type 0} where
  -- The slots in use.
  abbrev pub in_use : Server S → List (Slot S)
  in_use srv = take srv.con_count srv.con

  -- The sockets of the connections that are sending 100 Continue, in the order of their slots.
  pub data Sending : List (Slot S) → List S → Type 0 where
    no_slots : Sending [] []
    sends :
        {slot : Slot S} {slots : List (Slot S)} {sockets : List S}
        → slot.conn.state ≡ con_send_continue
        → Sending slots sockets
        → Sending (slot ∷ slots) (slot.conn.socket ∷ sockets)
    other :
        {slot : Slot S} {slots : List (Slot S)} {sockets : List S}
        → slot.conn.state ≢ con_send_continue
        → Sending slots sockets
        → Sending (slot ∷ slots) sockets

  -- What `select` is asked about: the listening socket if there is a free slot, all connections for
  -- reading, and those that are sending 100 Continue for writing.
  pub record IsAsked (srv : Server S) (asked : Interest S) : Type 0 where
    pub listens_if_free : srv.con_count < srv.connection_max → asked.listens ≡ true
    pub silent_if_full : srv.con_count ≡ srv.connection_max → asked.listens ≡ false
    pub reads_all : asked.reads ≡ map (λ slot. slot.conn.socket) (in_use srv)
    pub writes_sending : Sending (in_use srv) asked.writes

  -- No two slots of the array have a buffer at the same place. The buffers are kept with their
  -- connections here, which is what the code does on such an array and on no other.
  abbrev pub IsUnshared : Server S → Type 0
  IsUnshared srv =
      (i j : ℕ) (a b : Slot S)
      → i < j
      → get_elem? srv.con i ≡ some a
      → get_elem? srv.con j ≡ some b
      → (a.place.header_data ≢ b.place.header_data) × (a.place.io_data ≢ b.place.io_data)

  read_sockets-map :
      (slots : List (Slot S)) → read_sockets slots ≡ map (λ slot. slot.conn.socket) slots
  unfolding read_sockets
  read_sockets-map [] = refl
  read_sockets-map (slot ∷ slots) = ap (λ l. slot.conn.socket ∷ l) (read_sockets-map slots)

  write_sockets-Sending : (slots : List (Slot S)) → Sending slots (write_sockets slots)
  unfolding write_sockets
  write_sockets-Sending [] = no_slots
  write_sockets-Sending (slot ∷ slots) = elim (Bool-cases (sends_continue slot.conn.state)) [
    | inl e ↦ simp e (sends (sends_continue-eq slot.conn.state e) (write_sockets-Sending slots))
    | inr e ↦ simp e (
        other (λ same. let no : true ≡ false = rw same at e in cc no) (write_sockets-Sending slots))
  ]

  interest-IsAsked : (srv : Server S) → IsAsked srv (interest srv)
  unfolding interest
  interest-IsAsked srv = record {
    listens_if_free = λ h. ground (arith, h);
    silent_if_full = λ h. ground (arith, h);
    reads_all = read_sockets-map (in_use srv);
    writes_sending = write_sockets-Sending (in_use srv);
  }

module _ (N : Network) (cfg : Config N.Sock) (env : Surroundings) (fuel : ℕ)
    (ws_closed : Connection N.Sock → Connection N.Sock) where
  -- `select` found the socket ready for reading or writing, or the connection has just come in.
  abbrev pub IsDue : Ready N.Sock → Connection N.Sock → Type 0
  IsDue ready conn =
      (ready.can_read conn.socket ≡ true)
      ⊎ ((ready.can_write conn.socket ≡ true) ⊎ (conn.flags.fresh_connection ≡ true))

  pub record IsIdle (ready : Ready N.Sock) (conn : Connection N.Sock) : Type 0 where
    pub no_read : ready.can_read conn.socket ≡ false
    pub no_write : ready.can_write conn.socket ≡ false
    pub not_fresh : conn.flags.fresh_connection ≡ false

  -- The slots before and behind the loop over the connections: those that are due have been worked
  -- on, all others are as they were.
  pub data Worked (ready : Ready N.Sock) : List (Slot N.Sock) → List (Slot N.Sock) → Type 0 where
    none_left : Worked ready [] []
    worked :
        {slot : Slot N.Sock} {conn : Connection N.Sock} {slots slots' : List (Slot N.Sock)}
        → IsDue ready slot.conn
        → update_connection N cfg env fuel slot.conn ≡ some conn
        → Worked ready slots slots'
        → Worked ready (slot ∷ slots) (record slot { conn = conn } ∷ slots')
    passed :
        {slot : Slot N.Sock} {slots slots' : List (Slot N.Sock)}
        → IsIdle ready slot.conn
        → Worked ready slots slots'
        → Worked ready (slot ∷ slots) (slot ∷ slots')

  -- Some connection is due whose own loop does not end within the fuel.
  pub data Stuck (ready : Ready N.Sock) : List (Slot N.Sock) → Type 0 where
    stuck_here :
        {slot : Slot N.Sock} {slots : List (Slot N.Sock)}
        → IsDue ready slot.conn
        → update_connection N cfg env fuel slot.conn ≡ none
        → Stuck ready (slot ∷ slots)
    stuck_later :
        {slot : Slot N.Sock} {slots : List (Slot N.Sock)}
        → Stuck ready slots
        → Stuck ready (slot ∷ slots)

  IsDue-cases :
      (ready : Ready N.Sock) (conn : Connection N.Sock)
      → ((is_due N cfg env fuel ws_closed ready conn ≡ true) × IsDue ready conn)
        ⊎ ((is_due N cfg env fuel ws_closed ready conn ≡ false) × IsIdle ready conn)
  IsDue-cases ready conn = elim (Bool-cases (ready.can_read conn.socket)) [
    | inl e ↦ inl (rw e refl, inl e)
    | inr no_read ↦ elim (Bool-cases (ready.can_write conn.socket)) [
      | inl e ↦ inl (rw (no_read, e) refl, inr (inl e))
      | inr no_write ↦ elim (Bool-cases conn.flags.fresh_connection) [
        | inl e ↦ inl (rw (no_read, no_write) e, inr (inr e))
        | inr old ↦ inr (
          rw (no_read, no_write) old,
          record { no_read = no_read; no_write = no_write; not_fresh = old },
        )
      ]
    ]
  ]

  abbrev WorkedIfAny : Ready N.Sock → List (Slot N.Sock) → Option (List (Slot N.Sock)) → Type 0
  WorkedIfAny ready slots none = Stuck ready slots
  WorkedIfAny ready slots (some slots') = Worked ready slots slots'

  update_slots-Worked :
      (ready : Ready N.Sock) (slots : List (Slot N.Sock))
      → WorkedIfAny ready slots (update_slots N cfg env fuel ws_closed ready slots)
  unfolding update_slots
  update_slots-Worked ready [] = none_left
  update_slots-Worked ready (slot ∷ slots) =
      let later = update_slots-Worked ready slots in
      let rest = update_slots N cfg env fuel ws_closed ready slots in
      elim (IsDue-cases ready slot.conn) [
        | inl (e, due) ↦ elim (Option-cases (update_connection N cfg env fuel slot.conn)) [
          | inl none_there ↦ rw (e, none_there, update_slots) (stuck_here due none_there)
          | inr (conn, updated) ↦ elim (Option-cases rest) [
            | inl r ↦ rw (e, updated, r, update_slots) (stuck_later (rw r at later))
            | inr (slots', r) ↦
                rw (e, updated, r, update_slots) (worked due updated (rw r at later))
          ]
        ]
        | inr (e, idle) ↦ elim (Option-cases rest) [
          | inl r ↦ rw (e, r, update_slots) (stuck_later (rw r at later))
          | inr (slots', r) ↦ rw (e, r, update_slots) (passed idle (rw r at later))
        ]
      ]

  Worked-length :
      {ready : Ready N.Sock} {slots slots' : List (Slot N.Sock)}
      → Worked ready slots slots'
      → length slots' ≡ length slots
  Worked-length none_left = refl
  Worked-length (worked due e h) = ap suc (Worked-length h)
  Worked-length (passed idle h) = ap suc (Worked-length h)

  -- What a turn comes to on the server `srv` whose incoming connections have been accepted.
  abbrev pub TurnOutcome : Ready N.Sock → Server N.Sock → Option (Server N.Sock) → Type 0
  TurnOutcome ready srv none = Stuck ready (in_use srv)
  TurnOutcome ready srv (some after) =
      (slots : List (Slot N.Sock)) × Worked ready (in_use srv) slots
      × (used after ≡ with_alive true (map (λ s. s.conn) slots))
      × (after.con_count ≤ length after.con)

  -- The part of a turn behind the loop over the connections.
  after_slots :
      (ready : Ready N.Sock) (srv : Server N.Sock) (o : Option (List (Slot N.Sock)))
      → IsServer srv
      → WorkedIfAny ready (in_use srv) o
      → TurnOutcome ready srv (elim o [
        | none ↦ none
        | some slots ↦ some (
            close_stale N cfg env fuel ws_closed
              (record srv { con = slots ++ drop srv.con_count srv.con }))
      ])
  after_slots ready srv none v h = h
  after_slots ready srv (some slots) v h =
      let con = slots ++ drop srv.con_count srv.con in
      let front : srv.con_count ≡ length slots =
        omega (arith, Worked-length h, v.slots, v.used, length-take srv.con_count srv.con) in
      let closed =
        used-close_stale N cfg env fuel ws_closed (record srv { con = con })
          (omega (arith, front, length-append slots (drop srv.con_count srv.con))) in
      (
        slots,
        h,
        closed.0
            ∙ ap (λ l. with_alive true (map (λ s. s.conn) l))
                (take-append_length slots (drop srv.con_count srv.con) srv.con_count front),
        closed.1,
      )

  -- Where `select` answers and no two slots of a well-formed server share a buffer: `select` was asked
  -- about the listening socket just if there is a free slot, about all connections in use for reading,
  -- and about those that send 100 Continue for writing. If the listening socket is ready, the loop that
  -- accepts what comes in runs first; it ends and leaves the slots in use as they were. If it is not
  -- ready, nothing is accepted.
  -- Then the connections in use that are ready for reading or writing, or have just come in, are
  -- worked on, and all others stay as they are. If the loop of one of them does not end within the
  -- fuel, the turn does not; else it ends, and leaves in use those connections that are alive, in their
  -- order.
  pub update-TurnOutcome :
      (select : Interest N.Sock → Option (Ready N.Sock)) (answers : ℕ → Option N.Sock)
      → (ready : Ready N.Sock) (srv : Server N.Sock) → IsServer srv
      → IsUnshared srv
      → select (interest srv) ≡ some ready
      → IsAsked srv (interest srv)
        × (filled : Server N.Sock) × Accepted srv filled
        × (ready.incoming ≡ true → accept_loop N (suc srv.connection_max) srv answers ≡ some filled)
        × (ready.incoming ≡ false → filled ≡ srv)
        × TurnOutcome ready filled (update N cfg env fuel ws_closed select answers srv)
  unfolding update
  update-TurnOutcome select answers ready srv v unshared e = elim (Bool-cases ready.incoming) [
    | inl incoming ↦
        let (filled, ends, accepted) =
          accept_loop-Accepted N (suc srv.connection_max) srv answers v (omega arith) in
        (
          interest-IsAsked srv,
          filled,
          accepted,
          λ _. ends,
          λ quiet. cc,
          rw (e, update)
              (simp incoming (
                rw (ends, update)
                  (after_slots ready filled _ accepted.well_formed
                    (update_slots-Worked ready (in_use filled))))),
        )
    | inr quiet ↦ (
      interest-IsAsked srv,
      srv,
      Accepted-refl srv v,
      λ incoming. cc,
      λ _. refl,
      rw (e, update)
          (simp quiet (after_slots ready srv _ v (update_slots-Worked ready (in_use srv)))),
    )
  ]
