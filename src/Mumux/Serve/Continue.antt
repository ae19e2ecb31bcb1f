-- ===== src/Mumux/Serve/Continue.antt =====
-- The state WBY_CON_STATE_SEND_CONTINUE.
use mavicona.Base.{
  ℕ, ◌+◌, ◌-◌, ◌≤◌, ◌≡◌, refl, sym, ap, ◌∙◌, true, false, Bool-cases, List, ◌++◌, arith, ◌==◌,
  length, length-drop, take, drop, take-append-drop, append-nil, drop-drop, inl, inr, if◌then◌else◌,
}
use mavicona.Base.Int.{ℤ, pos, negsuc, pos_part}
use mavicona.Mumux.Socket.{Network, is_neg}
use mavicona.Mumux.Socket.Send.{SendLaws}
use mavicona.Mumux.Connection.{Connection, ConState, con_serve}
use mavicona.Mumux.Serve.{
  Config, Surroundings, Next, again, return, continue_header, continue_round,
}

-- What is left of the header to send.
abbrev pub to_send : {S : Type 0} → Connection S → List ℕ
to_send conn = drop (length continue_header - conn.continue_data_left) continue_header

-- What a round makes of a connection: it sent `new`, the next bytes of the header.
pub record Continued (N : Network) (L : SendLaws N) (conn conn' : Connection N.Sock) : Type 0 where
  pub new : List ℕ
  pub sends : L.sent conn'.socket ≡ L.sent conn.socket ++ new
  pub rest : new ++ to_send conn' ≡ to_send conn
  pub within : conn'.continue_data_left ≤ length continue_header

-- The round goes on, to WBY_CON_STATE_SERVE exactly if nothing is left to send, or it ends the
-- connection because `send` failed.
abbrev pub ContinueOutcome : (N : Network) → SendLaws N → Connection N.Sock → Next N.Sock → Type 0
ContinueOutcome N L conn (again conn') =
    Continued N L conn conn'
    × (conn'.state ≡ (if conn'.continue_data_left == 0 then con_serve else conn.state))
    × (conn'.flags ≡ conn.flags)
ContinueOutcome N L conn (return conn') =
    (L.sent conn'.socket ≡ L.sent conn.socket) × (conn'.flags.alive ≡ false)

pos_part-is_neg : (z : ℤ) → is_neg z ≡ true → pos_part z ≡ 0
pos_part-is_neg (pos n) h = ground arith
pos_part-is_neg (negsuc n) h = refl

module _ (N : Network) (L : SendLaws N) (cfg : Config N.Sock) (env : Surroundings) where
  -- A round of WBY_CON_STATE_SEND_CONTINUE sends the next bytes of the header, and goes on with what
  -- is then left, to WBY_CON_STATE_SERVE exactly if that is nothing; where `send` fails it sends
  -- nothing and ends the connection.
  pub continue_round-Outcome :
      (conn : Connection N.Sock)
      → conn.continue_data_left ≤ length continue_header
      → ContinueOutcome N L conn (continue_round N cfg env conn)
  unfolding continue_round
  continue_round-Outcome conn h =
      let written = (N.send conn.socket (to_send conn)).0 in
      let n : ℕ = pos_part written in
      let bound = L.send-bound conn.socket (to_send conn) in
      let size = length-drop (length continue_header - conn.continue_data_left) continue_header in
      let at : length continue_header - conn.continue_data_left + n
          ≡ length continue_header - (conn.continue_data_left - n) =
        omega (arith, bound, size) in
      let went_on : (s : ConState)
          → Continued N L conn (record conn {
            socket = (N.send conn.socket (to_send conn)).1;
            continue_data_left = conn.continue_data_left - n;
            state = s;
          }) =
        λ s. record {
          new = take n (to_send conn);
          sends = L.send-sent conn.socket (to_send conn);
          rest =
              ap (λ t. take n (to_send conn) ++ t)
                (ap (λ t. drop t continue_header) (sym at)
                  ∙ sym (
                      drop-drop n (length continue_header - conn.continue_data_left)
                        continue_header))
              ∙ take-append-drop n (to_send conn);
          within = omega arith;
        } in
      elim (Bool-cases (is_neg written)) [
        | inl bad ↦ rw bad (
          L.send-sent conn.socket (to_send conn)
              ∙ ap (λ k. L.sent conn.socket ++ take k (to_send conn)) (pos_part-is_neg written bad)
              ∙ append-nil (L.sent conn.socket),
          refl,
        )
        | inr good ↦ elim (Bool-cases (conn.continue_data_left - n == 0)) [
          | inl all ↦ rw (good, all) (went_on con_serve, rw all refl, refl)
          | inr some_left ↦ rw (good, some_left) (went_on conn.state, rw some_left refl, refl)
        ]
      ]
