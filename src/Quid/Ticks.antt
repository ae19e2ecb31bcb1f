-- ===== src/Quid/Ticks.antt =====
-- The loop that counts the identifiers of a tick.
use mavicona.Base.{ℕ, ◌+◌, ◌≤◌, ◌≡◌, ◌≢◌, ◌⊎◌}
use mavicona.Quid.{Clock, uids_per_tick}

-- A call that ended: the timestamp is the time of the tick and the count in it. The count went up by
-- one within the same tick, or a new tick has begun, at a time that was read.
pub record Ticked (clock : Clock) (times : ℕ → ℕ) (timestamp : ℕ) (clock' : Clock) : Type 0 where
  pub stamp : timestamp ≡ clock'.time_last + clock'.ids_this_tick
  pub counted : clock'.ids_this_tick ≤ uids_per_tick
  pub same_inited : clock'.inited ≡ clock.inited
  pub tick :
      ((clock'.time_last ≡ clock.time_last) × (clock'.ids_this_tick ≡ clock.ids_this_tick + 1))
      ⊎ ((clock'.time_last ≢ clock.time_last)
          × (clock'.ids_this_tick ≡ 0)
          × ((n : ℕ) × (clock'.time_last ≡ times n)))
