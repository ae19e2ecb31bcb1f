-- ===== src/Mumux/Socket/Loopback.antt =====
-- A concrete socket for runs: it takes at most three bytes and gives at most two at a time.
use mavicona.Base.{
  Bool, true, ◌==◌, if◌then◌else◌, ℕ, ◌≤◌, refl, List, [], ◌∷◌, ◌++◌, arith, length, length-take,
  take, drop, min,
}
use mavicona.Base.Int.{ℤ, pos, negsuc}
use mavicona.Mumux.Socket.{Network, bytes_of, Recv, received, failed}
use mavicona.Mumux.Socket.Send.{SendLaws, IsReliable}
use mavicona.Mumux.Socket.Reading.{RecvLaws}

pub record Pipe : Type 0 where
  pub sent : List ℕ
  pub given : List ℕ
  pub incoming : List ℕ
  pub blocking : Bool
  pub closed : Bool

abbrev pub pipe_send : Pipe → List ℕ → ℤ × Pipe
pipe_send p bytes =
    let n = min 3 (length bytes) in (pos n, record p { sent = p.sent ++ take n bytes })

-- The first bytes of the input, or the error 11 on an empty one.
abbrev pub first_of : List ℕ → ℕ → Recv
first_of [] n = failed 11
first_of (b ∷ bs) n = received (take (min 2 n) (b ∷ bs))

abbrev pub pipe_recv : Pipe → ℕ → Recv × Pipe
pipe_recv p n = (
  first_of p.incoming n,
  record p {
    given = p.given ++ bytes_of (first_of p.incoming n);
    incoming = drop (min 2 n) p.incoming;
  },
)

abbrev pub pipe_flags : Pipe → ℤ
pipe_flags p = if p.closed then negsuc 0 else if p.blocking then pos 0 else pos 0x800

abbrev pub loopback : Network
loopback = record {
  Sock = Pipe;
  send = pipe_send;
  recv = pipe_recv;
  eagain = 11;
  get_flags = pipe_flags;
  set_flags = λ p flags. (pos 0, record p { blocking = flags == 0 });
  o_nonblock = 0x800;
  close = λ p. record p { closed = true };
  is_invalid = λ p. p.closed;
}

abbrev pub loopback_send_laws : SendLaws loopback
loopback_send_laws = record {
  sent = λ p. p.sent;
  send-bound = λ p bytes. omega arith;
  send-sent = λ p bytes. refl;
}

pub first_of-bound : (incoming : List ℕ) (n : ℕ) → length (bytes_of (first_of incoming n)) ≤ n
first_of-bound [] n = omega arith
first_of-bound (b ∷ bs) n = omega (arith, length-take (min 2 n) (b ∷ bs))

abbrev pub loopback_recv_laws : RecvLaws loopback
loopback_recv_laws = record {
  given = λ p. p.given;
  recv-bound = λ p n. first_of-bound p.incoming n;
  recv-given = λ p n. refl;
}

pub loopback_reliable : IsReliable loopback
loopback_reliable p b bytes = ground arith
