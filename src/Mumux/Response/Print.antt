-- ===== src/Mumux/Response/Print.antt =====
-- What `wby_printf` adds to the output of a connection.
use mavicona.Base.{
  ℕ, ◌^◌, sym, ◌<◌, ◌≡◌, refl, ap, ◌∙◌, true, false, Bool-cases, List, [], ◌∷◌, ◌++◌, append_assoc,
  arith, ltb, length, inl, inr,
}
use mathlib.Core.Path.{subst}
use mavicona.Mumux.Socket.{Network}
use mavicona.Mumux.Socket.Send.{SendLaws, IsReliable}
use mavicona.Mumux.Connection.{Connection, connection_push, is_serve}
use mavicona.Mumux.Connection.Stream.{IsServing, output, output-push}
use mavicona.Mumux.Write.{write}
use mavicona.Mumux.Write.Length.{push_int-connection_push}
use mavicona.Mumux.Write.Chunk.{push-IsServing}
use mavicona.Mumux.Response.{printf, printed}

-- A connection that serves, is no WebSocket and not within a chunked response.
pub record IsPlain {S : Type 0} (conn : Connection S) : Type 0 where
  pub serving : IsServing conn
  pub no_websocket : conn.flags.websocket ≡ false
  pub no_chunks : conn.flags.chunked_response ≡ false

-- `conn'` is `conn` after `text` was added to its output.
pub record Printed (N : Network) (L : SendLaws N) (conn : Connection N.Sock) (text : List ℕ)
    (conn' : Connection N.Sock) : Type 0 where
  pub adds : output N L conn' ≡ output N L conn ++ text
  pub serving : IsServing conn'
  pub same_flags : conn'.flags ≡ conn.flags
  pub same_request : conn'.request ≡ conn.request

module _ (N : Network) (L : SendLaws N) where
  -- `some` of both parts, whichever way the test goes.
  pub push_keeps :
      (conn : Connection N.Sock) (bytes : List ℕ)
      → ((connection_push N conn bytes).1.flags ≡ conn.flags)
        × ((connection_push N conn bytes).1.request ≡ conn.request)
  unfolding connection_push
  push_keeps conn [] = elim (Bool-cases (is_serve conn.state)) [
    | inl e ↦ rw e (refl, refl)
    | inr e ↦ rw e (refl, refl)
  ]
  push_keeps conn (b ∷ bs) = elim (Bool-cases (is_serve conn.state)) [
    | inl e ↦ rw e (refl, refl)
    | inr e ↦ rw e (refl, refl)
  ]

  pub push-Printed :
      (conn : Connection N.Sock) (bytes : List ℕ)
      → IsReliable N
      → IsServing conn
      → Printed N L conn bytes (connection_push N conn bytes).1
  push-Printed conn bytes r v = record {
    adds = (output-push N L conn bytes r v).1;
    serving = push-IsServing N L conn bytes v;
    same_flags = (push_keeps conn bytes).0;
    same_request = (push_keeps conn bytes).1;
  }

  write_plain :
      (conn : Connection N.Sock) (bytes : List ℕ)
      → IsPlain conn
      → length bytes < 2 ^ 31
      → connection_push N conn bytes ≡ write N conn bytes
  unfolding write
  write_plain conn bytes p short =
      simp (p.no_websocket, p.no_chunks) (sym (push_int-connection_push N conn bytes short))

  pub printf-Printed :
      (behind : ℕ → List ℕ) (conn : Connection N.Sock) (text : List ℕ)
      → IsReliable N
      → IsPlain conn
      → length text < 1024
      → Printed N L conn text (printf N behind conn text).1
  unfolding printf printed
  printf-Printed behind conn text r p short =
      let fits : ltb (length text) 1024 ≡ true = ground arith in
      rw fits (
        subst (λ w. Printed N L conn text w.1) (write_plain conn text p (omega (arith, short)))
          (push-Printed conn text r p.serving))

  pub Printed-IsPlain :
      {conn conn' : Connection N.Sock} {text : List ℕ}
      → Printed N L conn text conn'
      → IsPlain conn
      → IsPlain conn'
  Printed-IsPlain q p = record {
    serving = q.serving;
    no_websocket = ap (λ f. f.websocket) q.same_flags ∙ p.no_websocket;
    no_chunks = ap (λ f. f.chunked_response) q.same_flags ∙ p.no_chunks;
  }

  pub Printed-trans :
      {a b c : Connection N.Sock} {s t : List ℕ}
      → Printed N L a s b
      → Printed N L b t c
      → Printed N L a (s ++ t) c
  Printed-trans {a} {s} {t} p q = record {
    adds = q.adds ∙ (ap (λ x. x ++ t) p.adds ∙ append_assoc (output N L a) s t);
    serving = q.serving;
    same_flags = q.same_flags ∙ p.same_flags;
    same_request = q.same_request ∙ p.same_request;
  }
