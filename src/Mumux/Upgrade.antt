-- ===== src/Mumux/Upgrade.antt =====
-- The upgrade of a connection to WebSockets: `wby_con_is_websocket_request` of mumux/request.c and
-- `wby_connection_send_websocket_upgrade` of mumux/connection.c.
pub mod Answer
mod Tests
use mavicona.Base.{
  ℕ, Bool, true, false, ◌&&◌, Option, none, some, List, [], ◌∷◌, ◌==◌, if◌then◌else◌, length,
}
use mavicona.Base.Int.{pos}
use mavicona.Base.Text.{codes}
use mavicona.Mumux.Ascii.{eq_nocase, before_nul}
use mavicona.Mumux.Socket.{Network}
use mavicona.Mumux.Request.{Header, find_header}
use mavicona.Mumux.Sha.{Sha1, sha1_init, sha1_update, sha1_final}
use mavicona.Mumux.Base64.{base64_encode}
use mavicona.Mumux.Connection.{Connection}
use mavicona.Mumux.Response.{response_begin, response_end}

-- `strcmp(a, b) == 0`
unfoldable pub eq_text : List ℕ → List ℕ → Bool
eq_text [] [] = true
eq_text [] (b ∷ bs) = false
eq_text (a ∷ as') [] = false
eq_text (a ∷ as') (b ∷ bs) = a == b && eq_text as' bs

-- A header that is there and has the value, in any case.
unfoldable pub has_value : List Header → List ℕ → List ℕ → Bool
has_value headers name value = elim (find_header headers name) [
  | none ↦ false
  | some hdr ↦ eq_nocase hdr value
]

unfoldable pub is_websocket_request : List Header → Bool
is_websocket_request headers =
    has_value headers (codes "Connection") (codes "Upgrade")
    && has_value headers (codes "Upgrade") (codes "websocket")

abbrev pub websocket_version : List ℕ
websocket_version = codes "13"

abbrev pub websocket_guid : List ℕ
websocket_guid = codes "258EAFA5-E914-47DA-95CA-C5AB0DC85B11"

-- The answer to a key, in a buffer of 64 bytes; `sha` is a context that holds anything.
unfoldable pub accept_key : Sha1 → List ℕ → Option (List ℕ)
accept_key sha hdr =
    base64_encode 64 (sha1_final (sha1_update (sha1_update (sha1_init sha) hdr) websocket_guid))

abbrev pub upgrade_headers : List ℕ → List Header
upgrade_headers output_digest =
    (codes "Upgrade", codes "websocket")
    ∷ (codes "Connection", codes "Upgrade")
    ∷ (codes "Sec-WebSocket-Accept", output_digest)
    ∷ []

module _ (N : Network) (behind : ℕ → List ℕ) (rounds fuel : ℕ) where
  -- A response of which only the head is written; the result of `wby_response_begin` is not read.
  unfoldable pub respond_upgrade : Connection N.Sock → List ℕ → Option (Bool × Connection N.Sock)
  respond_upgrade conn output_digest =
      elim (response_begin N behind rounds fuel conn 101 (pos 0) (upgrade_headers output_digest)) [
        | none ↦ none
        | some (ok, conn') ↦ some (true, response_end N conn')
      ]

  -- `true` is a return of 0; `none` is a loop that did not end within its fuel.
  unfoldable pub send_websocket_upgrade :
      Sha1 → Connection N.Sock → Option (Bool × Connection N.Sock)
  send_websocket_upgrade sha conn =
      let answer : List ℕ → Option (Bool × Connection N.Sock) = λ hdr. elim (accept_key sha hdr) [
        | none ↦ some (false, conn)
        | some output_digest ↦ respond_upgrade conn (before_nul output_digest)
      ] in
      let with_key : Option (Bool × Connection N.Sock) =
        elim (find_header conn.request.headers (codes "Sec-WebSocket-Key")) [
          | none ↦ some (false, conn)
          | some hdr ↦ answer hdr
        ] in
      elim (find_header conn.request.headers (codes "Sec-WebSocket-Version")) [
        | none ↦ some (false, conn)
        | some hdr ↦ if eq_text hdr websocket_version then with_key else some (false, conn)
      ]
