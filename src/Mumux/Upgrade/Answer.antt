-- ===== src/Mumux/Upgrade/Answer.antt =====
-- The answer to a request for an upgrade.
use mavicona.Base.{
  ℕ, ◌^◌, ◌≤◌, ◌<◌, ◌≡◌, ap, ◌∙◌, true, false, not, some, List, [], ◌∷◌, ◌++◌, arith, ltb,
  if◌then◌else◌, length, length-append, append-nil,
}
use mavicona.Base.Int.{pos}
use mavicona.Base.Text.{codes}
use mavicona.Mumux.Ascii.{before_nul}
use mavicona.Mumux.Socket.{Network}
use mavicona.Mumux.Socket.Send.{SendLaws, IsReliable}
use mavicona.Mumux.Request.{find_header, crlf}
use mavicona.Mumux.Sha.{Sha1}
use mavicona.Mumux.Sha.Absorb.{digest}
use mavicona.Mumux.Sha.Final.{final-update_all}
use mavicona.Mumux.Base64.{base64_encode, base64_bufsize, encode_loop}
use mavicona.Mumux.Base64.Size.{length-encode}
use mavicona.Mumux.Connection.{Connection, no_flags}
use mavicona.Mumux.Connection.Stream.{output}
use mavicona.Mumux.Response.{response_begin, response_end, is_zero}
use mavicona.Mumux.Response.Print.{IsPlain}
use mavicona.Mumux.Response.Text.{head_text}
use mavicona.Mumux.Response.Head.{output-response_begin}
use mavicona.Mumux.Response.Finish.{sent-response_end}
use mavicona.Mumux.Upgrade.{
  eq_text, websocket_version, websocket_guid, accept_key, upgrade_headers, respond_upgrade,
  send_websocket_upgrade,
}

-- What RFC 6455 asks for, with the NUL behind it.
abbrev pub accept_text : List ℕ → List ℕ
accept_text hdr = encode_loop 0 (digest (hdr ++ websocket_guid)) ++ (0 ∷ [])

length-digest : (msg : List ℕ) → length (digest msg) ≡ 20
unfolding digest
length-digest msg = omega arith

encode-digest :
    (msg : List ℕ) → base64_encode 64 (digest msg) ≡ some (encode_loop 0 (digest msg) ++ (0 ∷ []))
unfolding base64_encode base64_bufsize
encode-digest msg =
    let fits : ltb 64 (base64_bufsize (length (digest msg))) ≡ false =
      ap (λ n. ltb 64 (base64_bufsize n)) (length-digest msg) in
    rw fits

-- For a key of fewer than 2 ^ 29 bytes the answer is the Base64 text of the SHA-1 digest of the key
-- and the fixed identifier, whatever the context held before.
pub accept_key_lem :
    (sha : Sha1) (hdr : List ℕ)
    → length sha.buffer ≡ 64
    → length hdr < 2 ^ 29
    → accept_key sha hdr ≡ some (accept_text hdr)
unfolding accept_key
accept_key_lem sha hdr sized short =
    ap (λ d. base64_encode 64 d)
      (final-update_all sha (hdr ∷ websocket_guid ∷ []) sized (omega arith)
          (omega (arith, length-append hdr websocket_guid))
        ∙ ap (λ t. digest (hdr ++ t)) (append-nil websocket_guid))
    ∙ encode-digest (hdr ++ websocket_guid)

length-before_nul : (bytes : List ℕ) → length (before_nul bytes) ≤ length bytes
length-before_nul [] = omega arith
length-before_nul (c ∷ cs) = ground (arith, length-before_nul cs)

accept_text_short : (hdr : List ℕ) → length (before_nul (accept_text hdr)) ≤ 64
accept_text_short hdr =
    let d = digest (hdr ++ websocket_guid) in
    omega (
      arith,
      length-before_nul (accept_text hdr),
      (length-encode 64 d (accept_text hdr) (omega (arith, length-digest (hdr ++ websocket_guid)))
          (encode-digest (hdr ++ websocket_guid))).1,
    )

-- A request for version 13 with a key.
pub record IsUpgrade {S : Type 0} (conn : Connection S) (hdr : List ℕ) : Type 0 where
  pub version :
      find_header conn.request.headers (codes "Sec-WebSocket-Version") ≡ some websocket_version
  pub key : find_header conn.request.headers (codes "Sec-WebSocket-Key") ≡ some hdr
  pub short : length hdr < 2 ^ 29

module _ (N : Network) (L : SendLaws N) (r : IsReliable N) (behind : ℕ → List ℕ)
    (rounds fuel : ℕ) where
  upgrade_answer :
      (sha : Sha1) (conn conn' : Connection N.Sock) (hdr : List ℕ)
      → length sha.buffer ≡ 64
      → IsUpgrade conn hdr
      → response_begin N behind rounds fuel conn 101
          (pos 0)
          (upgrade_headers (before_nul (accept_text hdr)))
        ≡ some (true, conn')
      → send_websocket_upgrade N behind rounds fuel sha conn ≡ some (true, response_end N conn')
  unfolding send_websocket_upgrade eq_text respond_upgrade
  upgrade_answer sha conn conn' hdr sized u begun =
      let accepts = accept_key_lem sha hdr sized u.short in
      rw (u.version, send_websocket_upgrade)
        (rw (u.key, send_websocket_upgrade)
          (rw (accepts, send_websocket_upgrade) (rw (begun, respond_upgrade))))

  -- The answer to an upgrade request that announces no body, with a socket that always takes some of
  -- what it is offered, for a connection that serves and is neither a WebSocket nor within a chunked
  -- response: 0 is returned, all output is sent, with the head of a response 101 at its end that
  -- holds the key's answer, and then the connection is closed and has no flag left.
  pub upgrade_closes :
      (sha : Sha1) (conn : Connection N.Sock) (hdr : List ℕ)
      → length sha.buffer ≡ 64
      → IsUpgrade conn hdr
      → IsPlain conn
      → conn.request.content_length ≡ pos 0
      → (s : N.Sock) × (conn' : Connection N.Sock) × (send_websocket_upgrade N behind rounds fuel
            sha conn
          ≡ some (true, conn'))
        × (L.sent s
            ≡ output N L conn
              ++ head_text conn 101 (pos 0) (upgrade_headers (before_nul (accept_text hdr))))
        × (conn'.socket ≡ (if not (N.is_invalid s) then N.close s else s))
        × (conn'.flags ≡ no_flags)
  upgrade_closes sha conn hdr sized u p no_body =
      let headers = upgrade_headers (before_nul (accept_text hdr)) in
      let begun =
        output-response_begin N L behind r rounds fuel conn 101 (pos 0) headers p
          (rw no_body (ground arith))
          (omega
            (arith, accept_text_short hdr, length-append (before_nul (accept_text hdr)) crlf)) in
      let conn' = begun.0 in
      let ended = sent-response_end N L r conn' begun.5 in
      let zero_body : is_zero conn'.request.content_length ≡ true =
        ap (λ q. is_zero q.content_length) begun.6 ∙ ap is_zero no_body in
      (
        ended.0,
        response_end N conn',
        upgrade_answer sha conn conn' hdr sized u begun.1,
        ended.1 ∙ rw (begun.4, begun.2) (append-nil _),
        ended.3 ∙ rw zero_body,
        ended.4 ∙ rw zero_body,
      )
