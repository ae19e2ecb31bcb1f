-- ===== src/Mumux/Upgrade/Tests.antt =====
-- Runs of the upgrade.
use mavicona.Base.{
  ℕ, ◌≡◌, refl, true, List, some, [], ◌∷◌, ◌++◌, arith, replicate, if◌then◌else◌, not,
}
use mavicona.Base.Int.{pos}
use mavicona.Base.Text.{codes}
use mavicona.Mumux.Ascii.{eq_nocase, before_nul}
use mavicona.Mumux.Socket.Loopback.{loopback, loopback_send_laws, loopback_reliable, Pipe}
use mavicona.Mumux.Request.{Header, find_header}
use mavicona.Mumux.Sha.{
  Sha1, sha1_init, sha1_update, sha1_final, finish, pad_loop, count_bits, update_loop, update_step,
}
use mavicona.Mumux.Sha.Block.{hash_block}
use mavicona.Mumux.Base64.{
  base64_encode, base64_bufsize, encode_loop, quad, line_break, enc, top_six,
}
use mavicona.Mumux.Connection.{Connection, no_flags}
use mavicona.Mumux.Connection.Serving.{serving, serving-IsServing}
use mavicona.Mumux.Response.Print.{IsPlain}
use mavicona.Mumux.Response.Text.{head_text}
use mavicona.Mumux.Upgrade.{
  is_websocket_request, has_value, accept_key, upgrade_headers, send_websocket_upgrade,
}
use mavicona.Mumux.Upgrade.Answer.{accept_text, IsUpgrade, upgrade_closes}

abbrev unset : Sha1
unset = record {
  state = record { a = 0; b = 0; c = 0; d = 0; e = 0 };
  msg_size_hi = 0;
  msg_size_lo = 0;
  buf_used = 0;
  buffer = replicate 64 0;
}

abbrev sample_key : List ℕ
sample_key = codes "dGhlIHNhbXBsZSBub25jZQ=="

-- The example of RFC 6455, section 1.3.
sample_answer :
    accept_key unset sample_key ≡ some (codes "s3pPLMBiTxaQ9kYGzzhZRbK+xOo=" ++ (0 ∷ []))
unfolding accept_key sha1_init sha1_update sha1_final finish pad_loop count_bits update_loop
    update_step hash_block base64_encode base64_bufsize encode_loop quad line_break enc top_six
sample_answer = refl

abbrev headers : List Header
headers =
    (codes "upgrade", codes "WebSocket")
    ∷ (codes "Connection", codes "Upgrade")
    ∷ (codes "Sec-WebSocket-Version", codes "13")
    ∷ (codes "Sec-WebSocket-Key", sample_key)
    ∷ []

asks : is_websocket_request headers ≡ true
unfolding is_websocket_request has_value find_header eq_nocase
asks = refl

abbrev asking : Connection Pipe
asking = record serving { request = record serving.request { headers = headers } }

asking-IsPlain : IsPlain asking
asking-IsPlain = record {
  serving = record {
    serves = serving-IsServing.serves;
    has_room = serving-IsServing.has_room;
    not_over = serving-IsServing.not_over;
  };
  no_websocket = refl;
  no_chunks = refl;
}

asking-IsUpgrade : IsUpgrade asking sample_key
unfolding find_header eq_nocase
asking-IsUpgrade = record { version = refl; key = refl; short = omega arith }

upgrade_closes_example :
    (s : Pipe) × (conn' : Connection Pipe) × (send_websocket_upgrade loopback
        (λ n. [])
        1
        1
        unset
        asking
      ≡ some (true, conn'))
    × (s.sent
        ≡ (7 ∷ 1 ∷ 2 ∷ 3 ∷ [])
          ++ head_text asking 101 (pos 0) (upgrade_headers (before_nul (accept_text sample_key))))
    × (conn'.socket ≡ (if not s.closed then record s { closed = true } else s))
    × (conn'.flags ≡ no_flags)
upgrade_closes_example =
    upgrade_closes loopback loopback_send_laws loopback_reliable (λ n. []) 1 1 unset asking
      sample_key refl asking-IsUpgrade asking-IsPlain refl
