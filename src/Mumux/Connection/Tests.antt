-- ===== src/Mumux/Connection/Tests.antt =====
-- Runs of the buffered output.
use mavicona.Base.{◌≡◌, refl, true, false, [], ◌∷◌}
use mavicona.Mumux.Socket.{socket_flush, socket_send, send_loop}
use mavicona.Mumux.Socket.Loopback.{loopback, loopback_send_laws, loopback_reliable}
use mavicona.Mumux.Connection.{connection_push, push_loop, connection_reset}
use mavicona.Mumux.Connection.Serving.{serving, serving-IsServing}
use mavicona.Mumux.Connection.Push.{Pushed}
use mavicona.Mumux.Connection.Stream.{output, push-Pushed, output-push}

push_three : (connection_push loopback serving (4 ∷ 5 ∷ 6 ∷ [])).1.io_buf.bytes ≡ 5 ∷ 6 ∷ []
unfolding connection_push push_loop socket_flush socket_send send_loop
push_three = refl

reset_serves_no_more :
    connection_push loopback (connection_reset serving 16 4) (4 ∷ [])
    ≡ (false, connection_reset serving 16 4)
unfolding connection_push connection_reset
reset_serves_no_more = refl

flush_all : (connection_push loopback serving []).0 ≡ true
unfolding connection_push socket_flush socket_send send_loop
flush_all = refl

push-Pushed_example :
    Pushed
      (output loopback loopback_send_laws serving)
      (4 ∷ 5 ∷ 6 ∷ [])
      4
      (connection_push loopback serving (4 ∷ 5 ∷ 6 ∷ [])).0
      (connection_push loopback serving (4 ∷ 5 ∷ 6 ∷ [])).1.socket.sent
      (connection_push loopback serving (4 ∷ 5 ∷ 6 ∷ [])).1.io_buf
push-Pushed_example =
    push-Pushed loopback loopback_send_laws serving (4 ∷ 5 ∷ 6 ∷ []) serving-IsServing

output-push_example :
    ((connection_push loopback serving (4 ∷ 5 ∷ 6 ∷ [])).0 ≡ true)
    × (output loopback loopback_send_laws (connection_push loopback serving (4 ∷ 5 ∷ 6 ∷ [])).1
        ≡ 7 ∷ 1 ∷ 2 ∷ 3 ∷ 4 ∷ 5 ∷ 6 ∷ [])
output-push_example =
    output-push loopback loopback_send_laws serving (4 ∷ 5 ∷ 6 ∷ []) loopback_reliable
      serving-IsServing
