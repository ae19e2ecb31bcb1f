-- ===== src/Mumux/Response/Tests.antt =====
-- Runs of the responses.
use mavicona.Base.{
  ℕ, ◌≡◌, refl, true, List, some, [], ◌∷◌, ◌++◌, arith, replicate, if◌then◌else◌, ◌&&◌, not,
}
use mavicona.Base.Int.{pos, negsuc}
use mavicona.Base.Text.{codes}
use mavicona.Base.Decimal.{decimal}
use mavicona.Mumux.Ascii.{eq_nocase}
use mavicona.Mumux.Socket.{socket_flush, socket_send, send_loop}
use mavicona.Mumux.Socket.Loopback.{loopback, loopback_send_laws, loopback_reliable, Pipe}
use mavicona.Mumux.Request.{Header, find_header}
use mavicona.Mumux.Connection.{Connection, connection_push, push_loop, connection_close, no_flags}
use mavicona.Mumux.Connection.Serving.{serving, serving-IsServing}
use mavicona.Mumux.Connection.Stream.{IsServing, output}
use mavicona.Mumux.Response.{
  text_of, response_status_text, status_line, length_line, response_begin, response_end, end_chunks,
}
use mavicona.Mumux.Response.Print.{IsPlain}
use mavicona.Mumux.Response.Text.{head_text, closing}
use mavicona.Mumux.Response.Head.{output-response_begin}
use mavicona.Mumux.Response.Finish.{last_chunk, sent-response_end}

abbrev no_memory : ℕ → List ℕ
no_memory n = replicate n 0

pub serving-IsPlain : IsPlain serving
serving-IsPlain = record { serving = serving-IsServing; no_websocket = refl; no_chunks = refl }

abbrev headers : List Header
headers = (codes "Content-Type", codes "text/plain") ∷ (codes "connection", codes "Close") ∷ []

not_found : response_status_text 404 ≡ codes "Not Found"
unfolding response_status_text text_of
not_found = refl

head_404 :
    head_text serving 404 (pos 7) headers
    ≡ codes
        "HTTP/1.1 404 Not Found\r\nContent-Length: 7\r\nServer: wby\r\nContent-Type: text/plain\r\nconnection: Close\r\n\r\n"
unfolding status_line length_line response_status_text text_of decimal find_header eq_nocase
head_404 = refl

output-response_begin_example :
    (conn' : Connection Pipe) × (response_begin loopback no_memory 1 1 serving 404
        (negsuc 0)
        headers
      ≡ some (true, conn'))
    × (output loopback loopback_send_laws conn'
        ≡ (7 ∷ 1 ∷ 2 ∷ 3 ∷ []) ++ head_text serving 404 (negsuc 0) headers)
    × (conn'.flags.close_after_response ≡ closing serving headers)
    × (conn'.flags.chunked_response ≡ true)
    × IsServing conn'
    × (conn'.request ≡ serving.request)
output-response_begin_example =
    output-response_begin loopback loopback_send_laws no_memory loopback_reliable 1 1 serving 404
      (negsuc 0) headers serving-IsPlain refl (omega arith)

abbrev chunking : Connection Pipe
chunking = record serving { flags = record serving.flags { chunked_response = true } }

chunking-IsServing : IsServing chunking
chunking-IsServing = record {
  serves = serving-IsServing.serves;
  has_room = serving-IsServing.has_room;
  not_over = serving-IsServing.not_over;
}

end_sends : (response_end loopback chunking).socket.sent ≡ (7 ∷ 1 ∷ 2 ∷ 3 ∷ []) ++ codes "0\r\n\r\n"
unfolding response_end end_chunks connection_push push_loop socket_flush socket_send send_loop
    connection_close
end_sends = refl

sent-response_end_example :
    (s : Pipe) × (s.sent ≡ (7 ∷ 1 ∷ 2 ∷ 3 ∷ []) ++ last_chunk true)
    × ((response_end loopback chunking).io_buf.bytes ≡ [])
    × ((response_end loopback chunking).socket
        ≡ (if true && not s.closed then record s { closed = true } else s))
    × ((response_end loopback chunking).flags ≡ no_flags)
sent-response_end_example =
    sent-response_end loopback loopback_send_laws loopback_reliable chunking chunking-IsServing
