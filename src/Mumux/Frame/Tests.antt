-- ===== src/Mumux/Frame/Tests.antt =====
-- Frame headers at concrete bytes.
use mavicona.Base.{◌≡◌, refl, true, some, [], ◌∷◌, ◌++◌, arith, length}
use mavicona.Base.Int.{pos}
use mavicona.Mumux.Frame.{Frame, make_websocket_header, scan_websocket_frame}
use mavicona.Mumux.Frame.RoundTrip.{scan-make, plain_frame}
use mavicona.Mumux.Frame.Masked.{client_header}

abbrev blank : Frame
blank = record {
  flags = 0;
  opcode = 0;
  header_size = 0;
  mask_key = 0 ∷ 0 ∷ 0 ∷ 0 ∷ [];
  payload_length = pos 0;
}

-- RFC 6455, section 5.7: an unmasked "Hello".
hello_header : make_websocket_header 1 5 true ≡ 0x81 ∷ 0x05 ∷ []
unfolding make_websocket_header
hello_header = refl

-- RFC 6455, section 5.7: 256 bytes of binary data in one unmasked frame.
medium_header : make_websocket_header 2 256 true ≡ 0x82 ∷ 0x7e ∷ 0x01 ∷ 0x00 ∷ []
unfolding make_websocket_header
medium_header = refl

scan-make_example :
    scan_websocket_frame blank (make_websocket_header 2 70000 true ++ (1 ∷ []))
    ≡ some (plain_frame blank (length (make_websocket_header 2 70000 true)) 2 true 70000)
scan-make_example = scan-make blank 2 70000 true (1 ∷ []) (omega arith) (omega arith)

abbrev hello_frame : Frame
hello_frame = record blank { flags = 1; opcode = 1; header_size = 2; payload_length = pos 5 }

-- RFC 6455, section 5.7: the header of a masked "Hello".
masked_hello :
    client_header true 1 5 0x37 0xfa 0x21 0x3d [] ≡ 0x81 ∷ 0x85 ∷ 0x37 ∷ 0xfa ∷ 0x21 ∷ 0x3d ∷ []
unfolding client_header
masked_hello = refl
