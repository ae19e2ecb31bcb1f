-- ===== src/Mumux/Response.antt =====
-- mumux/response.c: status texts and the head and the end of a response; `wby_printf` of
-- mumux/request.c.
pub mod Print
pub mod Text
pub mod Head
pub mod Finish
mod Tests
use mavicona.Base.{
  ℕ, zero, suc, ◌+◌, ◌-◌, Bool, true, false, not, ◌&&◌, ◌||◌, Option, none, some, List, [], ◌∷◌,
  ◌++◌, ◌==◌, ltb, if◌then◌else◌, length, take,
}
use mavicona.Base.Int.{ℤ, pos, negsuc, ltb_ℤ, ◌-ℤ◌, pos_part}
use mavicona.Base.Text.{codes}
use mavicona.Base.Decimal.{decimal}
use mavicona.Mumux.Ascii.{eq_nocase}
use mavicona.Mumux.Socket.{Network, is_neg}
use mavicona.Mumux.Request.{Header, crlf, find_header}
use mavicona.Mumux.Connection.{Connection, connection_push, connection_close, no_longer_alive}
use mavicona.Mumux.Write.{write}
use mavicona.Mumux.Read.{discard_incoming_data}

-- `wby_status_nums` and `wby_status_text`
abbrev pub status_map : List (ℕ × List ℕ)
status_map =
    (100, codes "Continue")
    ∷ (101, codes "Switching Protocols")
    ∷ (200, codes "OK")
    ∷ (201, codes "Created")
    ∷ (202, codes "Accepted")
    ∷ (203, codes "Non-Authoritative Information")
    ∷ (204, codes "No Content")
    ∷ (205, codes "Reset Content")
    ∷ (206, codes "Partial Content")
    ∷ (300, codes "Multiple Choices")
    ∷ (301, codes "Moved Permanently")
    ∷ (302, codes "Found")
    ∷ (303, codes "See Other")
    ∷ (304, codes "Not Modified")
    ∷ (305, codes "Use Proxy")
    ∷ (307, codes "Temporary Redirect")
    ∷ (400, codes "Bad Request")
    ∷ (401, codes "Unauthorized")
    ∷ (402, codes "Payment Required")
    ∷ (403, codes "Forbidden")
    ∷ (404, codes "Not Found")
    ∷ (405, codes "Method Not Allowed")
    ∷ (406, codes "Not Acceptable")
    ∷ (407, codes "Proxy Authentication Required")
    ∷ (408, codes "Request Time-out")
    ∷ (409, codes "Conflict")
    ∷ (410, codes "Gone")
    ∷ (411, codes "Length Required")
    ∷ (412, codes "Precondition Failed")
    ∷ (413, codes "Request Entity Too Large")
    ∷ (414, codes "Request-URI Too Large")
    ∷ (415, codes "Unsupported Media Type")
    ∷ (416, codes "Requested range not satisfiable")
    ∷ (417, codes "Expectation Failed")
    ∷ (500, codes "Internal Server Error")
    ∷ (501, codes "Not Implemented")
    ∷ (502, codes "Bad Gateway")
    ∷ (503, codes "Service Unavailable")
    ∷ (504, codes "Gateway Time-out")
    ∷ (505, codes "HTTP Version not supported")
    ∷ []

unfoldable pub text_of : List (ℕ × List ℕ) → ℕ → List ℕ
text_of [] status_code = codes "Unknown"
text_of ((num, text) ∷ rest) status_code =
    let next = text_of rest status_code in if num == status_code then text else next

unfoldable pub response_status_text : ℕ → List ℕ
response_status_text status_code = text_of status_map status_code

-- The names and values that are compared or written.
abbrev pub connection_name : List ℕ
connection_name = codes "Connection"

abbrev pub close_value : List ℕ
close_value = codes "close"

abbrev pub closes : Header → Bool
closes (name, value) = eq_nocase name connection_name && eq_nocase value close_value

-- "%s: %s\r\n"
abbrev pub header_line : Header → List ℕ
header_line (name, value) = name ++ (codes ": " ++ (value ++ crlf))

unfoldable pub status_line : ℕ → List ℕ
status_line status_code =
    codes "HTTP/1.1 "
    ++ (decimal status_code ++ (codes " " ++ (response_status_text status_code ++ crlf)))

unfoldable pub length_line : ℤ → List ℕ
length_line content_length =
    if is_neg content_length
    then codes "Transfer-Encoding: chunked" ++ crlf
    else codes "Content-Length: " ++ (decimal (pos_part content_length) ++ crlf)

-- The memory behind the 1024 bytes of the buffer of `wby_printf`.
module _ (N : Network) (behind : ℕ → List ℕ) where
  -- The bytes that are written for a text: `vsnprintf` returns the length of the whole text, also
  -- where it does not fit the buffer, which then ends with a NUL.
  unfoldable pub printed : List ℕ → List ℕ
  printed text =
      if ltb (length text) 1024 then text else take 1023 text ++ (0 ∷ behind (length text - 1024))

  unfoldable pub printf : Connection N.Sock → List ℕ → Bool × Connection N.Sock
  printf conn text = write N conn (printed text)

  -- The loop over the headers.
  unfoldable pub print_headers : Connection N.Sock → List Header → Connection N.Sock
  print_headers conn [] = conn
  print_headers conn (h ∷ headers) =
      let conn' = record conn {
        flags = record conn.flags {
          close_after_response = conn.flags.close_after_response || closes h;
        };
      } in
      print_headers (printf conn' (header_line h)).1 headers

  -- The part on the client's own Connection header.
  unfoldable pub print_close : Connection N.Sock → Connection N.Sock
  print_close conn =
      let wants_close : Bool = elim (find_header conn.request.headers connection_name) [
        | none ↦ false
        | some value ↦ eq_nocase close_value value
      ] in
      let conn' = record conn { flags = record conn.flags { close_after_response = true } } in
      if not conn.flags.close_after_response && wants_close
      then (printf conn' (codes "Connection: close" ++ crlf)).1
      else conn

  -- The part of `wby_response_begin` behind the reading of the rest of the body.
  unfoldable pub print_head : Connection N.Sock → ℕ → ℤ → List Header → Connection N.Sock
  print_head conn status_code content_length headers =
      let conn_1 = (printf conn (status_line status_code)).1 in
      let conn_2 = (printf conn_1 (length_line content_length)).1 in
      let conn_3 = (printf conn_2 (codes "Server: wby" ++ crlf)).1 in
      let conn_4 = print_close (print_headers conn_3 headers) in
      let conn_5 = (printf conn_4 crlf).1 in
      record conn_5 {
        flags = record conn_5.flags {
          chunked_response = conn_5.flags.chunked_response || is_neg content_length;
        };
      }

  -- `true` is a return of 0; `none` is a loop that did not end within its fuel.
  unfoldable pub response_begin :
      ℕ → ℕ → Connection N.Sock → ℕ → ℤ → List Header → Option (Bool × Connection N.Sock)
  response_begin rounds fuel conn status_code content_length headers =
      let body_left = conn.request.content_length -ℤ pos conn.body_bytes_read in
      if ltb_ℤ (pos conn.body_bytes_read) conn.request.content_length
      then elim (discard_incoming_data N rounds fuel conn (pos_part body_left)) [
        | none ↦ none
        | some (ok, conn') ↦ elim ok [
          | true ↦ some (true, print_head conn' status_code content_length headers)
          | false ↦ some (false, no_longer_alive conn')
        ]
      ]
      else some (true, print_head conn status_code content_length headers)

-- `conn->request.content_length == 0`
abbrev pub is_zero : ℤ → Bool
is_zero (pos n) = n == 0
is_zero (negsuc n) = false

module _ (N : Network) where
  -- The last chunk, where the response is chunked.
  unfoldable pub end_chunks : Connection N.Sock → Connection N.Sock
  end_chunks conn =
      let conn' = (connection_push N conn (codes "0" ++ (crlf ++ crlf))).1 in
      if conn.flags.chunked_response
      then record conn' { flags = record conn'.flags { chunked_response = false } }
      else conn

  unfoldable pub response_end : Connection N.Sock → Connection N.Sock
  response_end conn =
      let flushed = (connection_push N (end_chunks conn) []).1 in
      if is_zero conn.request.content_length then connection_close N flushed else flushed
