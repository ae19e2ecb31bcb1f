-- ===== src/Mumux/Request.antt =====
-- mumux/connection.c, `wby_connection_setup_request`: the request line and the headers of a request,
-- and mumux/request.c, `wby_find_header`.
pub mod Number
pub mod Line
pub mod Headers
pub mod Path
pub mod Parse
pub mod Size
mod Tests
use mavicona.Base.{
  ℕ, zero, suc, ◌+◌, ◌-◌, ◌*◌, Bool, true, false, ◌&&◌, ◌||◌, Option, none, some, List, [], ◌∷◌,
  ◌++◌, ◌==◌, u32, leb, ltb, if◌then◌else◌, length, take,
}
use mavicona.Base.Int.{ℤ, pos, to_int}
use mavicona.Mumux.Ascii.{eq_nocase}
use mavicona.Mumux.Token.{tok_inplace}
use mavicona.Mumux.Url.{url_decode}
use mavicona.Mumux.Request.Number.{strtoul_10}

-- `WBY_MAX_HEADERS`
abbrev pub max_headers : ℕ
max_headers = 64

-- `struct wby_header`
abbrev pub Header : Type 0
Header = List ℕ × List ℕ

-- `struct wby_request`; `header_count` is the length of `headers`.
pub record Request : Type 0 where
  pub method : List ℕ
  pub uri : List ℕ
  pub http_version : List ℕ
  pub query_params : Option (List ℕ)
  pub content_length : ℤ
  pub headers : List Header

abbrev pub crlf : List ℕ
crlf = b'\r' ∷ b'\n' ∷ []

-- "content-length", "transfer-encoding"
abbrev pub content_length_name : List ℕ
content_length_name =
    99 ∷ 111 ∷ 110 ∷ 116 ∷ 101 ∷ 110 ∷ 116 ∷ 45 ∷ 108 ∷ 101 ∷ 110 ∷ 103 ∷ 116 ∷ 104 ∷ []

abbrev pub transfer_encoding_name : List ℕ
transfer_encoding_name =
    116 ∷ 114 ∷ 97 ∷ 110 ∷ 115 ∷ 102 ∷ 101 ∷ 114 ∷ 45 ∷ 101 ∷ 110 ∷ 99 ∷ 111 ∷ 100 ∷ 105 ∷ 110 ∷ 103
    ∷ []

-- `strchr(uri, '?')`: what stands before it, and what stands behind it.
unfoldable pub split_query : List ℕ → List ℕ × Option (List ℕ)
split_query [] = ([], none)
split_query (c ∷ uri) =
    let (before, params) = split_query uri in
    if c == b'?' then ([], some uri) else (c ∷ before, params)

-- Decoding in place writes at or before the place that it reads; behind the text stands its NUL.
unfoldable pub decode_uri : List ℕ → List ℕ
decode_uri uri = url_decode (uri ++ (0 ∷ [])) (length uri) (length uri + 1) true

-- The request line; `none` is a number of tokens that is not 3.
unfoldable pub request_line : List (List ℕ) → Option Request
request_line (method ∷ uri ∷ version ∷ []) =
    let (path, params) = split_query uri in
    some (record {
      method = method;
      uri = decode_uri path;
      http_version = version;
      query_params = params;
      content_length = pos 0;
      headers = [];
    })
request_line _ = none

-- One round of the loop over the header lines, on the tokens of the line.
unfoldable pub add_header : Request → List (List ℕ) → Option Request
add_header req (name ∷ value ∷ []) =
    let kept = record req { headers = req.headers ++ ((name, value) ∷ []) } in
    if eq_nocase content_length_name name
    then some (record kept { content_length = to_int (u32 (strtoul_10 value)) })
    else if eq_nocase transfer_encoding_name name
    then none
    else some kept
add_header req _ = none

-- The loop over the lines.
unfoldable pub parse_headers : Request → List (List ℕ) → Option Request
parse_headers req [] = some req
parse_headers req (line ∷ lines) = elim (add_header req (tok_inplace line (b':' ∷ []) 2 true)) [
  | none ↦ none
  | some req' ↦ parse_headers req' lines
]

-- On the lines of the header section: all but the first and the last are headers.
unfoldable pub parse_lines : List (List ℕ) → Option Request
parse_lines [] = none
parse_lines (line ∷ lines) = elim (request_line (tok_inplace line (b' ' ∷ []) 16 false)) [
  | none ↦ none
  | some req ↦ parse_headers req (take (length lines - 1) lines)
]

-- `none` is a return value of 1, at which the caller drops the connection. The text is the header
-- section in front of the NUL that is written over its last line break. `header_count` cannot
-- exceed WBY_MAX_HEADERS, since at most WBY_MAX_HEADERS + 2 lines are cut.
unfoldable pub setup_request : List ℕ → Option Request
setup_request envelope =
    let lines = tok_inplace envelope crlf (max_headers + 2) false in
    if ltb (length lines) 1 || ltb (max_headers + 2) (length lines) then none else parse_lines lines

-- `wby_find_header`
unfoldable pub find_header : List Header → List ℕ → Option (List ℕ)
find_header [] name = none
find_header ((key, value) ∷ headers) name =
    let rest = find_header headers name in if eq_nocase key name then some value else rest
