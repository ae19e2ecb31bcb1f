-- ===== src/Mumux/Request/Parse.antt =====
-- `wby_connection_setup_request` reads back a request that was written out.
use mavicona.Base.{
  ℕ, Option, ◌+◌, ◌<◌, ◌^◌, suc, ◌-◌, ◌≤◌, ◌≡◌, ◌≢◌, refl, ap, none, some, List, [], ◌∷◌, ◌++◌, All,
  arith, if◌then◌else◌, length, map, length-append, length-map, take-append_length,
}
use mavicona.Base.Int.{pos}
use mavicona.Mumux.Token.Cut.{Lacks}
use mavicona.Mumux.Request.{
  Header, Request, max_headers, split_query, decode_uri, request_line, parse_lines, setup_request,
}
use mavicona.Mumux.Request.Line.{
  IsToken, IsLine, IsHeader, line_text, header_text, unlines, section_cut, line_cut,
}
use mavicona.Mumux.Request.Path.{PathText, uri_text, decode_uri-PathText, split_query-uri_text}
use mavicona.Mumux.Request.Headers.{kept_header, announced, is_encoded, parse_headers-headers}

-- The text of a request up to the NUL that is written over its last line break.
unfoldable pub request_text : List ℕ → List ℕ → List ℕ → List Header → List ℕ
request_text method uri version hs = unlines (line_text method uri version ∷ map header_text hs)

All-append-Lacks : (k : ℕ) (xs ys : List ℕ) → Lacks k xs → Lacks k ys → Lacks k (xs ++ ys)
All-append-Lacks k [] ys h g = g
All-append-Lacks k (x ∷ xs) ys (hx, h) g = (hx, All-append-Lacks k xs ys h g)

ne_nil-append : {A : Type 0} (xs ys : List A) → xs ≢ [] → xs ++ ys ≢ []
ne_nil-append [] ys h = absurd (h refl)
ne_nil-append (x ∷ xs) ys h = λ e. cc e

module _ (method uri version : List ℕ) (m : IsToken b' ' method) (u : IsToken b' ' uri)
    (v : IsToken b' ' version) where
  pub line_text-IsLine : IsLine (line_text method uri version)
  line_text-IsLine = (
    ne_nil-append method ((b' ' ∷ []) ++ (uri ++ ((b' ' ∷ []) ++ version))) m.0,
    All-append-Lacks b'\r' method _ m.2 (refl, All-append-Lacks b'\r' uri _ u.2 (refl, v.2)),
  )

header_text-IsLine : (h : Header) → IsHeader h → IsLine (header_text h)
header_text-IsLine h v = (
  ne_nil-append h.0 ((b':' ∷ []) ++ (b' ' ∷ h.1)) v.name.0,
  All-append-Lacks b'\r' h.0 _ v.name.2 (refl, (refl, v.value_line)),
)

pub All-IsLine : (hs : List Header) → All IsHeader hs → All IsLine (map header_text hs)
All-IsLine [] h = tt
All-IsLine (x ∷ hs) (hx, h) = (header_text-IsLine x hx, All-IsLine hs h)

-- What the request says, each header with its value up to its first colon, and the content length
-- that the headers announce.
abbrev pub read_back : List ℕ → List ℕ → Option (List ℕ) → List ℕ → List Header → Request
read_back method path params version hs = record {
  method = method;
  uri = path;
  http_version = version;
  query_params = params;
  content_length = announced (pos 0) hs;
  headers = map kept_header hs;
}

-- The same of a URI of any kind, of which the path behind a percent sign may be no encoding.
abbrev pub read_back_uri : List ℕ → List ℕ → List ℕ → List Header → Request
read_back_uri method uri version hs =
    read_back method (decode_uri (split_query uri).0) (split_query uri).1 version hs

-- The lines of the section, the last one empty, are parsed.
parse_lines-lines :
    (method uri version : List ℕ) (hs : List Header)
    → IsToken b' ' method
    → IsToken b' ' uri
    → IsToken b' ' version
    → All IsHeader hs
    → parse_lines (line_text method uri version ∷ (map header_text hs ++ ([] ∷ [])))
      ≡ (if is_encoded hs then none else some (read_back_uri method uri version hs))
unfolding parse_lines request_line
parse_lines-lines method uri version hs m u v h =
    rw
      (
        line_cut method uri version m u v,
        parse_lines,
        take-append_length (map header_text hs) ([] ∷ [])
            (length (map header_text hs ++ ([] ∷ [])) - 1)
            (omega (arith, length-append (map header_text hs) ([] ∷ []))),
      )
      (parse_headers-headers hs first h)
  where
    first : Request
    first = record {
      method = method;
      uri = decode_uri (split_query uri).0;
      http_version = version;
      query_params = (split_query uri).1;
      content_length = pos 0;
      headers = [];
    }

pub setup_request-section :
    (method uri version : List ℕ) (hs : List Header)
    → IsToken b' ' method
    → IsToken b' ' uri
    → IsToken b' ' version
    → All IsHeader hs
    → length hs ≤ max_headers
    → setup_request (request_text method uri version hs)
      ≡ (if is_encoded hs then none else some (read_back_uri method uri version hs))
unfolding setup_request request_text
setup_request-section method uri version hs m u v h few =
    let lines = line_text method uri version ∷ map header_text hs in
    let count : length lines ≡ suc (length hs) = ap suc (length-map hs header_text) in
    let cut =
      section_cut lines 66 (line_text-IsLine method uri version m u v, All-IsLine hs h)
        (omega (arith, count)) in
    rw (cut, setup_request)
      (ground (
        arith,
        count,
        length-append lines ([] ∷ []),
        parse_lines-lines method uri version hs m u v h,
      ))

-- A request line and at most 64 header lines, all without NUL, are read back. The line has a method, a
-- URI and a version, none of them empty or with a blank or carriage return; the URI has a path
-- without a question mark, encoded by percent and plus signs and shorter than 2 ^ 64 - 1, and perhaps
-- a question mark and a query. Each header has a name that is not empty, has no colon and begins with
-- no blank, and, behind a colon and a blank, a value that begins with neither a blank nor a colon;
-- neither has a carriage return. The result has the method, the decoded path, the query as it stands,
-- if there is one, the version, the headers in order, each value only up to its first colon, and as
-- the content length the number that the last header Content-Length begins with, as an int, or 0
-- without one. The request is refused exactly if a header is Transfer-Encoding.
pub setup_request-request_text :
    (method path_text path version : List ℕ) (params : Option (List ℕ)) (hs : List Header)
    → Lacks 0 (request_text method (uri_text path_text params) version hs)
    → PathText path_text path
    → Lacks b'?' path_text
    → length path_text + 1 < 2 ^ 64
    → IsToken b' ' method
    → IsToken b' ' (uri_text path_text params)
    → IsToken b' ' version
    → All IsHeader hs
    → length hs ≤ max_headers
    → setup_request (request_text method (uri_text path_text params) version hs)
      ≡ (if is_encoded hs then none else some (read_back method path params version hs))
setup_request-request_text method path_text path version params hs whole p q short m u v h few =
    let read = setup_request-section method (uri_text path_text params) version hs m u v h few in
    rw (split_query-uri_text path_text params q, decode_uri-PathText p short) at read
