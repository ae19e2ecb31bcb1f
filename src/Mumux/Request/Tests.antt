-- ===== src/Mumux/Request/Tests.antt =====
-- A request at a concrete text.
use mavicona.Base.{ℕ, ◌≡◌, refl, some, List, [], ◌∷◌, arith}
use mavicona.Base.Int.{pos}
use mavicona.Mumux.Ascii.{eq_nocase, to_lower, is_digit}
use mavicona.Mumux.Request.{Header, content_length_name, setup_request}
use mavicona.Mumux.Request.Number.{strtoul_10, signed_digits, skip_space, read_digits}
use mavicona.Mumux.Request.Line.{IsToken, IsHeader}
use mavicona.Mumux.Token.Cut.{Lacks}
use mavicona.Mumux.Url.Encode.{upper_hex}
use mavicona.Mumux.Request.Path.{PathText, path_end, as_itself, as_hex, uri_text}
use mavicona.Mumux.Request.Headers.{is_encoded, announced}
use mavicona.Mumux.Request.Parse.{request_text, read_back, setup_request-request_text}

-- "GET /a%20b?q HTTP", with "Host: h:80" and "Content-Length: 12".
abbrev get : List ℕ
get = b'G' ∷ b'E' ∷ b'T' ∷ []

abbrev path_text : List ℕ
path_text = b'/' ∷ b'a' ∷ b'%' ∷ b'2' ∷ b'0' ∷ b'b' ∷ []

abbrev http : List ℕ
http = b'H' ∷ b'T' ∷ b'T' ∷ b'P' ∷ []

abbrev host : Header
host = (b'H' ∷ b'o' ∷ [], b'h' ∷ b':' ∷ b'8' ∷ [])

abbrev size : Header
size = (content_length_name, b'1' ∷ b'2' ∷ [])

get-IsToken : IsToken b' ' get
get-IsToken = (λ e. cc e, (refl, (refl, (refl, tt))), (refl, (refl, (refl, tt))))

uri-IsToken : IsToken b' ' (uri_text path_text (some (b'q' ∷ [])))
uri-IsToken = grind arith

http-IsToken : IsToken b' ' http
http-IsToken = grind arith

host-IsHeader : IsHeader host
host-IsHeader = record {
  name = grind arith;
  name_first = refl;
  value_line = (refl, (refl, (refl, tt)));
  value_first = refl;
  value_colon = λ e. cc e;
}

size-IsHeader : IsHeader size
size-IsHeader = record {
  name = grind arith;
  name_first = refl;
  value_line = (refl, (refl, tt));
  value_first = refl;
  value_colon = λ e. cc e;
}

abbrev path : List ℕ
path = b'/' ∷ b'a' ∷ b' ' ∷ b'b' ∷ []

path_text-PathText : PathText path_text path
unfolding upper_hex
path_text-PathText =
    as_itself (λ e. omega arith) (λ e. omega arith)
      (as_itself (λ e. omega arith) (λ e. omega arith)
        (as_hex {c = 32} (omega arith) (omega arith)
          (as_itself (λ e. omega arith) (λ e. omega arith) path_end)))

whole_text :
    Lacks 0 (request_text get (uri_text path_text (some (b'q' ∷ []))) http (host ∷ size ∷ []))
unfolding request_text
whole_text = grind arith

-- The port of the host is lost, and the length is read.
read_back_fields : read_back get path (some (b'q' ∷ [])) http (host ∷ size ∷ []) ≡ record {
  method = get;
  uri = path;
  http_version = http;
  query_params = some (b'q' ∷ []);
  content_length = pos 12;
  headers = (b'H' ∷ b'o' ∷ [], b'h' ∷ []) ∷ size ∷ [];
}
unfolding announced eq_nocase to_lower strtoul_10 signed_digits skip_space read_digits is_digit
read_back_fields = refl

setup_request-request_text_example :
    setup_request (request_text get (uri_text path_text (some (b'q' ∷ []))) http (host ∷ size ∷ []))
    ≡ some (read_back get path (some (b'q' ∷ [])) http (host ∷ size ∷ []))
unfolding is_encoded eq_nocase to_lower
setup_request-request_text_example =
    setup_request-request_text get path_text path http (some (b'q' ∷ [])) (host ∷ size ∷ [])
      whole_text path_text-PathText (refl, (refl, (refl, (refl, (refl, (refl, tt)))))) (omega arith)
      get-IsToken uri-IsToken http-IsToken (host-IsHeader, (size-IsHeader, tt)) (omega arith)
