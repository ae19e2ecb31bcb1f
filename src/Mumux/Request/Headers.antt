-- ===== src/Mumux/Request/Headers.antt =====
-- The loop over the header lines.
use mavicona.Base.{
  ℕ, ◌≡◌, refl, ap, sym, ◌||◌, Bool, true, false, none, some, List, [], ◌∷◌, ◌++◌, All, arith,
  if◌then◌else◌, append_assoc, append-nil, map, u32,
}
use mavicona.Base.Int.{ℤ, to_int}
use mavicona.Mumux.Ascii.{to_lower, eq_nocase}
use mavicona.Mumux.Token.Cut.{up_to}
use mavicona.Mumux.Request.{
  Header, Request, content_length_name, transfer_encoding_name, add_header, parse_headers,
}
use mavicona.Mumux.Request.Number.{strtoul_10}
use mavicona.Mumux.Request.Line.{IsHeader, header_text, header_cut}

-- A header as it is kept: its value ends at its first colon.
abbrev pub kept_header : Header → Header
kept_header h = (h.0, up_to b':' h.1)

-- The content length that the headers announce, behind one announced before.
unfoldable pub announced : ℤ → List Header → ℤ
announced n [] = n
announced n (h ∷ hs) =
    announced
      (if eq_nocase content_length_name h.0 then to_int (u32 (strtoul_10 (up_to b':' h.1))) else n)
      hs

-- Some header is Transfer-Encoding.
unfoldable pub is_encoded : List Header → Bool
is_encoded [] = false
is_encoded (h ∷ hs) = eq_nocase transfer_encoding_name h.0 || is_encoded hs

abbrev pub with_headers : Request → List Header → Request
with_headers req hs = record req {
  headers = req.headers ++ map kept_header hs;
  content_length = announced req.content_length hs;
}

-- No name is both Content-Length and Transfer-Encoding.
names_differ :
    (name : List ℕ)
    → eq_nocase content_length_name name ≡ true
    → eq_nocase transfer_encoding_name name ≡ false
unfolding eq_nocase to_lower
names_differ [] h = refl
names_differ (c ∷ name) h = ground arith

pub parse_headers-headers :
    (hs : List Header) (req : Request)
    → All IsHeader hs
    → parse_headers req (map header_text hs)
      ≡ (if is_encoded hs then none else some (with_headers req hs))
unfolding parse_headers add_header is_encoded announced
parse_headers-headers [] req h =
    ap (λ t. some (record req { headers = t })) (sym (append-nil req.headers))
parse_headers-headers (h ∷ hs) req (v, vs) =
    rw (header_cut h v, parse_headers)
      (ground (
        arith,
        names_differ h.0,
        parse_headers-headers hs kept vs,
        parse_headers-headers hs sized vs,
        append_assoc req.headers (kept_header h ∷ []) (map kept_header hs),
      ))
  where
    kept : Request
    kept = record req { headers = req.headers ++ (kept_header h ∷ []) }

    sized : Request
    sized = record kept { content_length = to_int (u32 (strtoul_10 (up_to b':' h.1))) }
