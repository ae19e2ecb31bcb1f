-- ===== src/Mumux/Response/Text.antt =====
-- The text of a response's head, and the lengths of its lines.
use mavicona.Base.{
  ℕ, ◌<◌, ◌≡◌, refl, Bool, true, false, not, ◌&&◌, ◌||◌, none, some, List, [], ◌∷◌, ◌++◌, arith,
  if◌then◌else◌, length, length-append, All,
}
use mavicona.Base.Int.{ℤ, pos_part}
use mavicona.Base.Text.{codes}
use mavicona.Base.Decimal.{decimal, length-decimal_digits}
use mavicona.Mumux.Ascii.{eq_nocase}
use mavicona.Mumux.Request.{Header, crlf, find_header}
use mavicona.Mumux.Connection.{Connection}
use mavicona.Mumux.Connection.Stream.{IsServing}
use mavicona.Mumux.Response.{
  status_map, text_of, response_status_text, closes, header_line, status_line, length_line,
  connection_name, close_value,
}
use mavicona.Mumux.Response.Print.{IsPlain}

-- The description of a head, part by part.
abbrev pub header_lines : List Header → List ℕ
header_lines [] = []
header_lines (h ∷ headers) = header_line h ++ header_lines headers

abbrev pub some_closes : List Header → Bool
some_closes [] = false
some_closes (h ∷ headers) = closes h || some_closes headers

-- The client sent `Connection: close`.
abbrev pub client_closes : List Header → Bool
client_closes headers = elim (find_header headers connection_name) [
  | none ↦ false
  | some value ↦ eq_nocase close_value value
]

abbrev pub close_line : Bool → List ℕ
close_line b = if b then codes "Connection: close" ++ crlf else []

-- The connection's own flag, or one of the headers.
abbrev pub closing_already : {S : Type 0} → Connection S → List Header → Bool
closing_already conn headers = conn.flags.close_after_response || some_closes headers

abbrev pub closing : {S : Type 0} → Connection S → List Header → Bool
closing conn headers = closing_already conn headers || client_closes conn.request.headers

abbrev pub head_text : {S : Type 0} → Connection S → ℕ → ℤ → List Header → List ℕ
head_text conn status_code n headers =
    (status_line status_code ++ (length_line n ++ (codes "Server: wby" ++ crlf)))
    ++ (header_lines headers
        ++ (close_line (not (closing_already conn headers) && client_closes conn.request.headers)
            ++ crlf))

pub text_short :
    (table : List (ℕ × List ℕ)) (status_code : ℕ)
    → All (λ row. length row.1 < 100) table
    → length (text_of table status_code) < 100
unfolding text_of
text_short [] status_code h = omega arith
text_short ((num, text) ∷ table) status_code h = ground (arith, text_short table status_code h.1)

pub status_line_short : (status_code : ℕ) → length (status_line status_code) < 1024
unfolding status_line response_status_text decimal
status_line_short status_code =
    let text = text_of status_map status_code in
    omega (
      arith,
      text_short status_map status_code (omega arith),
      length-decimal_digits 20 status_code,
      length-append (decimal status_code) (codes " " ++ (text ++ crlf)),
      length-append text crlf,
    )

pub length_line_short : (n : ℤ) → length (length_line n) < 1024
unfolding length_line decimal
length_line_short n =
    ground (arith, length-decimal_digits 20 (pos_part n), length-append (decimal (pos_part n)) crlf)

module _ {S : Type 0} where
  abbrev pub with_close : Connection S → Bool → Connection S
  with_close conn b = record conn { flags = record conn.flags { close_after_response = b } }

  pub with_close-IsServing :
      (conn : Connection S) (b : Bool) → IsServing conn → IsServing (with_close conn b)
  with_close-IsServing conn b v = record {
    serves = v.serves;
    has_room = v.has_room;
    not_over = v.not_over;
  }

  pub with_close-IsPlain :
      (conn : Connection S) (b : Bool) → IsPlain conn → IsPlain (with_close conn b)
  with_close-IsPlain conn b p = record {
    serving = with_close-IsServing conn b p.serving;
    no_websocket = p.no_websocket;
    no_chunks = p.no_chunks;
  }

pub or_false : (b : Bool) → (b || false) ≡ b
or_false true = refl
or_false false = refl

pub or_assoc : (a b c : Bool) → ((a || b) || c) ≡ (a || (b || c))
or_assoc true b c = refl
or_assoc false b c = refl
