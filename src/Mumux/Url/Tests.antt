-- ===== src/Mumux/Url/Tests.antt =====
-- Percent decoding and query strings at concrete texts.
use mavicona.Base.{◌≡◌, refl, true, some, [], ◌∷◌, arith, All}
use mavicona.Mumux.Ascii.{is_xdigit, to_lower, eq_nocase}
use mavicona.Mumux.Url.{
  url_decode, decode_loop, hex_byte, hex_to_i, plain_byte, find_query_var, find_from, var_at,
  take_value, value_length,
}
use mavicona.Mumux.Url.Encode.{percent_encode, is_unreserved, upper_hex}
use mavicona.Mumux.Url.Query.{Vars, query, var_text, lookup_var}
use mavicona.Mumux.Url.Lookup.{IsVar, find_query_var-query}

-- a%20b+c is "a b c" in a form, and the percent sign at its end stays.
decode_text :
    url_decode (b'a' ∷ b'%' ∷ b'2' ∷ b'0' ∷ b'b' ∷ b'+' ∷ b'c' ∷ b'%' ∷ 0 ∷ []) 8 16 true
    ≡ b'a' ∷ b' ' ∷ b'b' ∷ b' ' ∷ b'c' ∷ b'%' ∷ []
unfolding url_decode decode_loop hex_byte hex_to_i plain_byte is_xdigit to_lower
decode_text = refl

-- id=7&Name=x%26y
abbrev vars : Vars
vars = ((b'i' ∷ b'd' ∷ []), (b'7' ∷ [])) ∷ ((b'N' ∷ b'm' ∷ []), (b'x' ∷ b'&' ∷ [])) ∷ []

find_name : find_query_var (query vars) (b'n' ∷ b'M' ∷ []) 16 ≡ some (b'x' ∷ b'&' ∷ [])
unfolding find_query_var find_from var_at take_value value_length query var_text percent_encode
    is_unreserved upper_hex url_decode decode_loop hex_byte hex_to_i plain_byte is_xdigit to_lower
    eq_nocase
find_name = refl

vars-IsVar : All IsVar vars
vars-IsVar = (
  (((refl, (refl, tt)), (refl, (refl, tt))), omega arith),
  ((((refl, (refl, tt)), (refl, (refl, tt))), omega arith), tt),
)

find_query_var-query_example :
    find_query_var (query vars) (b'n' ∷ b'M' ∷ []) 16 ≡ some (b'x' ∷ b'&' ∷ [])
unfolding lookup_var eq_nocase percent_encode is_unreserved
find_query_var-query_example =
    find_query_var-query (b'n' ∷ b'M' ∷ []) 16 vars (omega arith) (refl, (refl, tt)) vars-IsVar
