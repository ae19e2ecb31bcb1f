-- ===== src/Mumux/Url.antt =====
-- mumux/url.c: percent decoding, and the search for a variable of a query string.
pub mod Bounds
pub mod Encode
pub mod Query
pub mod Lookup
mod Tests
use mavicona.Base.{
  ℕ, ◌+◌, ◌-◌, ◌^◌, Bool, true, false, ◌&&◌, ◌||◌, Option, none, some, List, [], ◌∷◌, ◌++◌, bit_or,
  u8, u64, ◌<<◌, ltb, ◌==◌, if◌then◌else◌, length, take, drop, get_or,
}
use mavicona.Mumux.Ascii.{is_digit, is_xdigit, to_lower, eq_nocase}

-- The macro `HEXTOI`, on a digit in lower case.
unfoldable pub hex_to_i : ℕ → ℕ
unfolding is_digit
hex_to_i x = if is_digit x then x - b'0' else x - b'W'

-- The byte for `%` and two digits.
unfoldable pub hex_byte : ℕ → ℕ → ℕ
hex_byte a b = u8 (bit_or (hex_to_i (to_lower a) << 4) (hex_to_i (to_lower b)))

unfoldable pub plain_byte : Bool → ℕ → ℕ
plain_byte form c = if form && c == b'+' then b' ' else c

-- The loop, with `n` characters of the source left (`src_len - i`) and room for `room` more bytes
-- (`dst_len - 1 - j`). The list is the memory from `src + i` on; it goes on behind the `n`
-- characters, and behind its end stands a byte that is no digit, such as a NUL.
unfoldable pub decode_loop : ℕ → ℕ → Bool → List ℕ → List ℕ
decode_loop n room form [] = []
decode_loop n room form (c ∷ []) = if n == 0 || room == 0 then [] else plain_byte form c ∷ []
decode_loop n room form (c ∷ a ∷ []) =
    let plain = plain_byte form c ∷ decode_loop (n - 1) (room - 1) form (a ∷ []) in
    if n == 0 || room == 0 then [] else plain
decode_loop n room form (c ∷ a ∷ b ∷ src) =
    let hex = hex_byte a b ∷ decode_loop (n - 3) (room - 1) form src in
    let plain = plain_byte form c ∷ decode_loop (n - 1) (room - 1) form (a ∷ b ∷ src) in
    if n == 0 || room == 0
    then []
    else if c == b'%' && (is_xdigit a && is_xdigit b)
    then hex
    else plain

-- The bytes written to `dst` in front of its NUL; their number is returned. The test
-- `j < dst_len - 1` is on `unsigned long`.
unfoldable pub url_decode : List ℕ → ℕ → ℕ → Bool → List ℕ
url_decode src src_len dst_len form = decode_loop src_len (u64 (dst_len + 2 ^ 64 - 1)) form src

-- `memchr(p, '&', e - p)` less `p`, or `e - p`.
unfoldable pub value_length : List ℕ → ℕ
value_length [] = 0
value_length (c ∷ cs) = let rest = 1 + value_length cs in if c == b'&' then 0 else rest

-- What is done where the variable was found; the list is the text behind the `=`.
unfoldable pub take_value : List ℕ → ℕ → Option (List ℕ)
take_value p dst_len =
    if ltb (value_length p) dst_len then some (url_decode p (value_length p) dst_len true) else none

-- The test of the loop at `p`: whether a variable starts there that has the name.
unfoldable pub var_at : Bool → List ℕ → List ℕ → Bool
var_at starts name p =
    starts && (get_or p (length name) 0 == b'=' && eq_nocase name (take (length name) p))

-- The loop over `p`; `starts` is `p == buf || p[-1] == '&'`.
unfoldable pub find_from : Bool → List ℕ → List ℕ → ℕ → Option (List ℕ)
find_from starts name [] dst_len = none
find_from starts name (c ∷ p) dst_len =
    let next = find_from (c == b'&') name p dst_len in
    if ltb (length name) (length (c ∷ p))
    then if var_at starts name (c ∷ p)
      then take_value (drop (length name + 1) (c ∷ p)) dst_len
      else next
    else none

-- `none` is -1, with an empty `dst`; otherwise the bytes in `dst`, whose number is returned.
unfoldable pub find_query_var : List ℕ → List ℕ → ℕ → Option (List ℕ)
find_query_var buf name dst_len = find_from true name buf dst_len
