-- ===== src/Mumux/Url/Bounds.antt =====
-- How much the decoder writes.
use mavicona.Base.{
  ℕ, ◌+◌, ◌-◌, ◌%◌, ◌^◌, true, ◌≤◌, ◌<◌, ◌≡◌, Bool, some, List, [], ◌∷◌, arith, ◌==◌, length, drop,
}
use mavicona.Mumux.Url.{
  decode_loop, url_decode, take_value, value_length, find_from, find_query_var,
}

length-decode_loop :
    (n room : ℕ) (form : Bool) (src : List ℕ)
    → (length (decode_loop n room form src) ≤ room) × (length (decode_loop n room form src) ≤ n)
unfolding decode_loop
length-decode_loop n room form [] = omega arith
length-decode_loop n room form (c ∷ []) = ground arith
length-decode_loop n room form (c ∷ a ∷ []) =
    ground (arith, length-decode_loop (n - 1) (room - 1) form (a ∷ []))
length-decode_loop n room form (c ∷ a ∷ b ∷ src) = ground (
  arith,
  length-decode_loop (n - 3) (room - 1) form src,
  length-decode_loop (n - 1) (room - 1) form (a ∷ b ∷ src),
)

-- Into a destination of at least one and fewer than 2 ^ 64 bytes, `wby_url_decode` writes at most
-- `dst_len - 1` bytes in front of its NUL, and at most as many as the source has.
pub length-url_decode :
    (src : List ℕ) (src_len dst_len : ℕ) (form : Bool)
    → 0 < dst_len
    → dst_len < 2 ^ 64
    → (length (url_decode src src_len dst_len form) < dst_len)
      × (length (url_decode src src_len dst_len form) ≤ src_len)
unfolding url_decode
length-url_decode src src_len dst_len form pos fits =
    omega (arith, length-decode_loop src_len ((dst_len + 2 ^ 64 - 1) % 2 ^ 64) form src)

length-find_from :
    (starts : Bool) (name p : List ℕ) (dst_len : ℕ) (out : List ℕ)
    → 0 < dst_len
    → dst_len < 2 ^ 64
    → find_from starts name p dst_len ≡ some out
    → length out < dst_len
unfolding find_from take_value
length-find_from starts name [] dst_len out pos fits e = ground arith
length-find_from starts name (c ∷ p) dst_len out pos fits e = ground (
  arith,
  length-find_from (c == b'&') name p dst_len out pos fits,
  length-url_decode (drop (length name + 1) (c ∷ p)) (value_length (drop (length name + 1) (c ∷ p)))
      dst_len true,
)

-- A value that `wby_find_query_var` found, with its NUL, fits its destination of at least one and
-- fewer than 2 ^ 64 bytes.
pub length-find_query_var :
    (buf name : List ℕ) (dst_len : ℕ) (out : List ℕ)
    → 0 < dst_len
    → dst_len < 2 ^ 64
    → find_query_var buf name dst_len ≡ some out
    → length out < dst_len
unfolding find_query_var
length-find_query_var buf name dst_len out pos fits e =
    length-find_from true name buf dst_len out pos fits e
