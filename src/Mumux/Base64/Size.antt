-- ===== src/Mumux/Base64/Size.antt =====
-- How much `wby_base64_encode` writes.
use mavicona.Base.{
  ℕ, ◌+◌, ◌*◌, ◌/◌, ◌^◌, ◌≤◌, ◌<◌, ◌≡◌, some, List, [], ◌∷◌, ◌++◌, arith, ltb, leb, ◌&&◌,
  if◌then◌else◌, length, length-append,
}
use mavicona.Mumux.Base64.{base64_bufsize, base64_encode, encode_loop, quad, line_break}

length-quad : (left a b c : ℕ) → length (quad left a b c) ≡ 4
unfolding quad
length-quad left a b c = omega arith

-- A break is written in front of quad 20 if there is one, and nowhere else.
length-encode_loop :
    (k : ℕ) (input : List ℕ)
    → length (encode_loop k input)
      ≡ 4 * ((length input + 2) / 3)
        + (if ltb k 19 && leb 19 (k + (length input + 2) / 3) then 2 else 0)
unfolding encode_loop line_break
length-encode_loop k [] = ground arith
length-encode_loop k (a ∷ []) =
    ground (arith, length-append (quad 1 a 0 0) (line_break (k + 1)), length-quad 1 a 0 0)
length-encode_loop k (a ∷ b ∷ []) =
    ground (arith, length-append (quad 2 a b 0) (line_break (k + 1)), length-quad 2 a b 0)
length-encode_loop k (a ∷ b ∷ c ∷ input) = ground (
  arith,
  length-append (quad 3 a b c) (line_break (k + 1) ++ encode_loop (k + 1) input),
  length-append (line_break (k + 1)) (encode_loop (k + 1) input),
  length-quad 3 a b c,
  length-encode_loop (k + 1) input,
)

-- For an input of fewer than 2 ^ 60 bytes, a successful encoding writes four characters for each
-- group of three bytes, two more for a line break if there are 19 groups, and a NUL; so it never
-- writes past the end of the output.
pub length-encode :
    (output_size : ℕ) (input out : List ℕ)
    → length input < 2 ^ 60
    → base64_encode output_size input ≡ some out
    → (length out
        ≡ 4 * ((length input + 2) / 3) + (if leb 19 ((length input + 2) / 3) then 2 else 0) + 1)
      × (length out ≤ output_size)
unfolding base64_encode base64_bufsize
length-encode output_size input out small e =
    ground (arith, length-append (encode_loop 0 input) (0 ∷ []), length-encode_loop 0 input)
