-- ===== src/Mumux/Base64.antt =====
-- mumux/base64.c: the Base64 encoder, with its check of the output's size.
pub mod Quad
pub mod Size
pub mod Decode
mod Tests
use mavicona.Base.{
  ℕ, ◌+◌, ◌*◌, ◌/◌, Option, none, some, List, [], ◌∷◌, ◌++◌, bit_and, bit_or, u32, u64, ◌<<◌, ◌>>◌,
  ltb, ◌==◌, if◌then◌else◌, length, get_or,
}

-- `BASE64_QUADS_BEFORE_LINEBREAK`
abbrev pub quads_before_linebreak : ℕ
quads_before_linebreak = 19

-- `unsigned long` arithmetic.
unfoldable pub base64_bufsize : ℕ → ℕ
base64_bufsize input_size =
    let triplets = u64 (input_size + 2) / 3 in
    let base_size = u64 (4 * triplets) in
    let line_breaks = u64 (2 * (triplets / quads_before_linebreak)) in
    u64 (base_size + line_breaks + 1)

-- "ABCDEFGHIJKLMNOPQRSTUVWXYZabcdefghijklmnopqrstuvwxyz0123456789+/="
abbrev pub enc_table : List ℕ
enc_table =
    65 ∷ 66 ∷ 67 ∷ 68 ∷ 69 ∷ 70 ∷ 71 ∷ 72 ∷ 73 ∷ 74 ∷ 75 ∷ 76 ∷ 77 ∷ 78 ∷ 79 ∷ 80 ∷ 81 ∷ 82 ∷ 83
    ∷ 84 ∷ 85 ∷ 86 ∷ 87 ∷ 88 ∷ 89 ∷ 90 ∷ 97 ∷ 98 ∷ 99 ∷ 100 ∷ 101 ∷ 102 ∷ 103 ∷ 104 ∷ 105 ∷ 106
    ∷ 107 ∷ 108 ∷ 109 ∷ 110 ∷ 111 ∷ 112 ∷ 113 ∷ 114 ∷ 115 ∷ 116 ∷ 117 ∷ 118 ∷ 119 ∷ 120 ∷ 121 ∷ 122
    ∷ 48 ∷ 49 ∷ 50 ∷ 51 ∷ 52 ∷ 53 ∷ 54 ∷ 55 ∷ 56 ∷ 57 ∷ 43 ∷ 47 ∷ 61 ∷ []

unfoldable pub enc : ℕ → ℕ
enc i = get_or enc_table i 0

-- `(i0 & 0xfc0000) >> 18`
unfoldable pub top_six : ℕ → ℕ
top_six i0 = bit_and i0 0xfc0000 >> 18

abbrev pub join_bytes : ℕ → ℕ → ℕ → ℕ
join_bytes a b c = bit_or (bit_or (u32 (a << 16)) (b << 8)) c

-- The four characters for three bytes; `left` is how many bytes of the input were left, and a byte
-- past the end is 0. `i - 1 > input_size` is `left < 2` and `i > input_size` is `left < 3`.
unfoldable pub quad : ℕ → ℕ → ℕ → ℕ → List ℕ
quad left a b c =
    let i0 = join_bytes a b c in
    let i1 = u32 (i0 << 6) in
    let i2 = u32 (i1 << 6) in
    let i3 = u32 (i2 << 6) in
    let idx_2 = if ltb left 2 then 64 else top_six i2 in
    let idx_3 = if ltb left 3 then 64 else top_six i3 in
    enc (top_six i0) ∷ enc (top_six i1) ∷ enc idx_2 ∷ enc idx_3 ∷ []

-- `line_out` is the count of quads, this one included; the source never resets it.
unfoldable pub line_break : ℕ → List ℕ
line_break line_out = if line_out == quads_before_linebreak then b'\r' ∷ b'\n' ∷ [] else []

-- The loop over the rest of the input, after `line_out` quads.
unfoldable pub encode_loop : ℕ → List ℕ → List ℕ
encode_loop line_out [] = []
encode_loop line_out (a ∷ []) = quad 1 a 0 0 ++ line_break (line_out + 1)
encode_loop line_out (a ∷ b ∷ []) = quad 2 a b 0 ++ line_break (line_out + 1)
encode_loop line_out (a ∷ b ∷ c ∷ input) =
    quad 3 a b c ++ (line_break (line_out + 1) ++ encode_loop (line_out + 1) input)

-- The bytes written to `output`, the final NUL included; `none` is the return value 1.
unfoldable pub base64_encode : ℕ → List ℕ → Option (List ℕ)
base64_encode output_size input =
    if ltb output_size (base64_bufsize (length input))
    then none
    else some (encode_loop 0 input ++ (0 ∷ []))
