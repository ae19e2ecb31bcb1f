-- ===== src/Mumux/Base64/Tests.antt =====
-- Base64 at concrete inputs.
use mavicona.Base.{ℕ, ◌≡◌, ◌≤◌, refl, none, some, List, [], ◌∷◌, arith, length}
use mavicona.Mumux.Base64.{
  base64_bufsize, base64_encode, encode_loop, quad, line_break, enc, top_six,
}
use mavicona.Mumux.Base64.Size.{length-encode}
use mavicona.Mumux.Base64.Decode.{base64_decode, decode-encode}

-- "Mavic" is TWF2aWM=
abbrev mavic : List ℕ
mavic = 77 ∷ 97 ∷ 118 ∷ 105 ∷ 99 ∷ []

abbrev mavic_text : List ℕ
mavic_text = 84 ∷ 87 ∷ 70 ∷ 50 ∷ 97 ∷ 87 ∷ 77 ∷ 61 ∷ 0 ∷ []

encode_mavic : base64_encode 64 mavic ≡ some mavic_text
unfolding base64_encode base64_bufsize encode_loop quad line_break enc top_six
encode_mavic = refl

encode_no_room : base64_encode 8 mavic ≡ none
unfolding base64_encode base64_bufsize
encode_no_room = refl

length-encode_example : (length mavic_text ≡ 9) × (length mavic_text ≤ 64)
length-encode_example = length-encode 64 mavic mavic_text (omega arith) encode_mavic

decode-encode_example : base64_decode mavic_text ≡ mavic
decode-encode_example = decode-encode 64 mavic mavic_text (omega arith) encode_mavic
