-- ===== src/Mumux/Base64/Decode.antt =====
-- Base64 is decoded as RFC 4648 says, and line breaks are skipped.
use mavicona.Base.{
  ℕ, ◌+◌, ◌*◌, ◌/◌, ◌%◌, ◌<◌, ◌≡◌, refl, ap, ◌∙◌, some, List, [], ◌∷◌, ◌++◌, append_assoc, arith,
  ltb, ◌==◌, ◌||◌, if◌then◌else◌, All,
}
use mavicona.Base.Table.{every, agree_below}
use mavicona.Mumux.Base64.{enc, enc_table, quad, line_break, encode_loop, base64_encode}
use mavicona.Mumux.Base64.Quad.{quad_sextets}

-- The position of a character in the alphabet.
index_from : ℕ → ℕ → List ℕ → ℕ
index_from c i [] = i
index_from c i (x ∷ xs) = let rest = index_from c (i + 1) xs in if x == c then i else rest

unfoldable pub sextet : ℕ → ℕ
unfolding index_from
sextet c = index_from c 0 enc_table

-- The text up to a NUL, without carriage returns and line feeds.
unfoldable pub strip : List ℕ → List ℕ
strip [] = []
strip (c ∷ cs) =
    let rest = strip cs in
    if c == 0 then [] else if c == b'\r' || c == b'\n' then rest else c ∷ rest

-- The bytes of quads; `=` ends the text.
unfoldable pub decode_quads : List ℕ → List ℕ
decode_quads (p ∷ q ∷ r ∷ s ∷ rest) =
    let x = sextet p * 4 + sextet q / 16 in
    let y = sextet q % 16 * 16 + sextet r / 4 in
    let z = sextet r % 4 * 64 + sextet s in
    let more = decode_quads rest in
    if r == b'=' then x ∷ [] else if s == b'=' then x ∷ y ∷ [] else x ∷ y ∷ z ∷ more
decode_quads _ = []

unfoldable pub base64_decode : List ℕ → List ℕ
base64_decode text = decode_quads (strip text)

-- Facts about the 65 characters, by evaluation.
sextet-enc : (i : ℕ) → i < 65 → sextet (enc i) ≡ i
unfolding every sextet enc
sextet-enc i h = agree_below 65 (λ i. sextet (enc i)) (λ i. i) i refl h

abbrev is_skipped : ℕ → ℕ
is_skipped c = if c == 0 || (c == b'\r' || c == b'\n') then 1 else 0

enc_kept : (i : ℕ) → i < 65 → is_skipped (enc i) ≡ 0
unfolding every enc
enc_kept i h = agree_below 65 (λ i. is_skipped (enc i)) (λ i. 0) i refl h

abbrev is_one : ℕ → ℕ → ℕ
is_one c d = if c == d then 1 else 0

enc_padding : (i : ℕ) → i < 65 → is_one (enc i) b'=' ≡ is_one i 64
unfolding every enc
enc_padding i h = agree_below 65 (λ i. is_one (enc i) b'=') (λ i. is_one i 64) i refl h

strip-enc : (i : ℕ) (cs : List ℕ) → i < 65 → strip (enc i ∷ cs) ≡ enc i ∷ strip cs
unfolding strip
strip-enc i cs h = ground (arith, enc_kept i h)

strip-quad :
    (left a b c : ℕ) (cs : List ℕ)
    → a < 256
    → b < 256
    → c < 256
    → strip (quad left a b c ++ cs) ≡ quad left a b c ++ strip cs
strip-quad left a b c cs ha hb hc = rw (quad_sextets left a b c ha hb hc) (
    strip-enc (a / 4) _ (omega arith)
    ∙ ap (λ t. enc (a / 4) ∷ t)
        (strip-enc (a % 4 * 16 + b / 16) _ (omega arith)
          ∙ ap (λ t. enc (a % 4 * 16 + b / 16) ∷ t)
              (strip-enc (if ltb left 2 then 64 else b % 16 * 4 + c / 64) _ (ground arith)
                ∙ ap (λ t. enc (if ltb left 2 then 64 else b % 16 * 4 + c / 64) ∷ t)
                    (strip-enc (if ltb left 3 then 64 else c % 64) cs (ground arith)))))

strip-line_break : (k : ℕ) (cs : List ℕ) → strip (line_break k ++ cs) ≡ strip cs
unfolding strip line_break
strip-line_break k cs = ground arith

-- A quad by its sextets, where 64 stands for the padding.
decode_sextets :
    (i j k l : ℕ) (rest : List ℕ)
    → i < 64
    → j < 64
    → k < 65
    → l < 65
    → decode_quads (enc i ∷ enc j ∷ enc k ∷ enc l ∷ rest) ≡ (
        if k == 64
        then (i * 4 + j / 16) ∷ []
        else if l == 64
        then (i * 4 + j / 16) ∷ (j % 16 * 16 + k / 4) ∷ []
        else (i * 4 + j / 16) ∷ (j % 16 * 16 + k / 4) ∷ (k % 4 * 64 + l) ∷ decode_quads rest)
unfolding decode_quads
decode_sextets i j k l rest hi hj hk hl =
    ground
      (arith, sextet-enc i, sextet-enc j, sextet-enc k, sextet-enc l, enc_padding k, enc_padding l)

decode-quad :
    (left a b c : ℕ) (rest : List ℕ)
    → a < 256
    → b < 256
    → c < 256
    → decode_quads (quad left a b c ++ rest)
      ≡ decode_quads (
          enc (a / 4)
          ∷ enc (a % 4 * 16 + b / 16)
          ∷ enc (if ltb left 2 then 64 else b % 16 * 4 + c / 64)
          ∷ enc (if ltb left 3 then 64 else c % 64)
          ∷ rest)
decode-quad left a b c rest ha hb hc =
    ap (λ t. decode_quads (t ++ rest)) (quad_sextets left a b c ha hb hc)

decode_three :
    (a b c : ℕ) (rest : List ℕ)
    → a < 256
    → b < 256
    → c < 256
    → decode_quads (quad 3 a b c ++ rest) ≡ a ∷ b ∷ c ∷ decode_quads rest
decode_three a b c rest ha hb hc = ground (
  arith,
  decode-quad 3 a b c rest ha hb hc,
  decode_sextets (a / 4) (a % 4 * 16 + b / 16) (b % 16 * 4 + c / 64) (c % 64) rest,
)

decode_two :
    (a b : ℕ) (rest : List ℕ) → a < 256 → b < 256 → decode_quads (quad 2 a b 0 ++ rest) ≡ a ∷ b ∷ []
decode_two a b rest ha hb = ground (
  arith,
  decode-quad 2 a b 0 rest ha hb (omega arith),
  decode_sextets (a / 4) (a % 4 * 16 + b / 16) (b % 16 * 4) 64 rest,
)

decode_one : (a : ℕ) (rest : List ℕ) → a < 256 → decode_quads (quad 1 a 0 0 ++ rest) ≡ a ∷ []
decode_one a rest ha = ground (
  arith,
  decode-quad 1 a 0 0 rest ha (omega arith) (omega arith),
  decode_sextets (a / 4) (a % 4 * 16) 64 64 rest,
)

abbrev pub IsByte : ℕ → Type 0
IsByte b = b < 256

decode-encode_loop :
    (k : ℕ) (input : List ℕ)
    → All IsByte input
    → base64_decode (encode_loop k input ++ (0 ∷ [])) ≡ input
unfolding base64_decode encode_loop
decode-encode_loop k [] h = unfold strip decode_quads in refl
decode-encode_loop k (a ∷ []) (ha, _) =
    ap (λ t. decode_quads (strip t)) (append_assoc (quad 1 a 0 0) (line_break (k + 1)) (0 ∷ []))
    ∙ rw (strip-quad 1 a 0 0 (line_break (k + 1) ++ (0 ∷ [])) ha (omega arith) (omega arith))
        (decode_one a _ ha)
decode-encode_loop k (a ∷ b ∷ []) (ha, (hb, _)) =
    ap (λ t. decode_quads (strip t)) (append_assoc (quad 2 a b 0) (line_break (k + 1)) (0 ∷ []))
    ∙ rw (strip-quad 2 a b 0 (line_break (k + 1) ++ (0 ∷ [])) ha hb (omega arith))
        (decode_two a b _ ha hb)
decode-encode_loop k (a ∷ b ∷ c ∷ input) (ha, (hb, (hc, h))) =
    let rest = encode_loop (k + 1) input in
    ap (λ t. decode_quads (strip t))
      (append_assoc (quad 3 a b c) (line_break (k + 1) ++ rest) (0 ∷ [])
        ∙ ap (λ t. quad 3 a b c ++ t) (append_assoc (line_break (k + 1)) rest (0 ∷ [])))
    ∙ rw
        (
          strip-quad 3 a b c (line_break (k + 1) ++ (rest ++ (0 ∷ []))) ha hb hc,
          strip-line_break (k + 1) (rest ++ (0 ∷ [])),
          decode_three a b c (strip (rest ++ (0 ∷ []))) ha hb hc,
        )
        (ap (λ t. a ∷ b ∷ c ∷ t) (decode-encode_loop (k + 1) input h))

-- For an input of bytes, whatever a successful encoding writes is decoded to that input.
pub decode-encode :
    (output_size : ℕ) (input out : List ℕ)
    → All IsByte input
    → base64_encode output_size input ≡ some out
    → base64_decode out ≡ input
unfolding base64_encode
decode-encode output_size input out h e = ground (arith, decode-encode_loop 0 input h)
