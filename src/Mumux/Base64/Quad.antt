-- ===== src/Mumux/Base64/Quad.antt =====
-- The four characters of a quad are the 24 bits of three bytes, six at a time.
use mavicona.Base.{
  ℕ, ◌+◌, ◌*◌, ◌/◌, ◌%◌, ◌^◌, ◌<◌, ◌≡◌, ap, ◌∙◌, [], ◌∷◌, arith, bit_or, u32, ◌<<◌, ltb,
  if◌then◌else◌,
}
use mavicona.Base.Bits.{bit_and_field, bit_and_ones, bit_or_join}
use mavicona.Mumux.Base64.{top_six, quad, enc, join_bytes}

pub top_six_digits : (x : ℕ) → top_six x ≡ x / 2 ^ 18 % 64
unfolding top_six
top_six_digits x = omega (arith, bit_and_field 18 63 x, bit_and_ones 6 (x / 2 ^ 18))

pub join_bytes_sum :
    (a b c : ℕ) → a < 256 → b < 256 → c < 256 → join_bytes a b c ≡ a * 65536 + b * 256 + c
join_bytes_sum a b c ha hb hc =
    let high : bit_or (u32 (a * 2 ^ 16)) (b * 2 ^ 8) ≡ (a * 256 + b) * 2 ^ 8 =
      ap (λ t. bit_or t (b * 2 ^ 8)) (omega arith)
      ∙ bit_or_join 16 a (b * 2 ^ 8) (omega arith)
      ∙ omega arith in
    ap (λ t. bit_or t c) high ∙ bit_or_join 8 (a * 256 + b) c hc ∙ omega arith

-- The sextets, most significant first.
pub quad_sextets :
    (left a b c : ℕ)
    → a < 256
    → b < 256
    → c < 256
    → quad left a b c
      ≡ enc (a / 4)
        ∷ enc (a % 4 * 16 + b / 16)
        ∷ enc (if ltb left 2 then 64 else b % 16 * 4 + c / 64)
        ∷ enc (if ltb left 3 then 64 else c % 64)
        ∷ []
unfolding quad
quad_sextets left a b c ha hb hc =
    let j = join_bytes a b c in
    let i1 = u32 (j << 6) in
    let i2 = u32 (i1 << 6) in
    let i3 = u32 (i2 << 6) in
    let sum = join_bytes_sum a b c ha hb hc in
    let e0 : top_six j ≡ a / 4 = omega (arith, top_six_digits j, sum) in
    let e1 : top_six i1 ≡ a % 4 * 16 + b / 16 = omega (arith, top_six_digits i1, sum) in
    let e2 : top_six i2 ≡ b % 16 * 4 + c / 64 = omega (arith, top_six_digits i2, sum) in
    let e3 : top_six i3 ≡ c % 64 = omega (arith, top_six_digits i3, sum) in rw (e0, e1, e2, e3)
