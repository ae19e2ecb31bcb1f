-- ===== src/Mumux/Url/Encode.antt =====
-- Percent encoding as RFC 3986 describes it is undone by `wby_url_decode`.
use mavicona.Base.{
  ℕ, zero, suc, ◌+◌, ◌-◌, ◌/◌, ◌%◌, ◌^◌, ◌≤◌, ◌<◌, ◌≡◌, refl, ap, Bool, true, false, ◌&&◌, ◌||◌,
  List, [], ◌∷◌, ◌++◌, All, arith, ltb, leb, ◌==◌, if◌then◌else◌, length, Bool-cases, ==_iff, inl,
  inr,
}
use mavicona.Base.Table.{every, every_sound, agree_below}
use mavicona.Mumux.Ascii.{is_digit, is_xdigit, to_lower}
use mavicona.Mumux.Url.{decode_loop, url_decode, hex_byte, hex_to_i, plain_byte}

-- The characters that need no encoding: letters, digits, `-`, `.`, `_` and `~`.
unfoldable pub is_unreserved : ℕ → Bool
is_unreserved c =
    (leb b'0' c && leb c b'9')
    || ((leb b'A' c && leb c b'Z')
        || ((leb b'a' c && leb c b'z') || ((c == b'-' || c == b'.') || (c == b'_' || c == b'~'))))

unfoldable pub upper_hex : ℕ → ℕ
upper_hex d = if ltb d 10 then b'0' + d else b'A' + (d - 10)

unfoldable pub percent_encode : List ℕ → List ℕ
percent_encode [] = []
percent_encode (c ∷ cs) =
    let rest = percent_encode cs in
    if is_unreserved c then c ∷ rest else b'%' ∷ upper_hex (c / 16) ∷ upper_hex (c % 16) ∷ rest

-- Facts about all bytes, by evaluation.
hex_byte-upper_hex : (c : ℕ) → c < 256 → hex_byte (upper_hex (c / 16)) (upper_hex (c % 16)) ≡ c
unfolding every hex_byte hex_to_i to_lower is_digit upper_hex
hex_byte-upper_hex c h =
    agree_below 256 (λ c. hex_byte (upper_hex (c / 16)) (upper_hex (c % 16))) (λ c. c) c refl h

pub is_xdigit-upper_hex : (d : ℕ) → d < 16 → is_xdigit (upper_hex d) ≡ true
unfolding every is_xdigit upper_hex
is_xdigit-upper_hex d h = every_sound (λ d. is_xdigit (upper_hex d)) d 16 h refl

pub unreserved_ne : (c k : ℕ) → is_unreserved c ≡ true → is_unreserved k ≡ false → (c == k) ≡ false
unreserved_ne c k hc hk = elim (Bool-cases (c == k)) [
  | inl same ↦ cc (hc, hk, ap is_unreserved ((==_iff c k).0 same))
  | inr differ ↦ differ
]

-- An unreserved character stands for itself.
unreserved_plain :
    (form : Bool) (c : ℕ) → is_unreserved c ≡ true → (plain_byte form c ≡ c) × ((c == b'%') ≡ false)
unfolding plain_byte
unreserved_plain form c h = (
  ground (arith, unreserved_ne c b'+' h (unfold is_unreserved in refl)),
  unreserved_ne c b'%' h (unfold is_unreserved in refl),
)

-- One step of the loop on a character that is not encoded.
decode_plain :
    (n room : ℕ) (form : Bool) (c : ℕ) (rest : List ℕ)
    → is_unreserved c ≡ true
    → decode_loop (suc n) (suc room) form (c ∷ rest) ≡ c ∷ decode_loop n room form rest
unfolding decode_loop
decode_plain n room form c [] h = ground (arith, unreserved_plain form c h)
decode_plain n room form c (a ∷ []) h = ground (arith, unreserved_plain form c h)
decode_plain n room form c (a ∷ b ∷ rest) h = ground (arith, unreserved_plain form c h)

pub decode_hex :
    (n room : ℕ) (form : Bool) (c : ℕ) (rest : List ℕ)
    → c < 256
    → decode_loop (3 + n) (suc room) form (b'%' ∷ upper_hex (c / 16) ∷ upper_hex (c % 16) ∷ rest)
      ≡ c ∷ decode_loop n room form rest
unfolding decode_loop
decode_hex n room form c rest h =
    ground
      (arith, hex_byte-upper_hex c h, is_xdigit-upper_hex (c / 16), is_xdigit-upper_hex (c % 16))

pub decode_nothing : (room : ℕ) (form : Bool) (rest : List ℕ) → decode_loop 0 room form rest ≡ []
unfolding decode_loop
decode_nothing room form [] = refl
decode_nothing room form (c ∷ []) = refl
decode_nothing room form (c ∷ a ∷ []) = refl
decode_nothing room form (c ∷ a ∷ b ∷ rest) = refl

-- The loop on an encoded text, with room for what it stands for, and more memory behind it.
decode_loop-percent_encode :
    (bs rest : List ℕ) (n room : ℕ) (form : Bool)
    → All (λ c. c < 256) bs
    → n ≡ length (percent_encode bs)
    → length bs ≤ room
    → decode_loop n room form (percent_encode bs ++ rest) ≡ bs
unfolding percent_encode
decode_loop-percent_encode [] rest n room form h e fits = rw e (decode_nothing room form rest)
decode_loop-percent_encode (c ∷ cs) rest n zero form h e fits = absurd (omega arith)
decode_loop-percent_encode (c ∷ cs) rest n (suc room) form (hc, h) e fits =
    let more = length (percent_encode cs) in
    let ih = decode_loop-percent_encode cs rest more room form h refl (omega arith) in
    elim (Bool-cases (is_unreserved c)) [
      | inl plain ↦
          let size : n ≡ suc more = rw plain at e in
          rw (plain, size, decode_plain more room form c (percent_encode cs ++ rest) plain, ih)
      | inr coded ↦
          let three : n ≡ suc (suc (suc more)) = rw coded at e in
          let size : n ≡ 3 + more = omega (arith, three) in
          rw (coded, size, decode_hex more room form c (percent_encode cs ++ rest) hc, ih)
    ]

-- Decoding gives back any bytes that were percent encoded, with and without form encoding and
-- whatever stands in memory behind the text, into a destination that has room for them and a NUL.
pub decode-percent_encode :
    (bs rest : List ℕ) (dst_len : ℕ) (form : Bool)
    → All (λ c. c < 256) bs
    → length bs < dst_len
    → dst_len < 2 ^ 64
    → url_decode (percent_encode bs ++ rest) (length (percent_encode bs)) dst_len form ≡ bs
unfolding url_decode
decode-percent_encode bs rest dst_len form h room fits =
    decode_loop-percent_encode bs rest (length (percent_encode bs)) _ form h refl (omega arith)
