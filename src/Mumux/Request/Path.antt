-- ===== src/Mumux/Request/Path.antt =====
-- The path and the query of a request's URI, as `wby_connection_setup_request` reads them.
use mavicona.Base.{
  ℕ, zero, suc, ◌+◌, ◌/◌, ◌%◌, ◌^◌, ◌≤◌, ◌<◌, ◌≡◌, ◌≢◌, refl, ap, true, false, List, [], ◌∷◌, ◌++◌,
  arith, ◌==◌, length, Option, none, some, Bool-cases, ==_iff, inl, inr, ◌∙◌,
}
use mavicona.Mumux.Token.Cut.{Lacks}
use mavicona.Mumux.Url.{decode_loop, url_decode, plain_byte}
use mavicona.Mumux.Url.Encode.{upper_hex, decode_hex, decode_nothing}
use mavicona.Mumux.Request.{split_query, decode_uri}

-- A text that stands for a path: a character stands for itself, unless it is a percent sign or a plus
-- sign; a plus sign stands for a blank; and any byte but NUL is a percent sign with two hexadecimal
-- digits.
pub data PathText : List ℕ → List ℕ → Type 0 where
  path_end : PathText [] []
  as_itself :
      {c : ℕ} {text path : List ℕ}
      → c ≢ b'%'
      → c ≢ b'+'
      → PathText text path
      → PathText (c ∷ text) (c ∷ path)
  as_plus : {text path : List ℕ} → PathText text path → PathText (b'+' ∷ text) (b' ' ∷ path)
  as_hex :
      {c : ℕ} {text path : List ℕ}
      → 0 < c
      → c < 256
      → PathText text path
      → PathText (b'%' ∷ upper_hex (c / 16) ∷ upper_hex (c % 16) ∷ text) (c ∷ path)

-- A path with its query, if it has one.
abbrev pub uri_text : List ℕ → Option (List ℕ) → List ℕ
uri_text path_text none = path_text
uri_text path_text (some params) = path_text ++ (b'?' ∷ params)

decode_char :
    (n room c d : ℕ) (rest : List ℕ)
    → plain_byte true c ≡ d
    → (c == b'%') ≡ false
    → decode_loop (suc n) (suc room) true (c ∷ rest) ≡ d ∷ decode_loop n room true rest
unfolding decode_loop
decode_char n room c d [] h g = ground (arith, h, g)
decode_char n room c d (a ∷ []) h g = ground (arith, h, g)
decode_char n room c d (a ∷ b ∷ rest) h g = ground (arith, h, g)

differs : (c k : ℕ) → c ≢ k → (c == k) ≡ false
differs c k h = elim (Bool-cases (c == k)) [ inl e ↦ absurd (h ((==_iff c k).0 e)) | inr e ↦ e ]

plain_itself : (c : ℕ) → c ≢ b'+' → plain_byte true c ≡ c
unfolding plain_byte
plain_itself c h = rw (differs c b'+' h) refl

shorter : {text path : List ℕ} → PathText text path → length path ≤ length text
shorter path_end = omega arith
shorter (as_itself p q h) = omega (arith, shorter h)
shorter (as_plus h) = omega (arith, shorter h)
shorter (as_hex l u h) = omega (arith, shorter h)

decode_loop-PathText :
    {text path : List ℕ} (rest : List ℕ) (n room : ℕ)
    → PathText text path
    → n ≡ length text
    → length path ≤ room
    → decode_loop n room true (text ++ rest) ≡ path
decode_loop-PathText rest n room path_end e fits = rw e (decode_nothing room true rest)
decode_loop-PathText rest n zero (as_itself p q h) e fits = absurd (omega arith)
decode_loop-PathText rest n zero (as_plus h) e fits = absurd (omega arith)
decode_loop-PathText rest n zero (as_hex l u h) e fits = absurd (omega arith)
decode_loop-PathText rest n (suc room) (as_itself {c = c} {text = text} p q h) e fits = rw e (
    decode_char (length text) room c c (text ++ rest) (plain_itself c q) (differs c b'%' p)
    ∙ ap (λ t. c ∷ t) (decode_loop-PathText rest (length text) room h refl (omega arith)))
decode_loop-PathText rest n (suc room) (as_plus {text = text} h) e fits = rw e (
    decode_char (length text) room b'+' b' ' (text ++ rest) (unfold plain_byte in refl) refl
    ∙ ap (λ t. b' ' ∷ t) (decode_loop-PathText rest (length text) room h refl (omega arith)))
decode_loop-PathText rest n (suc room) (as_hex {c = c} {text = text} l u h) e fits =
    let size : n ≡ 3 + length text = omega (arith, e) in
    rw size (
      decode_hex (length text) room true c (text ++ rest) u
      ∙ ap (λ t. c ∷ t) (decode_loop-PathText rest (length text) room h refl (omega arith)))

-- The path is decoded.
pub decode_uri-PathText :
    {text path : List ℕ} → PathText text path → length text + 1 < 2 ^ 64 → decode_uri text ≡ path
unfolding decode_uri url_decode
decode_uri-PathText {text} h short =
    decode_loop-PathText (0 ∷ []) (length text) _ h refl (omega (arith, shorter h))

turned : (k c : ℕ) → (k == c) ≡ false → (c == k) ≡ false
turned k c h = ground (arith, h)

split_query-text :
    (path_text : List ℕ) → Lacks b'?' path_text → split_query path_text ≡ (path_text, none)
unfolding split_query
split_query-text [] h = refl
split_query-text (c ∷ text) (hc, h) =
    rw (split_query-text text h, split_query) (simp (turned b'?' c hc) refl)

split_query-params :
    (path_text params : List ℕ)
    → Lacks b'?' path_text
    → split_query (path_text ++ (b'?' ∷ params)) ≡ (path_text, some params)
unfolding split_query
split_query-params [] params h = refl
split_query-params (c ∷ text) params (hc, h) =
    rw (split_query-params text params h, split_query) (simp (turned b'?' c hc) refl)

-- The query is what stands behind the first question mark.
pub split_query-uri_text :
    (path_text : List ℕ) (params : Option (List ℕ))
    → Lacks b'?' path_text
    → split_query (uri_text path_text params) ≡ (path_text, params)
split_query-uri_text path_text none h = split_query-text path_text h
split_query-uri_text path_text (some params) h = split_query-params path_text params h
