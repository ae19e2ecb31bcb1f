-- ===== src/Mumux/Request/Line.antt =====
-- The text of a request, and how `wby_tok_inplace` cuts it into lines and tokens.
use mavicona.Base.{
  ℕ, zero, suc, ◌+◌, ◌≤◌, ◌<◌, ◌≡◌, ◌≢◌, refl, ap, ◌∙◌, true, false, List, [], ◌∷◌, ◌++◌, All,
  arith, length, length-append, inl, inr,
}
use mavicona.Mumux.Token.{skipws, starts_with, find_sep, tok_loop, tok_inplace}
use mavicona.Mumux.Token.Cut.{
  Lacks, NoBlankFirst, skipws_nothing, tok_next, tok_last, tok_full, find_sep_absent, up_to,
  Lacks-up_to, cuts_at,
}
use mavicona.Mumux.Request.{Header, crlf}
use native.Mathlib.Numerals.{add-one}

-- `METHOD uri VERSION`
abbrev pub line_text : List ℕ → List ℕ → List ℕ → List ℕ
line_text method uri version = method ++ ((b' ' ∷ []) ++ (uri ++ ((b' ' ∷ []) ++ version)))

-- `Name: value`
abbrev pub header_text : Header → List ℕ
header_text h = h.0 ++ ((b':' ∷ []) ++ (b' ' ∷ h.1))

-- Each line with a line break behind it.
abbrev pub unlines : List (List ℕ) → List ℕ
unlines [] = []
unlines (line ∷ lines) = line ++ (crlf ++ unlines lines)

-- A token of a line: not empty, and without the character `k` and without a carriage return.
abbrev pub IsToken : ℕ → List ℕ → Type 0
IsToken k text = (text ≢ []) × Lacks k text × Lacks b'\r' text

abbrev pub IsLine : List ℕ → Type 0
IsLine text = (text ≢ []) × Lacks b'\r' text

pub lines_cut :
    (lines : List (List ℕ)) (fuel left : ℕ)
    → All IsLine lines
    → length lines < fuel
    → length lines < left
    → tok_loop fuel left crlf false (unlines lines) ≡ lines ++ ([] ∷ [])
lines_cut lines zero left h f l = absurd (omega arith)
lines_cut lines (suc fuel) zero h f l = absurd (omega arith)
lines_cut [] (suc fuel) (suc left) h f l =
    tok_last b'\r' (b'\n' ∷ []) fuel left false [] [] refl (unfold find_sep starts_with in refl)
lines_cut (line ∷ lines) (suc fuel) (suc left) ((full, lacks), h) f l =
    tok_next b'\r' (b'\n' ∷ []) fuel left false (unlines (line ∷ lines)) line (unlines lines) refl
      lacks full
    ∙ ap (λ t. line ∷ t) (lines_cut lines fuel left h (omega arith) (omega arith))

lines-le : (lines : List (List ℕ)) → All IsLine lines → length lines ≤ length (unlines lines)
lines-le [] h = omega arith
lines-le (line ∷ lines) (_, h) = omega (
  arith,
  length-append line (crlf ++ unlines lines),
  length-append crlf (unlines lines),
  lines-le lines h,
)

-- The header section is cut into its lines and an empty text behind the last.
pub section_cut :
    (lines : List (List ℕ)) (max : ℕ)
    → All IsLine lines
    → length lines < max
    → tok_inplace (unlines lines) crlf max false ≡ lines ++ ([] ∷ [])
unfolding tok_inplace
section_cut lines max h l = lines_cut lines _ max h (omega (arith, lines-le lines h)) l

three_tokens :
    (fuel : ℕ) (method uri version : List ℕ)
    → 3 ≤ fuel
    → IsToken b' ' method
    → IsToken b' ' uri
    → IsToken b' ' version
    → tok_loop fuel 16 (b' ' ∷ []) false (line_text method uri version)
      ≡ method ∷ uri ∷ version ∷ []
three_tokens zero method uri version h m u v = absurd (omega arith)
three_tokens (suc zero) method uri version h m u v = absurd (omega arith)
three_tokens (suc (suc zero)) method uri version h m u v = absurd (omega arith)
three_tokens (suc (suc (suc fuel))) method uri version h m u v =
    tok_next b' ' [] (suc (suc fuel)) 15 false (line_text method uri version) method
      (uri ++ ((b' ' ∷ []) ++ version)) refl m.1 m.0
    ∙ ap (λ t. method ∷ t)
        (tok_next b' ' [] (suc fuel) 14 false (uri ++ ((b' ' ∷ []) ++ version)) uri version refl u.1
            u.0
          ∙ ap (λ t. uri ∷ t)
              (tok_last b' ' [] fuel 13 false version version refl
                (find_sep_absent b' ' [] version v.1)))

-- The request line is cut into its three tokens.
pub line_cut :
    (method uri version : List ℕ)
    → IsToken b' ' method
    → IsToken b' ' uri
    → IsToken b' ' version
    → tok_inplace (line_text method uri version) (b' ' ∷ []) 16 false ≡ method ∷ uri ∷ version ∷ []
unfolding tok_inplace
line_cut method uri version m u v =
    three_tokens _ method uri version
      (omega (
        arith,
        length-append method ((b' ' ∷ []) ++ (uri ++ ((b' ' ∷ []) ++ version))),
        length-append uri ((b' ' ∷ []) ++ version),
      ))
      m u v

-- A header's name begins with no blank and has no colon; its value begins with neither.
pub record IsHeader (h : Header) : Type 0 where
  pub name : IsToken b':' h.0
  pub name_first : NoBlankFirst h.0
  pub value_line : Lacks b'\r' h.1
  pub value_first : NoBlankFirst h.1
  pub value_colon : up_to b':' h.1 ≡ [] → h.1 ≡ []

blank_skipped : (text : List ℕ) → NoBlankFirst text → skipws (b' ' ∷ text) ≡ text
blank_skipped text h = unfold skipws in skipws_nothing text h

NoBlankFirst-append :
    (text rest : List ℕ) → text ≢ [] → NoBlankFirst text → NoBlankFirst (text ++ rest)
NoBlankFirst-append [] rest full h = absurd (full refl)
NoBlankFirst-append (c ∷ text) rest full h = h

value_cut :
    (fuel : ℕ) (value : List ℕ)
    → NoBlankFirst value
    → (up_to b':' value ≡ [] → value ≡ [])
    → tok_loop (suc fuel) 1 (b':' ∷ []) true (b' ' ∷ value) ≡ up_to b':' value ∷ []
value_cut fuel value first colon = elim (cuts_at b':' value) [
  | inl (lacks, whole) ↦ rw whole (
      tok_last b':' [] fuel 0 true (b' ' ∷ value) value (blank_skipped value first)
        (find_sep_absent b':' [] value lacks))
  | inr (rest, e) ↦
      tok_next b':' [] fuel 0 true (b' ' ∷ value) (up_to b':' value) rest
        (blank_skipped value first ∙ e) (Lacks-up_to b':' value)
        (λ nil. absurd (
          omega (
            arith,
            ap length (colon nil),
            ap length e,
            length-append (up_to b':' value) ((b':' ∷ []) ++ rest),
          )))
      ∙ ap (λ t. up_to b':' value ∷ t) (tok_full b':' [] fuel true rest)
]

-- A header line is cut into its name and its value, and the value at its first colon.
pub header_cut :
    (h : Header)
    → IsHeader h
    → tok_inplace (header_text h) (b':' ∷ []) 2 true ≡ h.0 ∷ up_to b':' h.1 ∷ []
unfolding tok_inplace
header_cut h v =
    tokens (length (header_text h)) (omega (arith, length-append h.0 ((b':' ∷ []) ++ (b' ' ∷ h.1))))
  where
    tokens :
        (n : ℕ)
        → 1 ≤ n
        → tok_loop (n + 1) 2 (b':' ∷ []) true (header_text h) ≡ h.0 ∷ up_to b':' h.1 ∷ []
    tokens zero le = absurd (omega arith)
    tokens (suc n) le = rw (add-one (suc n)) (
        tok_next b':' [] (suc n) 1 true (header_text h) h.0 (b' ' ∷ h.1)
          (skipws_nothing (header_text h)
            (NoBlankFirst-append h.0 ((b':' ∷ []) ++ (b' ' ∷ h.1)) v.name.0 v.name_first))
          v.name.1 v.name.0
        ∙ ap (λ t. h.0 ∷ t) (value_cut n h.1 v.value_first v.value_colon))
