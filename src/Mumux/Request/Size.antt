-- ===== src/Mumux/Request/Size.antt =====
-- The size of a request that was written out, in a buffer that holds more.
use mavicona.Base.{
  ℕ, ◌+◌, ◌≤◌, ◌≡◌, refl, ap, ◌∙◌, false, some, List, [], ◌∷◌, ◌++◌, All, append_assoc, arith, ◌==◌,
  length, length-append, map,
}
use mavicona.Mumux.Peek.{peek_from, peek_request_size}
use mavicona.Mumux.Token.Cut.{Lacks}
use mavicona.Mumux.Request.{Header, crlf}
use mavicona.Mumux.Request.Line.{IsToken, IsLine, IsHeader, line_text, header_text, unlines}
use mavicona.Mumux.Request.Parse.{request_text, line_text-IsLine, All-IsLine}

-- A byte that is no carriage return is passed over.
peek_other :
    (i c : ℕ) (rest : List ℕ)
    → (b'\r' == c) ≡ false
    → 3 ≤ length rest
    → peek_from i (c ∷ rest) ≡ peek_from (i + 1) rest
unfolding peek_from
peek_other i c [] h l = absurd (omega arith)
peek_other i c (x ∷ []) h l = absurd (omega arith)
peek_other i c (x ∷ y ∷ []) h l = absurd (omega arith)
peek_other i c (x ∷ y ∷ z ∷ rest) h l = ground arith

peek_line :
    (i : ℕ) (line rest : List ℕ)
    → Lacks b'\r' line
    → 3 ≤ length rest
    → peek_from i (line ++ rest) ≡ peek_from (i + length line) rest
peek_line i [] rest h l = ap (λ k. peek_from k rest) (omega arith)
peek_line i (c ∷ line) rest (hc, h) l =
    peek_other i c (line ++ rest) hc (omega (arith, length-append line rest))
    ∙ peek_line (i + 1) line rest h l
    ∙ ap (λ k. peek_from k rest) (omega arith)

plus_two : (i : ℕ) → i + 1 + 1 ≡ i + 2
plus_two i = omega arith

-- A line break with a line behind it is passed over.
peek_break :
    (i c : ℕ) (rest : List ℕ)
    → (b'\r' == c) ≡ false
    → 2 ≤ length rest
    → peek_from i (crlf ++ (c ∷ rest)) ≡ peek_from (i + 2) (c ∷ rest)
unfolding peek_from
peek_break i c [] h l = absurd (omega arith)
peek_break i c (x ∷ []) h l = absurd (omega arith)
peek_break i c (x ∷ y ∷ rest) h l =
    ground (arith, ap (λ k. peek_from k (c ∷ x ∷ y ∷ rest)) (plus_two i))

peek_end : (i : ℕ) (body : List ℕ) → peek_from i (crlf ++ (crlf ++ body)) ≡ some (i + 4)
unfolding peek_from
peek_end i body = refl

-- From the break behind a line on.
peek_lines :
    (i : ℕ) (lines : List (List ℕ)) (body : List ℕ)
    → All IsLine lines
    → peek_from i (crlf ++ (unlines lines ++ (crlf ++ body)))
      ≡ some (i + length (unlines lines) + 4)
peek_lines i [] body h = peek_end i body ∙ ap some (omega arith)
peek_lines i ([] ∷ lines) body ((full, _), h) = absurd (full refl)
peek_lines i ((c ∷ line) ∷ lines) body ((full, (hc, lacks)), h) =
    let rest = unlines lines ++ (crlf ++ body) in
    let size = length-append (unlines lines) (crlf ++ body) in
    ap (λ t. peek_from i (crlf ++ t))
      (append_assoc (c ∷ line) (crlf ++ unlines lines) (crlf ++ body))
    ∙ peek_break i c (line ++ (crlf ++ rest)) hc
        (omega (arith, size, length-append line (crlf ++ rest)))
    ∙ peek_line (i + 2) (c ∷ line) (crlf ++ rest) (hc, lacks) (omega (arith, size))
    ∙ peek_lines (i + 2 + length (c ∷ line)) lines body h
    ∙ ap some (omega (arith, length-append line (crlf ++ unlines lines)))

-- The size of a request of tokens and headers ends behind its blank line, whatever follows it in the
-- buffer.
pub peek_request_size-request_text :
    (method uri version : List ℕ) (hs : List Header) (body : List ℕ)
    → IsToken b' ' method
    → IsToken b' ' uri
    → IsToken b' ' version
    → All IsHeader hs
    → peek_request_size (request_text method uri version hs ++ (crlf ++ body))
      ≡ some (length (request_text method uri version hs) + 2)
unfolding peek_request_size request_text
peek_request_size-request_text method uri version hs body m u v h =
    let line = line_text method uri version in
    let rest = unlines (map header_text hs) ++ (crlf ++ body) in
    let first = line_text-IsLine method uri version m u v in
    ap (λ t. peek_from 0 t)
      (append_assoc line (crlf ++ unlines (map header_text hs)) (crlf ++ body))
    ∙ peek_line 0 line (crlf ++ rest) first.1
        (omega (arith, length-append (unlines (map header_text hs)) (crlf ++ body)))
    ∙ peek_lines (0 + length line) (map header_text hs) body (All-IsLine hs h)
    ∙ ap some (omega (arith, length-append line (crlf ++ unlines (map header_text hs))))
