-- ===== src/Mumux/Token.antt =====
-- `wby_skipws` and `wby_tok_inplace` of mumux/util.c. The function writes a NUL over each separator
-- that it finds, so a token ends there: a token is a text of its own here.
pub mod Cut
mod Tests
use mavicona.Base.{
  ℕ, zero, suc, ◌+◌, ◌-◌, Bool, true, false, ◌&&◌, ◌||◌, Option, none, some, List, [], ◌∷◌, ◌==◌,
  if◌then◌else◌, length, drop,
}

unfoldable pub skipws : List ℕ → List ℕ
skipws [] = []
skipws (c ∷ p) = let rest = skipws p in if c == b' ' || c == b'\t' then rest else c ∷ p

unfoldable pub starts_with : List ℕ → List ℕ → Bool
starts_with [] text = true
starts_with (x ∷ sep) [] = false
starts_with (x ∷ sep) (c ∷ text) = x == c && starts_with sep text

-- `strstr(text, sep)`: what stands before the first separator, and what stands behind it.
unfoldable pub find_sep : List ℕ → List ℕ → Option (List ℕ × List ℕ)
find_sep sep [] = if starts_with sep [] then some ([], []) else none
find_sep sep (c ∷ text) =
    let later : Option (List ℕ × List ℕ) = elim (find_sep sep text) [
      | none ↦ none
      | some (before, behind) ↦ some (c ∷ before, behind)
    ] in
    if starts_with sep (c ∷ text) then some ([], drop (length sep) (c ∷ text)) else later

-- The loop with room for `left` more tokens (`max - token_count`). A round takes a separator off
-- the text, so fuel for each character and one more is enough.
unfoldable pub tok_loop : ℕ → ℕ → List ℕ → Bool → List ℕ → List (List ℕ)
tok_loop zero left sep skip text = []
tok_loop (suc fuel) left sep skip text =
    let b = if skip then skipws text else text in
    let tokens : List (List ℕ) = elim (find_sep sep b) [
      | none ↦ b ∷ []
      | some (token, rest) ↦
          let kept = token ∷ tok_loop fuel (left - 1) sep skip rest in
          let dropped = tok_loop fuel left sep skip rest in
          if length token == 0 then dropped else kept
    ] in
    if left == 0 then [] else tokens

-- The tokens; their number is returned. `skip` is the flag WBY_TOK_SKIPWS.
unfoldable pub tok_inplace : List ℕ → List ℕ → ℕ → Bool → List (List ℕ)
tok_inplace buf sep max skip = tok_loop (length buf + 1) max sep skip buf
