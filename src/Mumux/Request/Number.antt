-- ===== src/Mumux/Request/Number.antt =====
-- C's `strtoul(text, NULL, 10)`.
use mavicona.Base.{
  ℕ, ◌+◌, ◌-◌, ◌*◌, ◌^◌, min, ◌||◌, ◌&&◌, List, [], ◌∷◌, ◌==◌, leb, ltb, if◌then◌else◌,
}
use mavicona.Mumux.Ascii.{is_digit}

-- The digits, with the number read so far.
unfoldable pub read_digits : ℕ → List ℕ → ℕ
read_digits acc [] = acc
read_digits acc (c ∷ text) =
    let rest = read_digits (acc * 10 + (c - b'0')) text in if is_digit c then rest else acc

unfoldable pub skip_space : List ℕ → List ℕ
skip_space [] = []
skip_space (c ∷ text) =
    let rest = skip_space text in if c == b' ' || (leb 9 c && leb c 13) then rest else c ∷ text

-- A number that does not fit is ULONG_MAX; a minus sign negates modulo 2 ^ 64.
unfoldable pub signed_digits : List ℕ → ℕ
signed_digits [] = 0
signed_digits (c ∷ text) =
    let n = min (read_digits 0 text) (2 ^ 64 - 1) in
    let all = min (read_digits 0 (c ∷ text)) (2 ^ 64 - 1) in
    if c == b'-'
    then (if ltb (2 ^ 64 - 1) (read_digits 0 text) || n == 0 then n else 2 ^ 64 - n)
    else if c == b'+'
    then n
    else all

unfoldable pub strtoul_10 : List ℕ → ℕ
strtoul_10 text = signed_digits (skip_space text)
