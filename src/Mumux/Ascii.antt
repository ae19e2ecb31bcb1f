-- ===== src/Mumux/Ascii.antt =====
-- What mumux uses of C's <ctype.h> and <strings.h>, on ASCII. Text is a list of its characters,
-- without the NUL at its end.
use mavicona.Base.{ℕ, ◌+◌, Bool, true, false, ◌&&◌, ◌||◌, List, [], ◌∷◌, leb, ◌==◌, if◌then◌else◌}

unfoldable pub is_digit : ℕ → Bool
is_digit c = leb b'0' c && leb c b'9'

unfoldable pub is_xdigit : ℕ → Bool
unfolding is_digit
is_xdigit c = is_digit c || ((leb b'a' c && leb c b'f') || (leb b'A' c && leb c b'F'))

unfoldable pub to_lower : ℕ → ℕ
to_lower c = if leb b'A' c && leb c b'Z' then c + 32 else c

-- `strcasecmp(a, b) == 0`
unfoldable pub eq_nocase : List ℕ → List ℕ → Bool
unfolding to_lower
eq_nocase [] [] = true
eq_nocase [] (b ∷ bs) = false
eq_nocase (a ∷ as') [] = false
eq_nocase (a ∷ as') (b ∷ bs) = to_lower a == to_lower b && eq_nocase as' bs

-- The text in front of the first NUL of a buffer.
abbrev pub before_nul : List ℕ → List ℕ
before_nul [] = []
before_nul (c ∷ cs) = if c == 0 then [] else c ∷ before_nul cs
