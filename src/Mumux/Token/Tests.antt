-- ===== src/Mumux/Token/Tests.antt =====
-- Tokens at concrete texts.
use mavicona.Base.{◌≡◌, refl, true, false, [], ◌∷◌}
use mavicona.Mumux.Token.{tok_inplace, tok_loop, find_sep, starts_with, skipws}

-- Empty tokens are dropped but for the last: ",a,b," has three.
tok_commas :
    tok_inplace (b',' ∷ b'a' ∷ b',' ∷ b',' ∷ b'b' ∷ b',' ∷ []) (b',' ∷ []) 8 false
    ≡ (b'a' ∷ []) ∷ (b'b' ∷ []) ∷ [] ∷ []
unfolding tok_inplace tok_loop find_sep starts_with
tok_commas = refl

-- The last token of the maximum ends at the separator behind it.
tok_cut :
    tok_inplace (b'h' ∷ b':' ∷ b' ' ∷ b'1' ∷ b':' ∷ b'2' ∷ []) (b':' ∷ []) 2 true
    ≡ (b'h' ∷ []) ∷ (b'1' ∷ []) ∷ []
unfolding tok_inplace tok_loop find_sep starts_with skipws
tok_cut = refl
