-- ===== src/Mumux/Url/Query.antt =====
-- `wby_find_query_var` looks a name up among the variables of a query string.
use mavicona.Base.{
  ℕ, ◌+◌, ◌≤◌, ◌<◌, ◌≡◌, refl, Bool, true, false, Option, none, some, List, [], ◌∷◌, ◌++◌, All,
  arith, ltb, ◌==◌, if◌then◌else◌, length, drop, length-append,
}
use mavicona.Mumux.Ascii.{to_lower, eq_nocase}
use mavicona.Mumux.Url.{take_value, var_at, find_from}
use mavicona.Mumux.Url.Encode.{percent_encode}

-- A character that separates nothing.
abbrev pub Differs : ℕ → ℕ → Type 0
Differs k c = (c == k) ≡ false

abbrev pub IsName : List ℕ → Type 0
IsName text = All (Differs b'=') text × All (Differs b'&') text

-- A query string: `key=value` for each variable, joined by `&`, the values percent encoded.
abbrev pub Vars : Type 0
Vars = List (List ℕ × List ℕ)

unfoldable pub var_text : List ℕ → List ℕ → List ℕ
var_text key value = key ++ (b'=' ∷ percent_encode value)

unfoldable pub query : Vars → List ℕ
query [] = []
query ((key, value) ∷ []) = var_text key value
query ((key, value) ∷ v ∷ vars) = var_text key value ++ (b'&' ∷ query (v ∷ vars))

-- The value of the first variable whose key is the name in any case, if its encoding is shorter
-- than the destination.
unfoldable pub lookup_var : List ℕ → ℕ → Vars → Option (List ℕ)
lookup_var name dst_len [] = none
lookup_var name dst_len ((key, value) ∷ vars) =
    let rest = lookup_var name dst_len vars in
    if eq_nocase name key
    then (if ltb (length (percent_encode value)) dst_len then some value else none)
    else rest

module _ (name : List ℕ) (dst_len : ℕ) where
  -- A name does not fit into a text that is no longer.
  find_short :
      (starts : Bool) (p : List ℕ) → length p ≤ length name → find_from starts name p dst_len ≡ none
  unfolding find_from
  find_short starts [] h = refl
  find_short starts (c ∷ p) h = ground arith

  -- Behind the start of a variable nothing is found before the next `&`.
  skip :
      (t tail : List ℕ)
      → All (Differs b'&') t
      → find_from false name (t ++ (b'&' ∷ tail)) dst_len ≡ find_from true name tail dst_len
  unfolding find_from var_at
  skip [] tail h = ground (arith, find_short true tail)
  skip (c ∷ t) tail (hc, h) =
      ground (arith, skip t tail h, find_short true tail, length-append t (b'&' ∷ tail))

  skip_end : (t : List ℕ) → All (Differs b'&') t → find_from false name t dst_len ≡ none
  unfolding find_from var_at
  skip_end [] h = refl
  skip_end (c ∷ t) (hc, h) = ground (arith, skip_end t h)

  -- A variable that has another name is passed over.
  pub miss :
      (t tail : List ℕ)
      → All (Differs b'&') t
      → var_at true name (t ++ (b'&' ∷ tail)) ≡ false
      → find_from true name (t ++ (b'&' ∷ tail)) dst_len ≡ find_from true name tail dst_len
  unfolding find_from
  miss [] tail h other = ground (arith, find_short true tail)
  miss (c ∷ t) tail (hc, h) other =
      ground (arith, skip t tail h, find_short true tail, length-append t (b'&' ∷ tail))

  pub miss_end :
      (t : List ℕ)
      → All (Differs b'&') t
      → var_at true name t ≡ false
      → find_from true name t dst_len ≡ none
  unfolding find_from
  miss_end [] h other = refl
  miss_end (c ∷ t) (hc, h) other = ground (arith, skip_end t h)

  pub hit :
      (p : List ℕ)
      → length name < length p
      → var_at true name p ≡ true
      → find_from true name p dst_len ≡ take_value (drop (length name + 1) p) dst_len
  unfolding find_from
  hit [] h same = absurd (omega arith)
  hit (c ∷ p) h same = ground arith

lower_equals : (a : ℕ) → Differs b'=' a → (to_lower a == to_lower b'=') ≡ false
unfolding to_lower
lower_equals a h = ground arith

-- At the start of a variable the test compares the name with the key.
pub var_at-key :
    (name key w : List ℕ)
    → All (Differs b'=') name
    → All (Differs b'=') key
    → var_at true name (key ++ (b'=' ∷ w)) ≡ eq_nocase name key
unfolding var_at eq_nocase
var_at-key [] [] w hn hk = refl
var_at-key [] (x ∷ key) w hn (hx, hk) = ground arith
var_at-key (a ∷ name) [] w (ha, hn) hk = ground (arith, lower_equals a ha)
var_at-key (a ∷ name) (x ∷ key) w (ha, hn) (hx, hk) = ground (arith, var_at-key name key w hn hk)

pub length-eq_nocase : (a b : List ℕ) → eq_nocase a b ≡ true → length a ≡ length b
unfolding eq_nocase
length-eq_nocase [] [] h = refl
length-eq_nocase [] (y ∷ b) h = cc
length-eq_nocase (x ∷ a) [] h = cc
length-eq_nocase (x ∷ a) (y ∷ b) h = ground (arith, length-eq_nocase a b)
