-- ===== src/Mumux/Token/Cut.antt =====
-- How a text of tokens and separators is cut.
use mavicona.Base.{
  ℕ, zero, suc, ◌-◌, ◌≡◌, ◌≢◌, refl, ap, ◌||◌, Bool, true, false, none, some, List, [], ◌∷◌, ◌++◌,
  All, arith, ◌==◌, ==_iff, if◌then◌else◌, length, drop, Bool-cases, inl, inr, ◌⊎◌, sym,
}
use mavicona.Mumux.Token.{skipws, starts_with, find_sep, tok_loop}

-- A text without the character `k`.
abbrev pub Lacks : ℕ → List ℕ → Type 0
Lacks k = All (λ c. (k == c) ≡ false)

-- A text that does not begin with a blank.
abbrev pub NoBlankFirst : List ℕ → Type 0
NoBlankFirst [] = Unit
NoBlankFirst (c ∷ text) = (c == b' ' || c == b'\t') ≡ false

pub skipws_nothing : (text : List ℕ) → NoBlankFirst text → skipws text ≡ text
unfolding skipws
skipws_nothing [] h = refl
skipws_nothing (c ∷ text) h = rw h

succ-ne-zero : (n : ℕ) → (suc n == 0) ≡ false
succ-ne-zero n = ground arith

pred-succ : (n : ℕ) → suc n - 1 ≡ n
pred-succ n = omega arith

module _ (k : ℕ) (sep : List ℕ) where
  pub find_sep_absent : (text : List ℕ) → Lacks k text → find_sep (k ∷ sep) text ≡ none
  unfolding find_sep starts_with
  find_sep_absent [] h = refl
  find_sep_absent (c ∷ text) (hc, h) = ground (arith, find_sep_absent text h)

  starts_with_self : (s rest : List ℕ) → starts_with s (s ++ rest) ≡ true
  unfolding starts_with
  starts_with_self [] rest = refl
  starts_with_self (x ∷ s) rest = ground (arith, starts_with_self s rest)

  drop_self : (s rest : List ℕ) → drop (length s) (s ++ rest) ≡ rest
  drop_self [] rest = refl
  drop_self (x ∷ s) rest = drop_self s rest

  find_sep_first :
      (token rest : List ℕ)
      → Lacks k token
      → find_sep (k ∷ sep) (token ++ ((k ∷ sep) ++ rest)) ≡ some (token, rest)
  unfolding find_sep
  find_sep_first [] rest h =
      rw (starts_with_self (k ∷ sep) rest) (ap (λ t. some ([], t)) (drop_self (k ∷ sep) rest))
  find_sep_first (c ∷ token) rest (hc, h) =
      let differs : starts_with (k ∷ sep) (c ∷ (token ++ ((k ∷ sep) ++ rest))) ≡ false =
        unfold starts_with in ground (arith, hc) in
      rw (differs, find_sep_first token rest h)

  -- A token with a separator behind it is cut off.
  pub tok_next :
      (fuel left : ℕ) (skip : Bool) (text token rest : List ℕ)
      → (if skip then skipws text else text) ≡ token ++ ((k ∷ sep) ++ rest)
      → Lacks k token
      → token ≢ []
      → tok_loop (suc fuel) (suc left) (k ∷ sep) skip text
        ≡ token ∷ tok_loop fuel left (k ∷ sep) skip rest
  unfolding tok_loop
  tok_next fuel left skip text [] rest b h full = absurd (full refl)
  tok_next fuel left skip text (c ∷ token) rest b h full = rw (
    b,
    find_sep_first (c ∷ token) rest h,
    succ-ne-zero left,
    succ-ne-zero (length token),
    pred-succ left,
  )

  -- The text behind the last separator is the last token, also where it is empty.
  pub tok_last :
      (fuel left : ℕ) (skip : Bool) (text token : List ℕ)
      → (if skip then skipws text else text) ≡ token
      → find_sep (k ∷ sep) token ≡ none
      → tok_loop (suc fuel) (suc left) (k ∷ sep) skip text ≡ token ∷ []
  unfolding tok_loop
  tok_last fuel left skip text token b h = rw (b, h, succ-ne-zero left, b)

  pub tok_full : (fuel : ℕ) (skip : Bool) (text : List ℕ) → tok_loop fuel 0 (k ∷ sep) skip text ≡ []
  unfolding tok_loop
  tok_full zero skip text = refl
  tok_full (suc fuel) skip text = refl

-- The text in front of the first `k`.
abbrev pub up_to : ℕ → List ℕ → List ℕ
up_to k [] = []
up_to k (c ∷ text) = if k == c then [] else c ∷ up_to k text

pub Lacks-up_to : (k : ℕ) (text : List ℕ) → Lacks k (up_to k text)
Lacks-up_to k [] = tt
Lacks-up_to k (c ∷ text) = elim (Bool-cases (k == c)) [
  | inl here ↦ rw here tt
  | inr later ↦ rw later (later, Lacks-up_to k text)
]

-- A separator of one character does not occur, or the text goes on with it.
abbrev pub CutsAt : ℕ → List ℕ → Type 0
CutsAt k text =
    (Lacks k text × (up_to k text ≡ text))
    ⊎ ((rest : List ℕ) × (text ≡ up_to k text ++ ((k ∷ []) ++ rest)))

pub cuts_at : (k : ℕ) (text : List ℕ) → CutsAt k text
cuts_at k [] = inl (tt, refl)
cuts_at k (c ∷ text) = elim (Bool-cases (k == c)) [
  | inl here ↦ inr (text, rw here (ap (λ t. t ∷ text) (sym ((==_iff k c).0 here))))
  | inr later ↦ elim (cuts_at k text) [
    | inl (absent, whole) ↦ inl ((later, absent), rw later (ap (λ t. c ∷ t) whole))
    | inr (rest, e) ↦ inr (rest, rw later (ap (λ t. c ∷ t) e))
  ]
]
