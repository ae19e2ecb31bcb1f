-- ===== src/Mumux/Peek.antt =====
-- `wb_peek_request_size` of mumux/util.c: where the header section of a request ends.
mod Tests
use mavicona.Base.{
  ℕ, zero, suc, ◌+◌, ◌-◌, ◌≤◌, ◌<◌, ◌≡◌, ◌↔◌, refl, ap, ◌&&◌, length-take, length-drop, Bool, true,
  false, Option, none, some, List, [], ◌∷◌, ◌++◌, arith, ◌==◌, ==_iff, if◌then◌else◌, length, take,
  drop, Bool-cases, inl, inr,
}

-- CR LF CR LF
abbrev pub is_end : ℕ → ℕ → ℕ → ℕ → Bool
is_end a b c d = a == b'\r' && (b == b'\n' && (c == b'\r' && d == b'\n'))

-- The loop at index `i`; it goes on while four bytes are left. `none` is -1.
unfoldable pub peek_from : ℕ → List ℕ → Option ℕ
peek_from i (a ∷ b ∷ c ∷ d ∷ buf) =
    let next = peek_from (i + 1) (b ∷ c ∷ d ∷ buf) in if is_end a b c d then some (i + 4) else next
peek_from i _ = none

unfoldable pub peek_request_size : List ℕ → Option ℕ
peek_request_size buf = peek_from 0 buf

abbrev pub blank_line : List ℕ
blank_line = b'\r' ∷ b'\n' ∷ b'\r' ∷ b'\n' ∷ []

-- A blank line stands at index `i`.
abbrev pub EndsAt : List ℕ → ℕ → Type 0
EndsAt buf i = take 4 (drop i buf) ≡ blank_line

-- `i` is the first index at which one stands.
pub record IsFirstEnd (buf : List ℕ) (i : ℕ) : Type 0 where
  pub at : EndsAt buf i
  pub inside : i + 4 ≤ length buf
  pub first : (j : ℕ) → j < i → ¬ (EndsAt buf j)

-- The answer of the loop, counted from the start of its list.
abbrev Answers : ℕ → List ℕ → Option ℕ → Type 0
Answers i buf none = (j : ℕ) → ¬ (EndsAt buf j)
Answers i buf (some n) = (k : ℕ) × (n ≡ i + (k + 4)) × IsFirstEnd buf k

short-not-EndsAt : (buf : List ℕ) (j : ℕ) → length buf < 4 → ¬ (EndsAt buf j)
short-not-EndsAt buf j h e =
    omega (arith, ap length e, length-take 4 (drop j buf), length-drop j buf)

is_end_iff : (a b c d : ℕ) → (is_end a b c d ≡ true) ↔ (a ∷ b ∷ c ∷ d ∷ [] ≡ blank_line)
is_end_iff a b c d = ground arith

-- An answer about the list without its first byte serves the whole list.
Answers-cons :
    (i x : ℕ) (buf : List ℕ) (o : Option ℕ)
    → ¬ (EndsAt (x ∷ buf) 0)
    → Answers (i + 1) buf o
    → Answers i (x ∷ buf) o
Answers-cons i x buf none not_here h =
    λ j. elim j as (λ j. ¬ (EndsAt (x ∷ buf) j)) [ zero ↦ not_here | suc j ↦ h j ]
Answers-cons i x buf (some n) not_here (k, e, f) = (
  suc k,
  omega arith,
  record {
    at = f.at;
    inside = omega (arith, f.inside);
    first = λ j. elim j as (λ j. j < suc k → ¬ (EndsAt (x ∷ buf) j)) [
      | zero ↦ λ _. not_here
      | suc j ↦ λ lt. f.first j (omega arith)
    ];
  },
)

peek_from-Answers : (i : ℕ) (buf : List ℕ) → Answers i buf (peek_from i buf)
unfolding peek_from
peek_from-Answers i (a ∷ b ∷ c ∷ d ∷ buf) = elim (Bool-cases (is_end a b c d)) [
  | inl here ↦ rw here (
    0,
    omega arith,
    record {
      at = (is_end_iff a b c d).0 here;
      inside = omega arith;
      first = λ j lt. absurd (omega arith);
    },
  )
  | inr later ↦ rw later (
      Answers-cons i a (b ∷ c ∷ d ∷ buf) (peek_from (i + 1) (b ∷ c ∷ d ∷ buf))
        (λ e. cc (later, (is_end_iff a b c d).1 e)) (peek_from-Answers (i + 1) (b ∷ c ∷ d ∷ buf)))
]
peek_from-Answers i [] = λ j. short-not-EndsAt [] j (omega arith)
peek_from-Answers i (a ∷ []) = λ j. short-not-EndsAt (a ∷ []) j (omega arith)
peek_from-Answers i (a ∷ b ∷ []) = λ j. short-not-EndsAt (a ∷ b ∷ []) j (omega arith)
peek_from-Answers i (a ∷ b ∷ c ∷ []) = λ j. short-not-EndsAt (a ∷ b ∷ c ∷ []) j (omega arith)

-- What a request size, or its absence, says of the buffer.
abbrev pub IsRequestSize : List ℕ → Option ℕ → Type 0
IsRequestSize buf none = (j : ℕ) → ¬ (EndsAt buf j)
IsRequestSize buf (some n) = (k : ℕ) × (n ≡ k + 4) × IsFirstEnd buf k

-- `wb_peek_request_size` answers with the end of the first blank line of the buffer, and with -1
-- exactly when the buffer has no blank line.
pub peek_request_size_lem : (buf : List ℕ) → IsRequestSize buf (peek_request_size buf)
unfolding peek_request_size
peek_request_size_lem buf = from_start (peek_from 0 buf) (peek_from-Answers 0 buf)
  where
    from_start : (o : Option ℕ) → Answers 0 buf o → IsRequestSize buf o
    from_start none h = h
    from_start (some n) (k, e, f) = (k, omega arith, f)
