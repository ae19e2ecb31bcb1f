-- ===== src/Base/Stdio.antt =====
-- The files of the C library: the bytes of a file and the position in it, and what the calls of
-- stdio do with them. The calls are those on an open file that has no errors.
pub mod Written
use mavicona.Base.{
  ℕ, zero, suc, ◌+◌, ◌-◌, ◌*◌, ◌/◌, ◌%◌, ◌^◌, ◌≤◌, ◌<◌, min, max, ◌≡◌, ◌⊎◌, inl, inr, refl, ap,
  List, [], ◌∷◌, ◌++◌, Bool, true, false, Bool-cases, arith, length, drop, ltb, ◌==◌, if◌then◌else◌,
}

-- `at` is the byte at an offset below `size`.
pub record File : Type 0 where
  pub size : ℕ
  pub at : ℕ → ℕ
  pub pos : ℕ

abbrev pub empty_file : File
empty_file = record { size = 0; at = λ q. 0; pos = 0 }

abbrev pub seek : ℕ → File → File
seek offset f = record f { pos = offset }

unfoldable pub slice : (ℕ → ℕ) → ℕ → ℕ → List ℕ
slice at pos zero = []
slice at pos (suc n) = at pos ∷ slice at (suc pos) n

unfoldable pub overwrite : (ℕ → ℕ) → ℕ → List ℕ → ℕ → ℕ
overwrite at pos [] q = at q
overwrite at pos (b ∷ bytes) q =
    let rest = overwrite at (suc pos) bytes q in if q == pos then b else rest

-- The bytes that are there, at most `n`.
abbrev pub available : ℕ → File → ℕ
available n f = min n (f.size - f.pos)

unfoldable pub fread : ℕ → File → List ℕ × File
fread n f = (slice f.at f.pos (available n f), record f { pos = f.pos + available n f })

-- A gap between the end of the file and what is written reads as zeros.
unfoldable pub fwrite : List ℕ → File → File
fwrite [] f = f
fwrite (b ∷ bytes) f = record {
  size = max f.size (f.pos + length (b ∷ bytes));
  at = overwrite (λ q. if ltb q f.size then f.at q else 0) f.pos (b ∷ bytes);
  pos = f.pos + length (b ∷ bytes);
}

-- A variable of which `fread` set the first bytes.
abbrev pub overlay : List ℕ → List ℕ → List ℕ
overlay got old = got ++ drop (length got) old

-- The bytes of a word, the lowest first.
unfoldable pub le : ℕ → ℕ → List ℕ
le zero n = []
le (suc k) n = n % 256 ∷ le k (n / 256)

unfoldable pub un_le : List ℕ → ℕ
un_le [] = 0
un_le (b ∷ bytes) = b + 256 * un_le bytes

-- A text up to its first NUL.
unfoldable pub c_str : List ℕ → List ℕ
c_str [] = []
c_str (c ∷ s) = let rest = c_str s in if c == 0 then [] else c ∷ rest

unfoldable pub same : List ℕ → List ℕ → Bool
same [] [] = Bool.true
same [] (y ∷ t) = Bool.false
same (x ∷ s) [] = Bool.false
same (x ∷ s) (y ∷ t) = let rest = same s t in if x == y then rest else Bool.false

pub length-slice : (at : ℕ → ℕ) (pos n : ℕ) → length (slice at pos n) ≡ n
unfolding slice
length-slice at pos zero = refl
length-slice at pos (suc n) = ap suc (length-slice at (suc pos) n)

pub length-le : (k n : ℕ) → length (le k n) ≡ k
unfolding le
length-le zero n = refl
length-le (suc k) n = ap suc (length-le k (n / 256))

pub slice_agree :
    (f g : ℕ → ℕ) (pos n : ℕ)
    → ((q : ℕ) → pos ≤ q → q < pos + n → f q ≡ g q)
    → slice f pos n ≡ slice g pos n
unfolding slice
slice_agree f g pos zero h = refl
slice_agree f g pos (suc n) h =
    rw (h pos (omega arith) (omega arith))
      (ap (λ t. g pos ∷ t) (slice_agree f g (suc pos) n (λ q a b. h q (omega arith) (omega arith))))

pub overwrite_outside :
    (at : ℕ → ℕ) (pos : ℕ) (bytes : List ℕ) (q : ℕ)
    → (q < pos) ⊎ (pos + length bytes ≤ q)
    → overwrite at pos bytes q ≡ at q
unfolding overwrite
overwrite_outside at pos [] q h = refl
overwrite_outside at pos (b ∷ bytes) q (inl h) =
    ground (arith, overwrite_outside at (suc pos) bytes q (inl (omega arith)))
overwrite_outside at pos (b ∷ bytes) q (inr h) =
    ground (arith, overwrite_outside at (suc pos) bytes q (inr (omega arith)))

pub slice-overwrite :
    (at : ℕ → ℕ) (pos : ℕ) (bytes : List ℕ)
    → slice (overwrite at pos bytes) pos (length bytes) ≡ bytes
unfolding slice overwrite
slice-overwrite at pos [] = refl
slice-overwrite at pos (b ∷ bytes) =
    let here : (if pos == pos then b else overwrite at (suc pos) bytes pos) ≡ b = ground arith in
    let rest : slice (overwrite at pos (b ∷ bytes)) (suc pos) (length bytes)
        ≡ slice (overwrite at (suc pos) bytes) (suc pos) (length bytes) =
      slice_agree _ _ (suc pos) (length bytes) (λ q a c. ground arith) in
    rw (here, rest, slice-overwrite at (suc pos) bytes)

-- Texts with the same characters are the same list.
pub same_refl : (s : List ℕ) → same s s ≡ true
unfolding same
same_refl [] = refl
same_refl (x ∷ s) = ground (arith, same_refl s)

pub same-eq : (s t : List ℕ) → same s t ≡ true → s ≡ t
unfolding same
same-eq [] [] e = refl
same-eq [] (y ∷ t) e = absurd (cc e)
same-eq (x ∷ s) [] e = absurd (cc e)
same-eq (x ∷ s) (y ∷ t) e = elim (Bool-cases (x == y)) [
  | inl h ↦
      let head : x ≡ y = ground arith in
      let tail : same s t ≡ true = rw h at e in rw head (ap (λ u. y ∷ u) (same-eq s t tail))
  | inr h ↦ absurd (let no : false ≡ true = rw h at e in cc no)
]
