-- ===== src/Cynder/Page/Room.antt =====
-- Which slot of the last index the next item goes to.
use native.Mathlib.Nat.{suc-mod, mod-lt, mod_self, mod-eq_of_lt}
use mavicona.Base.{
  ℕ, zero, suc, ◌%◌, ◌≤◌, ◌<◌, ◌≡◌, ◌≢◌, ◌⊎◌, ap, arith, ◌∙◌, inl, inr, ltb, ltb→lt, Bool-cases,
  true, false, ◌==◌, ◌&&◌,
}
use mavicona.Cynder.Page.Sound.{used}

-- A remainder goes up by one, or starts again at zero.
suc-mod-cases :
    (m g : ℕ)
    → 2 ≤ g
    → ((suc m % g ≡ 0) × (suc (m % g) ≡ g)) ⊎ ((suc m % g ≡ suc (m % g)) × (suc (m % g) < g))
suc-mod-cases m g h =
    let small = mod-lt m {m = g} (omega arith) in
    elim (Bool-cases (ltb (suc (m % g)) g)) [
      | inl e ↦
          let below = ltb→lt (suc (m % g)) g e in inr (suc-mod m g ∙ mod-eq_of_lt below, below)
      | inr e ↦
          let full : suc (m % g) ≡ g = ground arith in
          inl (suc-mod m g ∙ ap (λ k. k % g) full ∙ mod_self g, full)
    ]

-- All the slots are taken when the number of items is a multiple of their number.
pub used-full : (n g : ℕ) → 2 ≤ g → n % g ≡ 0 → 1 ≤ n → used n g ≡ g
used-full zero g h e pos = absurd (omega arith)
used-full (suc m) g h e pos = elim (suc-mod-cases m g h) [
  | inl (here, full) ↦ full
  | inr (here, below) ↦ absurd (omega arith)
]

pub used-part : (n g : ℕ) → 2 ≤ g → n % g ≢ 0 → (used n g ≡ n % g) × (n % g < g)
used-part zero g h e = absurd (e (mod-eq_of_lt (omega arith)))
used-part (suc m) g h e = elim (suc-mod-cases m g h) [
  | inl (here, full) ↦ absurd (e here)
  | inr (here, below) ↦ (omega arith, omega arith)
]

pub one-mod : (n g : ℕ) → 2 ≤ g → n ≤ 1 → n % g ≡ n
one-mod n g h small = mod-eq_of_lt (omega arith)

used-small : (n g : ℕ) → 2 ≤ g → n ≤ 1 → (used n g ≡ n % g) × (n % g < g)
used-small zero g h small = let here = one-mod 0 g h (omega arith) in (omega arith, omega arith)
used-small (suc zero) g h small =
    let none_before = one-mod 0 g h (omega arith) in
    let here = one-mod 1 g h (omega arith) in (omega arith, omega arith)
used-small (suc (suc n)) g h small = absurd (omega arith)

-- Where `storeItem` does not grow the page, the last index has a slot.
pub used-room :
    (n g : ℕ) → 2 ≤ g → (n % g == 0 && ltb 1 n) ≡ false → (used n g ≡ n % g) × (n % g < g)
used-room n g h e = elim (Bool-cases (n % g == 0)) [
  | inl full ↦ used-small n g h (ground arith)
  | inr part ↦ used-part n g h (ground arith)
]

pub full_index : (n g : ℕ) → (n % g == 0 && ltb 1 n) ≡ true → (n % g ≡ 0) × (1 ≤ n)
full_index n g e = (ground arith, ground arith)

pub used-le : (n g : ℕ) → 2 ≤ g → used n g ≤ g
used-le zero g h = omega arith
used-le (suc m) g h = omega (arith, mod-lt m {m = g} (omega arith))
