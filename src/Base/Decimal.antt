-- ===== src/Base/Decimal.antt =====
-- Numbers written in decimal, as by `%d`.
use Prim.Native.Nat.{ℕ, zero, suc, ◌+◌, ◌-◌, ◌*◌, ◌/◌, ◌%◌, ◌^◌, ◌≤◌, ◌<◌}
use mathlib.Core.Path.{◌≡◌, refl, ◌∙◌}
use mathlib.Core.List.{List, [], ◌∷◌, ◌++◌}
use mavicona.Base.Lists.{length, length-append}
use mavicona.Base.Test.{ltb, if◌then◌else◌, Bool-cases}
use mathlib.Core.Logic.{inl, inr}
use native.Mathlib.Nat.{pow-suc}
use native.Mathlib.Omega.{arith}

-- The digits of a number, for at most as many digits as the fuel.
unfoldable pub decimal_digits : ℕ → ℕ → List ℕ
decimal_digits zero n = []
decimal_digits (suc fuel) n =
    let more = decimal_digits fuel (n / 10) ++ ((48 + n % 10) ∷ []) in
    if ltb n 10 then (48 + n) ∷ [] else more

-- No number of 64 bits has more than 20 digits.
unfoldable pub decimal : ℕ → List ℕ
unfolding decimal_digits
decimal n = decimal_digits 20 n

-- The number that digits stand for, behind the number read so far.
abbrev pub digits_value : ℕ → List ℕ → ℕ
digits_value acc [] = acc
digits_value acc (d ∷ ds) = digits_value (acc * 10 + (d - 48)) ds

digits_value-append :
    (acc : ℕ) (ds : List ℕ) (d : ℕ)
    → digits_value acc (ds ++ (d ∷ [])) ≡ digits_value acc ds * 10 + (d - 48)
digits_value-append acc [] d = refl
digits_value-append acc (e ∷ ds) d = digits_value-append (acc * 10 + (e - 48)) ds d

pub value-decimal_digits : (fuel n : ℕ) → n < 10 ^ fuel → digits_value 0 (decimal_digits fuel n) ≡ n
unfolding decimal_digits
value-decimal_digits zero n h = omega arith
value-decimal_digits (suc fuel) n h = elim (Bool-cases (ltb n 10)) [
  | inl e ↦ rw e (omega arith)
  | inr e ↦
      let rest = value-decimal_digits fuel (n / 10) (omega (arith, pow-suc 10 fuel)) in
      rw e
        (digits_value-append 0 (decimal_digits fuel (n / 10)) (48 + n % 10) ∙ rw rest (omega arith))
]

pub length-decimal_digits : (fuel n : ℕ) → length (decimal_digits fuel n) ≤ fuel
unfolding decimal_digits
length-decimal_digits zero n = omega arith
length-decimal_digits (suc fuel) n = ground (
  arith,
  length-append (decimal_digits fuel (n / 10)) ((48 + n % 10) ∷ []),
  length-decimal_digits fuel (n / 10),
)
