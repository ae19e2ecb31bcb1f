-- ===== src/Base/Table.antt =====
-- Facts about all bytes, or all small numbers, by evaluation.
use mavicona.Base.Test.{◌==◌, ==_iff, if◌then◌else◌}
use Prim.Native.Nat.{ℕ, zero, suc, ◌<◌}
use mathlib.Core.Path.{◌≡◌}
use mathlib.Core.Bool.{Bool, true, false}
use native.Mathlib.Omega.{arith}

unfoldable pub every : (ℕ → Bool) → ℕ → Bool
every test zero = true
every test (suc n) = if test n then every test n else false

pub every_sound : (test : ℕ → Bool) (x n : ℕ) → x < n → every test n ≡ true → test x ≡ true
unfolding every
every_sound test x zero below passed = absurd (omega arith)
every_sound test x (suc n) below passed = ground (arith, every_sound test x n)

-- Two functions that agree on a table agree below its end.
pub agree_below :
    (n : ℕ) (f g : ℕ → ℕ) (x : ℕ) → every (λ y. f y == g y) n ≡ true → x < n → f x ≡ g x
agree_below n f g x passed below =
    (==_iff (f x) (g x)).0 (every_sound (λ y. f y == g y) x n below passed)
