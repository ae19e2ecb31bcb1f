-- ===== src/Mumux/Write/Length.antt =====
-- The casts of `wby_write` on lengths that an `int` holds.
use mavicona.Base.{ℕ, ◌^◌, ◌<◌, ◌≡◌, refl, ap, List, [], ◌∷◌, length, take, u32, arith}
use mavicona.Base.Int.{pos}
use mavicona.Mumux.Socket.{Network}
use mavicona.Mumux.Connection.{Connection, connection_push}
use mavicona.Mumux.Write.{int_len, push_int, first_bytes}

take-length : {A : Type 0} (xs : List A) → take (length xs) xs ≡ xs
take-length [] = refl
take-length (x ∷ xs) = ap (λ t. x ∷ t) (take-length xs)

pub u32-length : (bytes : List ℕ) → length bytes < 2 ^ 31 → u32 (length bytes) ≡ length bytes
u32-length bytes short = omega (arith, short)

pub int_len-pos : (bytes : List ℕ) → length bytes < 2 ^ 31 → int_len bytes ≡ pos (length bytes)
unfolding int_len
int_len-pos bytes short = ground (arith, u32-length bytes short)

pub first_bytes-all : (bytes : List ℕ) → length bytes < 2 ^ 31 → first_bytes bytes ≡ bytes
first_bytes-all bytes short = rw (int_len-pos bytes short) (take-length bytes)

pub push_int-connection_push :
    (N : Network) (conn : Connection N.Sock) (bytes : List ℕ)
    → length bytes < 2 ^ 31
    → push_int N conn bytes ≡ connection_push N conn bytes
unfolding push_int
push_int-connection_push N conn bytes short =
    rw (int_len-pos bytes short, push_int) (ap (connection_push N conn) (take-length bytes))
