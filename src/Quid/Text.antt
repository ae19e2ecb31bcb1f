-- ===== src/Quid/Text.antt =====
-- quid/quid.c: the text of an identifier, and the test for one.
pub mod Shape
use mavicona.Base.{
  ℕ, zero, suc, ◌+◌, ◌-◌, ◌*◌, ◌/◌, ◌%◌, ◌^◌, u32, Bool, true, false, not, ◌&&◌, ◌||◌, Option, none,
  some, List, [], ◌∷◌, ◌++◌, ◌==◌, ltb, leb, if◌then◌else◌, length, get_or,
}
use mavicona.Quid.{Quid}

-- QUID_LENGTH
abbrev pub quid_length : ℕ
quid_length = 38

abbrev pub hex_digit : ℕ → ℕ
hex_digit d = if ltb d 10 then b'0' + d else b'a' + d - 10

-- `%.<w>x` for a number of at most `w` digits.
unfoldable pub hex : ℕ → ℕ → List ℕ
hex zero n = []
hex (suc w) n = hex w (n / 16) ++ (hex_digit (n % 16) ∷ [])

-- `%.2x` for each byte.
unfoldable pub hex_bytes : List ℕ → List ℕ
hex_bytes [] = []
hex_bytes (byte ∷ bytes) = hex 2 byte ++ hex_bytes bytes

abbrev pub dash : List ℕ
dash = b'-' ∷ []

-- The text without its braces.
unfoldable pub bare : Quid → List ℕ
bare u =
    hex 8 (u32 u.time_low)
    ++ (dash
        ++ (hex 4 u.time_mid
            ++ (dash
                ++ (hex 4 u.time_hi_and_version
                    ++ (dash
                        ++ (hex 2 u.clock_seq_hi_and_reserved
                            ++ (hex 2 u.clock_seq_low ++ (dash ++ hex_bytes u.node))))))))

-- `quidtostr`, the text that `snprintf` writes into its 39 bytes.
unfoldable pub quidtostr : Quid → List ℕ
quidtostr u = b'{' ∷ bare u ++ (b'}' ∷ [])

-- `quid_shorttostr`
unfoldable pub quid_shorttostr : List ℕ → List ℕ
quid_shorttostr node = b'{' ∷ hex_bytes node ++ (b'}' ∷ [])

-- "-0123456789abcdefABCDEF"
abbrev pub is_plain : ℕ → Bool
is_plain c =
    c == b'-'
    || (leb b'0' c && leb c b'9' || (leb b'a' c && leb c b'f' || leb b'A' c && leb c b'F'))

-- The same with braces.
abbrev pub is_braced : ℕ → Bool
is_braced c = c == b'{' || (c == b'}' || is_plain c)

-- `strspn` goes to the end of the text.
unfoldable pub spans : (ℕ → Bool) → List ℕ → Bool
spans accept [] = true
spans accept (c ∷ s) = accept c && spans accept s

-- Where the `-` may stand, from the index `first` on.
abbrev pub may_stand : ℕ → ℕ → Bool
may_stand first phyp =
    phyp == first || (phyp == first + 5 || (phyp == first + 10 || phyp == first + 15))

-- The loop over the `-` of the text at index `phyp`: their number, or `none` where one of them
-- stands at another place.
unfoldable pub count_hyphens : ℕ → ℕ → List ℕ → ℕ → Option ℕ
count_hyphens first phyp [] nhyp = some nhyp
count_hyphens first phyp (c ∷ s) nhyp =
    let found = count_hyphens first (phyp + 1) s (nhyp + 1) in
    let next = count_hyphens first (phyp + 1) s nhyp in
    if c == b'-' then (if may_stand first phyp then found else none) else next

abbrev pub is_four : Option ℕ → Bool
is_four none = false
is_four (some nhyp) = nhyp == 4

unfoldable pub strquid_format : List ℕ → ℕ
strquid_format s =
    let braced =
      get_or s 0 0 == b'{'
      && get_or s (quid_length - 1) 0 == b'}'
      && (spans is_braced s && is_four (count_hyphens 9 0 s 0)) in
    let plain = spans is_plain s && is_four (count_hyphens 8 0 s 0) in
    if length s == quid_length
    then (if braced then 1 else 0)
    else if length s == quid_length - 2
    then (if plain then 2 else 0)
    else 0
