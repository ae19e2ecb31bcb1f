-- ===== src/Quid/Text/Shape.antt =====
-- The text of an identifier passes the test.
use mavicona.Base.{
  ℕ, zero, suc, ◌+◌, ◌*◌, ◌/◌, ◌%◌, ◌<◌, ◌≡◌, refl, sym, ap, ◌∙◌, u32, Bool, true, false, not, ◌&&◌,
  ◌||◌, some, List, [], ◌∷◌, ◌++◌, append_assoc, append-nil, All, arith, ◌==◌, length,
  length-append, get_or,
}
use mavicona.Base.Table.{every, every_sound}
use mavicona.Quid.{Quid}
use mavicona.Quid.Text.{
  hex_digit, hex, hex_bytes, dash, bare, quidtostr, is_plain, is_braced, spans, may_stand,
  count_hyphens, strquid_format,
}

and_assoc : (a b c : Bool) → a && (b && c) ≡ (a && b) && c
and_assoc true b c = refl
and_assoc false b c = refl

-- A character that is neither a hyphen nor a brace, but in the set.
abbrev is_hex : ℕ → Bool
is_hex c = is_plain c && not (c == b'-')

hex_digit-is_hex : (d : ℕ) → d < 16 → is_hex (hex_digit d) ≡ true
unfolding every
hex_digit-is_hex d h = every_sound (λ d. is_hex (hex_digit d)) d 16 h refl

length-hex : (w n : ℕ) → length (hex w n) ≡ w
unfolding hex
length-hex zero n = refl
length-hex (suc w) n =
    omega (arith, length-append (hex w (n / 16)) (hex_digit (n % 16) ∷ []), length-hex w (n / 16))

-- Hexadecimal text.
abbrev AllHex : List ℕ → Type 0
AllHex = All (λ c. is_hex c ≡ true)

AllHex-append : (xs ys : List ℕ) → AllHex xs → AllHex ys → AllHex (xs ++ ys)
AllHex-append [] ys h g = g
AllHex-append (x ∷ xs) ys (hx, h) g = (hx, AllHex-append xs ys h g)

hex-AllHex : (w n : ℕ) → AllHex (hex w n)
unfolding hex
hex-AllHex zero n = tt
hex-AllHex (suc w) n =
    AllHex-append (hex w (n / 16)) _ (hex-AllHex w (n / 16))
      (hex_digit-is_hex (n % 16) (omega arith), tt)

hex_bytes-AllHex : (bytes : List ℕ) → AllHex (hex_bytes bytes)
unfolding hex_bytes
hex_bytes-AllHex [] = tt
hex_bytes-AllHex (byte ∷ bytes) =
    AllHex-append (hex 2 byte) _ (hex-AllHex 2 byte) (hex_bytes-AllHex bytes)

length-hex_bytes : (bytes : List ℕ) → length (hex_bytes bytes) ≡ 2 * length bytes
unfolding hex_bytes
length-hex_bytes [] = refl
length-hex_bytes (byte ∷ bytes) =
    omega (
      arith,
      length-append (hex 2 byte) (hex_bytes bytes),
      length-hex 2 byte,
      length-hex_bytes bytes,
    )

-- Hexadecimal text has no hyphen to count.
count_hyphens-hex :
    (first phyp : ℕ) (xs ys : List ℕ) (nhyp : ℕ)
    → AllHex xs
    → count_hyphens first phyp (xs ++ ys) nhyp ≡ count_hyphens first (phyp + length xs) ys nhyp
unfolding count_hyphens
count_hyphens-hex first phyp [] ys nhyp h = ap (λ p. count_hyphens first p ys nhyp) (omega arith)
count_hyphens-hex first phyp (x ∷ xs) ys nhyp (hx, h) =
    let other : (x == b'-') ≡ false = ground (arith, hx) in
    let at : phyp + 1 + length xs ≡ phyp + suc (length xs) = omega arith in
    rw other
      (count_hyphens-hex first (phyp + 1) xs ys nhyp h ∙ ap (λ p. count_hyphens first p ys nhyp) at)

count_hyphens-dash :
    (first phyp : ℕ) (ys : List ℕ) (nhyp : ℕ)
    → may_stand first phyp ≡ true
    → count_hyphens first phyp (dash ++ ys) nhyp ≡ count_hyphens first (phyp + 1) ys (nhyp + 1)
unfolding count_hyphens
count_hyphens-dash first phyp ys nhyp h = rw h

-- A group of `w` digits with its hyphen.
count_hyphens-group :
    (first phyp w n : ℕ) (ys : List ℕ) (nhyp : ℕ)
    → may_stand first (phyp + w) ≡ true
    → count_hyphens first phyp (hex w n ++ (dash ++ ys)) nhyp
      ≡ count_hyphens first (phyp + w + 1) ys (nhyp + 1)
count_hyphens-group first phyp w n ys nhyp h =
    count_hyphens-hex first phyp (hex w n) (dash ++ ys) nhyp (hex-AllHex w n)
    ∙ ap (λ l. count_hyphens first (phyp + l) (dash ++ ys) nhyp) (length-hex w n)
    ∙ count_hyphens-dash first (phyp + w) ys nhyp h

module _ (u : Quid) (six : length u.node ≡ 6) where
  length-bare : length (bare u) ≡ 36
  unfolding bare
  length-bare = grind (arith, length-append, length-hex, length-hex_bytes, six)

  -- The hyphens stand where they may, four of them.
  count_hyphens-bare :
      (p : ℕ) (tail : List ℕ)
      → count_hyphens (p + 8) p (bare u ++ tail) 0 ≡ count_hyphens (p + 8) (p + 36) tail 4
  unfolding bare
  count_hyphens-bare p tail =
      let first : ℕ = p + 8 in
      let t_4 = hex_bytes u.node ++ tail in
      let t_3 = hex 2 u.clock_seq_hi_and_reserved ++ (hex 2 u.clock_seq_low ++ (dash ++ t_4)) in
      let t_2 = hex 4 u.time_hi_and_version ++ (dash ++ t_3) in
      let t_1 = hex 4 u.time_mid ++ (dash ++ t_2) in
      let nested : bare u ++ tail ≡ hex 8 (u32 u.time_low) ++ (dash ++ t_1) =
        simp append_assoc refl in
      let at : (q r n : ℕ) (ys : List ℕ)
          → q ≡ r
          → count_hyphens first q ys n ≡ count_hyphens first r ys n =
        λ q r n ys e. ap (λ k. count_hyphens first k ys n) e in
      ap (λ s. count_hyphens first p s 0) nested
      ∙ count_hyphens-group first p 8 (u32 u.time_low) t_1 0 (ground arith)
      ∙ count_hyphens-group first (p + 8 + 1) 4 u.time_mid t_2 1 (ground arith)
      ∙ count_hyphens-group first (p + 8 + 1 + 4 + 1) 4 u.time_hi_and_version t_3 2 (ground arith)
      ∙ count_hyphens-hex first (p + 8 + 1 + 4 + 1 + 4 + 1) (hex 2 u.clock_seq_hi_and_reserved)
          (hex 2 u.clock_seq_low ++ (dash ++ t_4)) 3 (hex-AllHex 2 u.clock_seq_hi_and_reserved)
      ∙ at (p + 8 + 1 + 4 + 1 + 4 + 1 + length (hex 2 u.clock_seq_hi_and_reserved)) (p + 21) 3
          (hex 2 u.clock_seq_low ++ (dash ++ t_4))
          (omega (arith, length-hex 2 u.clock_seq_hi_and_reserved))
      ∙ count_hyphens-group first (p + 21) 2 u.clock_seq_low t_4 3 (ground arith)
      ∙ count_hyphens-hex first (p + 21 + 2 + 1) (hex_bytes u.node) tail 4 (hex_bytes-AllHex u.node)
      ∙ at (p + 21 + 2 + 1 + length (hex_bytes u.node)) (p + 36) 4 tail
          (omega (arith, length-hex_bytes u.node, six))

module _ (accept : ℕ → Bool) where
  spans-append : (xs ys : List ℕ) → spans accept (xs ++ ys) ≡ spans accept xs && spans accept ys
  unfolding spans
  spans-append [] ys = refl
  spans-append (x ∷ xs) ys =
      rw (spans-append xs ys) (and_assoc (accept x) (spans accept xs) (spans accept ys))

  spans-hex :
      ((c : ℕ) → is_hex c ≡ true → accept c ≡ true)
      → (xs : List ℕ) → AllHex xs
      → spans accept xs ≡ true
  unfolding spans
  spans-hex sup [] h = refl
  spans-hex sup (x ∷ xs) (hx, h) = rw (sup x hx, spans-hex sup xs h) refl

  spans-bare :
      ((c : ℕ) → is_hex c ≡ true → accept c ≡ true)
      → accept b'-' ≡ true
      → (u : Quid) → spans accept (bare u) ≡ true
  unfolding bare spans
  spans-bare sup hyphen u =
      let digits : (w n : ℕ) → spans accept (hex w n) ≡ true =
        λ w n. spans-hex sup (hex w n) (hex-AllHex w n) in
      let last = spans-hex sup (hex_bytes u.node) (hex_bytes-AllHex u.node) in
      simp (spans-append, digits, hyphen, last)

and-left : (a b : Bool) → a && b ≡ true → a ≡ true
and-left true b h = refl
and-left false b h = h

or-right : (a b : Bool) → b ≡ true → a || b ≡ true
or-right true b h = refl
or-right false b h = h

is_hex-is_plain : (c : ℕ) → is_hex c ≡ true → is_plain c ≡ true
is_hex-is_plain c h = and-left (is_plain c) (not (c == b'-')) h

is_hex-is_braced : (c : ℕ) → is_hex c ≡ true → is_braced c ≡ true
is_hex-is_braced c h =
    or-right (c == b'{') _ (or-right (c == b'}') (is_plain c) (is_hex-is_plain c h))

get_or-append_length :
    (xs ys : List ℕ) (n d : ℕ) → n ≡ length xs → get_or (xs ++ ys) n d ≡ get_or ys 0 d
get_or-append_length [] ys zero d h = refl
get_or-append_length [] ys (suc n) d h = absurd (omega arith)
get_or-append_length (x ∷ xs) ys zero d h = absurd (omega arith)
get_or-append_length (x ∷ xs) ys (suc n) d h = get_or-append_length xs ys n d (omega arith)

braced_format :
    (s : List ℕ)
    → length s ≡ 38
    → get_or s 0 0 ≡ b'{'
    → get_or s 37 0 ≡ b'}'
    → spans is_braced s ≡ true
    → count_hyphens 9 0 s 0 ≡ some 4
    → strquid_format s ≡ 1
unfolding strquid_format
braced_format s size first close all four = rw (size, first, close, all, four) refl

plain_format :
    (s : List ℕ)
    → length s ≡ 36
    → spans is_plain s ≡ true
    → count_hyphens 8 0 s 0 ≡ some 4
    → strquid_format s ≡ 2
unfolding strquid_format
plain_format s size all four = rw (size, all, four) refl

-- The text that `quidtostr` writes passes the test with braces, and the text without its braces passes
-- it without.
pub strquid_format-quidtostr :
    (u : Quid)
    → length u.node ≡ 6
    → (strquid_format (quidtostr u) ≡ 1) × (strquid_format (bare u) ≡ 2)
unfolding quidtostr spans count_hyphens
strquid_format-quidtostr u six =
    let size = length-bare u six in
    let close : List ℕ = b'}' ∷ [] in
    (
      braced_format (b'{' ∷ bare u ++ close) (omega (arith, size, length-append (bare u) close))
          refl (get_or-append_length (b'{' ∷ bare u) close 37 0 (omega (arith, size)))
          (spans-append is_braced (bare u) close
            ∙ rw (spans-bare is_braced is_hex-is_braced refl u) refl)
          (count_hyphens-bare u six 1 close),
      plain_format (bare u) size (spans-bare is_plain is_hex-is_plain refl u) (
          ap (λ s. count_hyphens 8 0 s 0) (sym (append-nil (bare u)))
          ∙ count_hyphens-bare u six 0 []),
    )
