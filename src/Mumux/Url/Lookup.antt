-- ===== src/Mumux/Url/Lookup.antt =====
-- `wby_find_query_var` looks a name up among the variables of a query string.
use mavicona.Base.{
  ℕ, ◌+◌, ◌^◌, ◌≤◌, ◌<◌, ◌≡◌, refl, ap, sym, true, Option, none, some, List, [], ◌∷◌, ◌++◌, All,
  arith, ltb, if◌then◌else◌, length, drop, length-append, append_assoc, append-nil, Bool-cases,
  ltb→lt, ◌%◌, ◌/◌, inl, inr, ◌∙◌, drop-append_length,
}
use mavicona.Mumux.Ascii.{eq_nocase}
use mavicona.Mumux.Url.{value_length, take_value, var_at, find_from, find_query_var}
use mavicona.Mumux.Url.Encode.{
  percent_encode, is_unreserved, unreserved_ne, upper_hex, decode-percent_encode,
}
use mavicona.Mumux.Url.Query.{
  Differs, IsName, Vars, var_text, query, lookup_var, hit, miss, miss_end, var_at-key,
  length-eq_nocase,
}

All-append {ℓ κ} :
    {A : Type ℓ} (P : A → Type κ) (xs ys : List A) → All P xs → All P ys → All P (xs ++ ys)
All-append P [] ys h k = k
All-append P (x ∷ xs) ys (hx, h) k = (hx, All-append P xs ys h k)

upper_hex-Differs : (d : ℕ) → d < 16 → Differs b'&' (upper_hex d)
unfolding upper_hex
upper_hex-Differs d h = ground arith

-- An encoded value holds no separator.
percent_encode-Differs :
    (bs : List ℕ) → All (λ c. c < 256) bs → All (Differs b'&') (percent_encode bs)
unfolding percent_encode
percent_encode-Differs [] h = h
percent_encode-Differs (c ∷ cs) (hc, h) =
    let ih = percent_encode-Differs cs h in
    elim (Bool-cases (is_unreserved c)) [
      | inl plain ↦ rw plain (unreserved_ne c b'&' plain (unfold is_unreserved in refl), ih)
      | inr coded ↦ rw coded (
        refl,
        (upper_hex-Differs (c / 16) (omega arith), (upper_hex-Differs (c % 16) (omega arith), ih)),
      )
    ]

value_length_end : (t : List ℕ) → All (Differs b'&') t → value_length t ≡ length t
unfolding value_length
value_length_end [] h = refl
value_length_end (c ∷ t) (hc, h) = ground (arith, value_length_end t h)

value_length-append :
    (t tail : List ℕ) → All (Differs b'&') t → value_length (t ++ (b'&' ∷ tail)) ≡ length t
unfolding value_length
value_length-append [] tail h = refl
value_length-append (c ∷ t) tail (hc, h) = ground (arith, value_length-append t tail h)

module _ (name : List ℕ) (dst_len : ℕ) (fits : dst_len < 2 ^ 64) where
  abbrev IsValue : List ℕ → Type 0
  IsValue value = All (λ c. c < 256) value

  -- What the lookup yields at a variable that has the name.
  abbrev fitting : List ℕ → Option (List ℕ)
  fitting value = if ltb (length (percent_encode value)) dst_len then some value else none

  shorter : (bs : List ℕ) → length bs ≤ length (percent_encode bs)
  unfolding percent_encode
  shorter [] = omega arith
  shorter (c ∷ cs) = ground (arith, shorter cs)

  take_fitting :
      (value rest : List ℕ)
      → IsValue value
      → value_length (percent_encode value ++ rest) ≡ length (percent_encode value)
      → take_value (percent_encode value ++ rest) dst_len ≡ fitting value
  unfolding take_value
  take_fitting value rest h e = elim (Bool-cases (ltb (length (percent_encode value)) dst_len)) [
    | inl room ↦
        let below = ltb→lt _ dst_len room in
        rw (
          e,
          room,
          decode-percent_encode value rest dst_len true h (omega (arith, shorter value, below))
              fits,
        )
    | inr full ↦ rw (e, full)
  ]

  module _ (key : List ℕ) (name_eq : All (Differs b'=') name) (key_name : IsName key) where
    at_key : (w : List ℕ) → var_at true name (key ++ (b'=' ∷ w)) ≡ eq_nocase name key
    at_key w = var_at-key name key w name_eq key_name.0

    found :
        (w : List ℕ)
        → eq_nocase name key ≡ true
        → find_from true name (key ++ (b'=' ∷ w)) dst_len ≡ take_value w dst_len
    found w same =
        let size = length-eq_nocase name key same in
        let behind : drop (length name + 1) (key ++ (b'=' ∷ w)) ≡ w =
          ap (drop (length name + 1)) (sym (append_assoc key (b'=' ∷ []) w))
          ∙ drop-append_length (key ++ (b'=' ∷ [])) w (length name + 1)
              (omega (arith, size, length-append key (b'=' ∷ []))) in
        hit name dst_len (key ++ (b'=' ∷ w)) (omega (arith, size, length-append key (b'=' ∷ w)))
          (at_key w ∙ same)
        ∙ ap (λ t. take_value t dst_len) behind

    module _ (value : List ℕ) (value_bytes : IsValue value) where
      text_Differs : All (Differs b'&') (var_text key value)
      unfolding var_text
      text_Differs =
          All-append (Differs b'&') key (b'=' ∷ percent_encode value) key_name.1
            (refl, percent_encode-Differs value value_bytes)

      value_Differs : All (Differs b'&') (percent_encode value)
      value_Differs = percent_encode-Differs value value_bytes

      last_found :
          eq_nocase name key ≡ true
          → find_from true name (var_text key value) dst_len ≡ fitting value
      unfolding var_text
      last_found same =
          let at_end : value_length (percent_encode value ++ []) ≡ length (percent_encode value) =
            ap value_length (append-nil (percent_encode value))
            ∙ value_length_end (percent_encode value) value_Differs in
          found (percent_encode value) same
          ∙ rw (append-nil (percent_encode value)) at (take_fitting value [] value_bytes at_end)

      -- The variable at the end of the query string.
      last_var :
          find_from true name (var_text key value) dst_len
          ≡ (if eq_nocase name key then fitting value else none)
      last_var = elim (Bool-cases (eq_nocase name key)) [
        | inl same ↦ rw same (last_found same)
        | inr other ↦ rw other (
            miss_end name dst_len (var_text key value) text_Differs
              (unfold var_text in at_key (percent_encode value) ∙ other))
      ]

      module _ (tail : List ℕ) where
        regroup :
            var_text key value ++ (b'&' ∷ tail)
            ≡ key ++ (b'=' ∷ (percent_encode value ++ (b'&' ∷ tail)))
        unfolding var_text
        regroup = append_assoc key (b'=' ∷ percent_encode value) (b'&' ∷ tail)

        next_found :
            eq_nocase name key ≡ true
            → find_from true name (var_text key value ++ (b'&' ∷ tail)) dst_len ≡ fitting value
        next_found same =
            ap (λ t. find_from true name t dst_len) regroup
            ∙ found (percent_encode value ++ (b'&' ∷ tail)) same
            ∙ take_fitting value (b'&' ∷ tail) value_bytes
                (value_length-append (percent_encode value) tail value_Differs)

        -- A variable with more behind it.
        next_var :
            find_from true name (var_text key value ++ (b'&' ∷ tail)) dst_len
            ≡ (if eq_nocase name key then fitting value else find_from true name tail dst_len)
        next_var = elim (Bool-cases (eq_nocase name key)) [
          | inl same ↦ rw same (next_found same)
          | inr other ↦ rw other (
              miss name dst_len (var_text key value) tail text_Differs (
                ap (var_at true name) regroup
                ∙ at_key (percent_encode value ++ (b'&' ∷ tail))
                ∙ other))
        ]

-- A key without separators, and a value of bytes.
abbrev pub IsVar : List ℕ × List ℕ → Type 0
IsVar v = IsName v.0 × All (λ c. c < 256) v.1

find_from-query :
    (name : List ℕ) (dst_len : ℕ) (vars : Vars)
    → dst_len < 2 ^ 64
    → All (Differs b'=') name
    → All IsVar vars
    → find_from true name (query vars) dst_len ≡ lookup_var name dst_len vars
unfolding query lookup_var
find_from-query name dst_len [] fits hn h = unfold find_from in refl
find_from-query name dst_len ((key, value) ∷ []) fits hn ((hk, hv), h) =
    last_var name dst_len fits key hn hk value hv
find_from-query name dst_len ((key, value) ∷ v ∷ vars) fits hn ((hk, hv), h) =
    next_var name dst_len fits key hn hk value hv (query (v ∷ vars))
    ∙ ap (λ t. if eq_nocase name key then fitting name dst_len fits value else t)
        (find_from-query name dst_len (v ∷ vars) fits hn h)

-- In a query string whose keys hold no `=` and no `&` and whose values are percent encoded,
-- `wby_find_query_var` finds for a name without `=`, compared in any case, exactly the decoded value
-- of the first variable of that name, and fails if there is none or if its encoded value is not
-- shorter than the destination.
pub find_query_var-query :
    (name : List ℕ) (dst_len : ℕ) (vars : Vars)
    → dst_len < 2 ^ 64
    → All (Differs b'=') name
    → All IsVar vars
    → find_query_var (query vars) name dst_len ≡ lookup_var name dst_len vars
unfolding find_query_var
find_query_var-query name dst_len vars fits hn h = find_from-query name dst_len vars fits hn h
