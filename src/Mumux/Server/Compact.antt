-- ===== src/Mumux/Server/Compact.antt =====
-- The compaction keeps the connections that are alive.
use mavicona.Base.{
  ℕ, zero, suc, ◌≤◌, ◌≡◌, refl, sym, ap, ◌∙◌, Bool, true, false, Bool-cases, List, [], ◌∷◌, ◌++◌,
  append_assoc, some, none, if◌then◌else◌, length, length-append, take, drop, get_elem?,
  take-append_length, arith, inl, inr,
}
use mavicona.Mumux.Connection.{Connection}
use mavicona.Mumux.Server.{compact_loop, compact}

-- The connections whose flag WBY_CON_FLAG_ALIVE is `b`, in order.
abbrev pub with_alive : {S : Type 0} → Bool → List (Connection S) → List (Connection S)
with_alive b [] = []
with_alive true (c ∷ cs) = if c.flags.alive then c ∷ with_alive true cs else with_alive true cs
with_alive false (c ∷ cs) = if c.flags.alive then with_alive false cs else c ∷ with_alive false cs

module _ {S : Type 0} where
  get_past : (before : List (Connection S)) → get_elem? (before ++ []) (length before) ≡ none
  get_past [] = refl
  get_past (c ∷ before) = get_past before

  get_here :
      (before : List (Connection S)) (c : Connection S) (rest : List (Connection S))
      → get_elem? (before ++ (c ∷ rest)) (length before) ≡ some c
  get_here [] c rest = refl
  get_here (d ∷ before) c rest = get_here before c rest

  drop_here :
      (before : List (Connection S)) (c : Connection S) (rest : List (Connection S))
      → drop (suc (length before)) (before ++ (c ∷ rest)) ≡ rest
  drop_here [] c rest = refl
  drop_here (d ∷ before) c rest = drop_here before c rest

  loop-with_alive :
      (fuel : ℕ) (before rest : List (Connection S))
      → length rest ≤ fuel
      → compact_loop fuel (length before) (before ++ rest)
        ≡ (before ++ with_alive true rest, with_alive false rest)
  unfolding compact_loop
  loop-with_alive zero before [] h = refl
  loop-with_alive zero before (c ∷ rest) h = absurd (omega arith)
  loop-with_alive (suc fuel) before [] h = rw (get_past before, compact_loop) refl
  loop-with_alive (suc fuel) before (c ∷ rest) h =
      let further : compact_loop fuel (suc (length before)) (before ++ (c ∷ rest))
          ≡ (before ++ (c ∷ with_alive true rest), with_alive false rest) =
        ap (λ n. compact_loop fuel n (before ++ (c ∷ rest)))
          (omega (arith, length-append before (c ∷ [])))
        ∙ (ap (λ t. compact_loop fuel (length (before ++ (c ∷ []))) t)
              (sym (append_assoc before (c ∷ []) rest))
            ∙ (loop-with_alive fuel (before ++ (c ∷ [])) rest (omega arith)
                ∙ ap (λ t. (t, with_alive false rest))
                    (append_assoc before (c ∷ []) (with_alive true rest)))) in
      let out : take (length before) (before ++ (c ∷ rest))
            ++ drop (suc (length before)) (before ++ (c ∷ rest))
          ≡ before ++ rest =
        rw (take-append_length before (c ∷ rest) (length before) refl, drop_here before c rest)
          refl in
      elim (Bool-cases c.flags.alive) [
        | inl a ↦ rw (get_here before c rest, compact_loop) (simp a further)
        | inr a ↦
            rw (get_here before c rest, compact_loop)
              (simp a (
                ap
                  (λ t. (
                    (compact_loop fuel (length before) t).0,
                    c ∷ (compact_loop fuel (length before) t).1,
                  ))
                  out
                ∙ ap (λ r. (r.0, c ∷ r.1)) (loop-with_alive fuel before rest (omega arith))))
      ]

-- The compaction leaves the connections that are alive and closes the others, each of them once,
-- both in their order.
pub compact-with_alive :
    {S : Type 0} (con : List (Connection S))
    → compact con ≡ (with_alive true con, with_alive false con)
unfolding compact
compact-with_alive con = loop-with_alive (length con) [] con (omega arith)
