-- ===== src/Packer/Package/Calls.antt =====
-- The calls that the packer makes: an archive library that keeps a list of them.
use mavicona.Base.{
  ℕ, suc, ◌+◌, ◌≡◌, ◌⊎◌, refl, Bool, Option, List, [], ◌∷◌, ◌++◌, inl, inr, arith, if◌then◌else◌,
  Bool-cases,
}
use mavicona.Base.Int.{ℤ, pos, negsuc}
use mavicona.Packer.Package.{Par, is_minus_one, is_null, real_path, close_failed, close_archive}

-- `opened` is an opening that worked; the other calls are there whatever they gave.
pub data Call : Type 0 where
  opened : List ℕ → Bool → Call
  header : Call
  appended : List ℕ → List ℕ → Call
  ended : Call
  extracted : Call
  entry : Call
  skipped : Call
  closed : Call

-- The library `P` with a list of the calls so far.
abbrev pub recorded : Par → Par
recorded P = record {
  State = P.State × List Call;
  Handle = P.Handle;
  par_open = λ file writes mode (s, calls).
      let (r, t, s_1) = P.par_open file writes mode s in
      (r, t, (s_1, calls ++ (if is_minus_one r then [] else opened file writes ∷ [])));
  par_write_header =
      λ t (s, calls). let (r, s_1) = P.par_write_header t s in (r, (s_1, calls ++ header ∷ []));
  par_read_header =
      λ t (s, calls). let (r, s_1) = P.par_read_header t s in (r, (s_1, calls ++ header ∷ []));
  par_append_tree = λ t path name (s, calls).
      let (r, s_1) = P.par_append_tree t path name s in
      (r, (s_1, calls ++ appended path name ∷ []));
  par_append_eof =
      λ t (s, calls). let (r, s_1) = P.par_append_eof t s in (r, (s_1, calls ++ ended ∷ []));
  par_extract_all = λ t root (s, calls).
      let (r, s_1) = P.par_extract_all t root s in (r, (s_1, calls ++ extracted ∷ []));
  th_read = λ t (s, calls). let (r, s_1) = P.th_read t s in (r, (s_1, calls ++ entry ∷ []));
  th_print_long_ls = λ t (s, calls). (P.th_print_long_ls t s, calls);
  th_isreg = λ t (s, calls). P.th_isreg t s;
  par_skip_regfile =
      λ t (s, calls). let (r, s_1) = P.par_skip_regfile t s in (r, (s_1, calls ++ skipped ∷ []));
  par_close = λ t (s, calls). let (r, s_1) = P.par_close t s in (r, (s_1, calls ++ closed ∷ []));
}

unfoldable pub opens : List Call → ℕ
opens [] = 0
opens (opened file writes ∷ calls) = suc (opens calls)
opens (c ∷ calls) = opens calls

unfoldable pub closes : List Call → ℕ
closes [] = 0
closes (closed ∷ calls) = suc (closes calls)
closes (c ∷ calls) = closes calls

pub opens-append : (xs ys : List Call) → opens (xs ++ ys) ≡ opens xs + opens ys
unfolding opens
opens-append [] ys = omega arith
opens-append (opened file writes ∷ xs) ys = omega (arith, opens-append xs ys)
opens-append (header ∷ xs) ys = opens-append xs ys
opens-append (appended path name ∷ xs) ys = opens-append xs ys
opens-append (ended ∷ xs) ys = opens-append xs ys
opens-append (extracted ∷ xs) ys = opens-append xs ys
opens-append (entry ∷ xs) ys = opens-append xs ys
opens-append (skipped ∷ xs) ys = opens-append xs ys
opens-append (closed ∷ xs) ys = opens-append xs ys

pub closes-append : (xs ys : List Call) → closes (xs ++ ys) ≡ closes xs + closes ys
unfolding closes
closes-append [] ys = omega arith
closes-append (opened file writes ∷ xs) ys = closes-append xs ys
closes-append (header ∷ xs) ys = closes-append xs ys
closes-append (appended path name ∷ xs) ys = closes-append xs ys
closes-append (ended ∷ xs) ys = closes-append xs ys
closes-append (extracted ∷ xs) ys = closes-append xs ys
closes-append (entry ∷ xs) ys = closes-append xs ys
closes-append (skipped ∷ xs) ys = closes-append xs ys
closes-append (closed ∷ xs) ys = omega (arith, closes-append xs ys)

-- A function that returned `r` with the calls `calls`: it worked, and made the calls `whole`, or it
-- failed, and closed every archive that it opened.
abbrev pub IsPacked : List Call → ℤ → List Call → Type 0
IsPacked whole r calls =
    ((r ≡ pos 0) × (calls ≡ whole)) ⊎ ((r ≡ negsuc 0) × (closes calls ≡ opens calls))

-- One archive is open.
abbrev pub IsOpen : List Call → Type 0
IsOpen calls = opens calls ≡ suc (closes calls)

pub IsOpen-append :
    (calls : List Call) (c : Call)
    → IsOpen calls
    → opens (c ∷ []) ≡ 0
    → closes (c ∷ []) ≡ 0
    → IsOpen (calls ++ c ∷ [])
IsOpen-append calls c one a b =
    omega (arith, opens-append calls (c ∷ []), closes-append calls (c ∷ []))

pub IsOpen-closed :
    (calls : List Call)
    → IsOpen calls
    → closes (calls ++ closed ∷ []) ≡ opens (calls ++ closed ∷ [])
unfolding opens closes
IsOpen-closed calls one =
    omega (arith, opens-append calls (closed ∷ []), closes-append calls (closed ∷ []))

module _ (P : Par) (t : P.Handle) where
  pub close_failed-IsPacked :
      (whole calls : List Call) (s : P.State)
      → IsOpen calls
      → IsPacked whole
          (close_failed (recorded P) t (s, calls)).0
          (close_failed (recorded P) t (s, calls)).1.1
  unfolding close_failed
  close_failed-IsPacked whole calls s one = inr (refl, IsOpen-closed calls one)

  pub close_archive-IsPacked :
      (calls : List Call) (s : P.State)
      → IsOpen calls
      → IsPacked
          (calls ++ closed ∷ [])
          (close_archive (recorded P) t (s, calls)).0
          (close_archive (recorded P) t (s, calls)).1.1
  unfolding close_archive
  close_archive-IsPacked calls s one = elim (Bool-cases (is_null (P.par_close t s).0)) [
    | inl e ↦ rw e (inl (refl, refl))
    | inr e ↦ rw e (inr (refl, IsOpen-closed calls one))
  ]

module _ (P : Par) (max : ℕ) (rootdir : Option (List ℕ)) where
  abbrev pub append_call : List ℕ → Call
  append_call path = appended (real_path max rootdir path) path
