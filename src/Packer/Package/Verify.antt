-- ===== src/Packer/Package/Verify.antt =====
-- An archive that is extracted or verified.
use mavicona.Base.{
  ℕ, ◌≤◌, ◌<◌, ◌≡◌, ◌⊎◌, refl, true, false, Option, some, List, [], ◌∷◌, ◌++◌, inl, inr, Bool-cases,
}
use mavicona.Base.Int.{ℤ, pos, negsuc}
use mavicona.Packer.Package.{Par, is_minus_one, is_null, package_extract}
use mavicona.Packer.Package.Calls.{
  Call, opened, header, extracted, skipped, closed, recorded, opens, closes, IsPacked, IsOpen,
  close_failed-IsPacked, close_archive-IsPacked,
}

-- `package_extract` opens an archive, reads its header, extracts it and closes it, and then gives 0;
-- or it gives -1, and has closed the archive if it opened it.
pub package_extract-IsPacked :
    (P : Par) (file : List ℕ) (rootdir : Option (List ℕ)) (s : P.State)
    → IsPacked
        (opened file false ∷ header ∷ extracted ∷ closed ∷ [])
        (package_extract (recorded P) file rootdir (s, [])).0
        (package_extract (recorded P) file rootdir (s, [])).1.1
unfolding package_extract opens closes
package_extract-IsPacked P file rootdir s =
    let (_, t, s_1) = P.par_open file false 0 s in
    let (_, s_2) = P.par_read_header t s_1 in
    let (_, s_3) = P.par_extract_all t rootdir s_2 in
    elim (Bool-cases (is_minus_one (P.par_open file false 0 s).0)) [
      | inl e ↦ rw e (inr (refl, refl))
      | inr e ↦ elim (Bool-cases (is_null (P.par_read_header t s_1).0)) [
        | inr h ↦ rw (e, h) (close_failed-IsPacked P t _ (opened file false ∷ header ∷ []) s_2 refl)
        | inl h ↦
            let calls = opened file false ∷ header ∷ extracted ∷ [] in
            elim (Bool-cases (is_null (P.par_extract_all t rootdir s_2).0)) [
              | inl x ↦ rw (e, h, x) (close_archive-IsPacked P t calls s_3 refl)
              | inr x ↦ rw (e, h, x) (close_failed-IsPacked P t _ calls s_3 refl)
            ]
      ]
    ]

-- An archive ends: each entry that is read leaves fewer of them, and no other call adds to them.
pub record HasEnd (P : Par) (left : P.State → ℕ) : Type 0 where
  pub read_fewer :
      (t : P.Handle) (s : P.State)
      → is_null (P.th_read t s).0 ≡ true
      → left (P.th_read t s).1 < left s
  pub print_same : (t : P.Handle) (s : P.State) → left (P.th_print_long_ls t s) ≤ left s
  pub skip_same : (t : P.Handle) (s : P.State) → left (P.par_skip_regfile t s).1 ≤ left s

-- What a check of an archive comes to: 0 or -1 with every archive closed, or -1 with the archive
-- open, where the last call is the skip of an entry.
abbrev pub IsChecked : ℤ → List Call → Type 0
IsChecked r calls =
    (((r ≡ pos 0) ⊎ (r ≡ negsuc 0)) × (closes calls ≡ opens calls))
    ⊎ ((r ≡ negsuc 0) × IsOpen calls × ((before : List Call) × (calls ≡ before ++ skipped ∷ [])))

module _ (P : Par) where
  -- A result that is there, and what it comes to.
  abbrev pub Ends : Option (ℤ × (P.State × List Call)) → Type 0
  Ends out =
      (r : ℤ) × (s : P.State) × (calls : List Call) × (out ≡ some (r, (s, calls)))
      × IsChecked r calls
