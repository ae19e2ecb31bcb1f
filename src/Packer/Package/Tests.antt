-- ===== src/Packer/Package/Tests.antt =====
-- An archive library whose state is the number of entries left, and an archive of two files that
-- cannot be skipped.
use mavicona.Base.{ℕ, zero, suc, ◌≡◌, refl, true, false, some, List, [], ◌∷◌}
use mavicona.Base.Int.{ℤ, pos, negsuc}
use mavicona.Base.Text.{codes}
use mavicona.Packer.Package.{
  Par, package_create, package_verify, real_path, append_all, end_archive, close_archive,
  verify_loop,
}
use mavicona.Packer.Package.Calls.{
  opened, header, appended, ended, entry, skipped, closed, recorded,
}

abbrev read_one : ℕ → ℤ × ℕ
read_one zero = (pos 1, zero)
read_one (suc n) = (pos 0, n)

abbrev toy : Par
toy = record {
  State = ℕ;
  Handle = ℕ;
  par_open = λ file writes mode s. (pos 0, 7, s);
  par_write_header = λ t s. (pos 0, s);
  par_read_header = λ t s. (pos 0, s);
  par_append_tree = λ t path name s. (pos 0, s);
  par_append_eof = λ t s. (pos 0, s);
  par_extract_all = λ t root s. (pos 0, s);
  th_read = λ t s. read_one s;
  th_print_long_ls = λ t s. s;
  th_isreg = λ t s. true;
  par_skip_regfile = λ t s. (negsuc 0, s);
  par_close = λ t s. (pos 0, s);
}

abbrev paths : List (List ℕ)
paths = codes "a" ∷ codes "/b" ∷ []

created :
    (package_create (recorded toy) 4096 (codes "p") (some (codes "root")) paths (2, [])).1.1
    ≡ opened (codes "p") true
      ∷ header
      ∷ appended (codes "root/a") (codes "a")
      ∷ appended (codes "/b") (codes "/b")
      ∷ ended
      ∷ closed
      ∷ []
unfolding package_create append_all end_archive close_archive real_path
created = refl

-- The archive is not closed.
left_open :
    package_verify (recorded toy) 3 (codes "p") (2, [])
    ≡ some (negsuc 0, (1, opened (codes "p") false ∷ header ∷ entry ∷ skipped ∷ []))
unfolding package_verify verify_loop
left_open = refl
