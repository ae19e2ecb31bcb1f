-- ===== src/Packer/Package.antt =====
-- packer/package.c: an archive made, extracted and verified by calls of the archive library. The
-- calls are the fields of the record Par, and what they return is the number that the code tests.
pub mod Calls
pub mod Verify
mod Tests
use mavicona.Base.{
  ℕ, zero, suc, ◌+◌, ◌-◌, Bool, true, false, not, Option, none, some, List, [], ◌∷◌, ◌++◌, take,
  ◌==◌, if◌then◌else◌, ◌&&◌,
}
use mavicona.Base.Int.{ℤ, pos, negsuc}
use mavicona.Base.Text.{codes}

-- The archive library, with what a pointer to an open archive stands for. `par_open` is given the
-- file, whether it opens for writing, and the mode.
pub record Par : Type 1 where
  pub State : Type 0
  pub Handle : Type 0
  pub par_open : List ℕ → Bool → ℕ → State → ℤ × Handle × State
  pub par_write_header : Handle → State → ℤ × State
  pub par_read_header : Handle → State → ℤ × State
  pub par_append_tree : Handle → List ℕ → List ℕ → State → ℤ × State
  pub par_append_eof : Handle → State → ℤ × State
  pub par_extract_all : Handle → Option (List ℕ) → State → ℤ × State
  pub th_read : Handle → State → ℤ × State
  pub th_print_long_ls : Handle → State → State
  pub th_isreg : Handle → State → Bool
  pub par_skip_regfile : Handle → State → ℤ × State
  pub par_close : Handle → State → ℤ × State

abbrev pub is_minus_one : ℤ → Bool
is_minus_one (pos n) = false
is_minus_one (negsuc n) = n == 0

abbrev pub is_null : ℤ → Bool
is_null (pos n) = n == 0
is_null (negsuc n) = false

-- The text that `snprintf` and `strlcpy` leave in a buffer of `max` characters.
abbrev pub starts_with_slash : List ℕ → Bool
starts_with_slash [] = false
starts_with_slash (c ∷ path) = c == 47

unfoldable pub real_path : ℕ → Option (List ℕ) → List ℕ → List ℕ
real_path max none pathname = take (max - 1) pathname
real_path max (some rootdir) pathname =
    if starts_with_slash pathname
    then take (max - 1) pathname
    else take (max - 1) (rootdir ++ codes "/" ++ pathname)

module _ (P : Par) where
  -- The end of every path that closes an archive after an error.
  unfoldable pub close_failed : P.Handle → P.State → ℤ × P.State
  close_failed t s = let (r, s_1) = P.par_close t s in (negsuc 0, s_1)

  -- The end of every path without an error so far.
  unfoldable pub close_archive : P.Handle → P.State → ℤ × P.State
  close_archive t s =
      let (r, s_1) = P.par_close t s in if not (is_null r) then (negsuc 0, s_1) else (pos 0, s_1)

  unfoldable pub end_archive : P.Handle → P.State → ℤ × P.State
  end_archive t s =
      let (r, s_1) = P.par_append_eof t s in
      if not (is_null r) then close_failed t s_1 else close_archive t s_1

  -- The loop over the list of paths, and what follows it.
  unfoldable pub append_all : ℕ → Option (List ℕ) → P.Handle → List (List ℕ) → P.State → ℤ × P.State
  append_all max rootdir t [] s = end_archive t s
  append_all max rootdir t (pathname ∷ list) s =
      let (r, s_1) = P.par_append_tree t (real_path max rootdir pathname) pathname s in
      let rest = append_all max rootdir t list s_1 in
      if not (is_null r) then close_failed t s_1 else rest

  unfoldable pub package_create :
      ℕ → List ℕ → Option (List ℕ) → List (List ℕ) → P.State → ℤ × P.State
  package_create max file rootdir list s =
      let (r, t, s_1) = P.par_open file true 420 s in
      let (r_1, s_2) = P.par_write_header t s_1 in
      if is_minus_one r
      then (negsuc 0, s_1)
      else if is_minus_one r_1
      then close_failed t s_2
      else append_all max rootdir t list s_2

  unfoldable pub package_extract : List ℕ → Option (List ℕ) → P.State → ℤ × P.State
  package_extract file rootdir s =
      let (r, t, s_1) = P.par_open file false 0 s in
      let (r_1, s_2) = P.par_read_header t s_1 in
      let (r_2, s_3) = P.par_extract_all t rootdir s_2 in
      if is_minus_one r
      then (negsuc 0, s_1)
      else if not (is_null r_1)
      then close_failed t s_2
      else if not (is_null r_2)
      then close_failed t s_3
      else close_archive t s_3

  -- The loop of `package_verify`, for at most `fuel` entries; `none` is a loop that goes on. An error
  -- in it returns without closing.
  unfoldable pub verify_loop : ℕ → P.Handle → P.State → Option (ℤ × P.State)
  verify_loop zero t s = none
  verify_loop (suc fuel) t s =
      let (i, s_1) = P.th_read t s in
      let s_2 = P.th_print_long_ls t s_1 in
      let (r, s_3) = P.par_skip_regfile t s_2 in
      let skipped = verify_loop fuel t s_3 in
      let rest = verify_loop fuel t s_2 in
      if not (is_null i)
      then some (close_archive t s_1)
      else if not (P.th_isreg t s_2)
      then rest
      else if not (is_null r)
      then some (negsuc 0, s_3)
      else skipped

  unfoldable pub package_verify : ℕ → List ℕ → P.State → Option (ℤ × P.State)
  package_verify fuel file s =
      let (r, t, s_1) = P.par_open file false 0 s in
      let (r_1, s_2) = P.par_read_header t s_1 in
      if is_minus_one r
      then some (negsuc 0, s_1)
      else if not (is_null r_1)
      then some (close_failed t s_2)
      else verify_loop fuel t s_2
