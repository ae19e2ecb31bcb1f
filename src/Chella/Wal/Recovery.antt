-- ===== src/Chella/Wal/Recovery.antt =====
-- `rollback` on the logs that `commit` writes.
use mavicona.Base.{
  ℕ, ◌+◌, ◌-◌, ◌*◌, ◌≤◌, ◌<◌, ◌^◌, ◌≡◌, ◌≢◌, refl, sym, ap, ◌∙◌, Bool, true, false, not, none, some,
  List, [], ◌∷◌, ◌++◌, length, All, arith, min, ltb, ◌==◌, if◌then◌else◌, u32, Bool-cases, inl, inr,
  append-nil, drop, drop_all,
}
use mavicona.Base.Int.{pos, pos_part, neg_part, sub_ℕ, ◌+ℤ◌, ◌-ℤ◌, ltb_ℤ}
use mavicona.Base.Stdio.{File, seek, slice, fread, fwrite, c_str, same, length-slice}
use mavicona.Base.Stdio.Written.{slice_outside, slice-fwrite, size-fwrite_end, pos-fwrite}
use mavicona.Chella.Layout.{LogHeader, log_magic, log_header_size, strncpy, log_header_bytes}
use mavicona.Chella.Wal.{
  Wal, Parameter, log_header, commit, mark_done, recovery_likeliness, checkpoint_points,
  jobstate_points, recover, rollback,
}
use mavicona.Chella.Wal.Header.{
  IsHeader, length-strncpy, length-log_header_bytes, c_str-log_header_bytes,
  log_header_of-log_header_bytes,
}

pos_part-sub_ℕ : (a b : ℕ) → pos_part (sub_ℕ a b) ≡ a - b
pos_part-sub_ℕ a b = ground arith

neg_part-sub_ℕ : (a b : ℕ) → neg_part (sub_ℕ a b) ≡ b - a
neg_part-sub_ℕ a b = ground arith

ltb_shift : (a b c d : ℕ) → a + d ≡ c + b → ltb a b ≡ ltb c d
ltb_shift a b c d e = ground arith

-- The points of a log, with those that a missing package takes off kept on the other side.
abbrev gains : LogHeader → ℕ
gains h = 50 + h.failcount * 10 + checkpoint_points h.checkpoint + jobstate_points h.jobstate

below_threshold :
    (h : LogHeader) (in_cache : Bool)
    → ltb_ℤ (recovery_likeliness h in_cache) (pos 40) ≡ ltb (gains h) (if in_cache then 40 else 115)
unfolding recovery_likeliness ◌-ℤ◌ ◌+ℤ◌
below_threshold h true = simp (pos_part-sub_ℕ, neg_part-sub_ℕ) (ltb_shift _ _ _ _ (omega arith))
below_threshold h false = simp (pos_part-sub_ℕ, neg_part-sub_ℕ) (ltb_shift _ _ _ _ (omega arith))

checkpoint_points-le : (n : ℕ) → checkpoint_points n ≤ 30
unfolding checkpoint_points
checkpoint_points-le n = ground arith

jobstate_points-le : (n : ℕ) → jobstate_points n ≤ 20
unfolding jobstate_points
jobstate_points-le n = ground arith

-- Numbers that fit their fields, and a name that ends where it ends.
pub record IsLoggable (w : Wal) : Type 0 where
  pub jobid_small : w.jobparameters.jobid < 2 ^ 32
  pub partition_small : w.jobparameters.jobpartition < 2 ^ 32
  pub count_small : w.jobparameters.jobpartition_count < 2 ^ 32
  pub state_small : w.jobparameters.jobstate < 2 ^ 32
  pub checkpoint_small : w.checkpoint < 2 ^ 32
  pub name_short : length w.jobparameters.jobname < 2 ^ 31
  pub name_whole : All (λ c. c ≢ 0) w.jobparameters.jobname

-- The parameters that a log gives back: the texts fill their fields, and the data is not logged.
abbrev pub logged : Wal → List ℕ × Parameter
logged w = (
  strncpy 40 w.module_name,
  record w.jobparameters {
    jobquid = strncpy 36 w.jobparameters.jobquid;
    jobparent = strncpy 36 w.jobparameters.jobparent;
    jobdata = [];
  },
)

-- The parameters of a job with the name `name` that `rollback` takes from a header.
abbrev pub recovered : LogHeader → List ℕ → Parameter
recovered h name = record {
  jobid = h.jobid;
  jobpartition = h.jobpartition;
  jobpartition_count = h.jobpartition_count;
  jobname = name;
  jobquid = h.quid;
  jobparent = h.parent_quid;
  jobdata = [];
  jobstate = h.jobstate;
}

c_str-closed : (s : List ℕ) → All (λ c. c ≢ 0) s → c_str (s ++ 0 ∷ []) ≡ s
unfolding c_str
c_str-closed [] h = refl
c_str-closed (c ∷ s) (apart, h) =
    let test : (c == 0) ≡ false = ground arith in rw (test, c_str-closed s h)

magic_there : same log_magic log_magic ≡ true
unfolding same
magic_there = refl

module _ (now : ℕ) (is_done : Bool) (w : Wal) (l : IsLoggable w) where
  abbrev header : LogHeader
  header = log_header now is_done w

  header-IsHeader : IsHeader header
  unfolding log_header
  header-IsHeader = record {
    module_long = length-strncpy 40 w.module_name;
    quid_long = length-strncpy 36 w.jobparameters.jobquid;
    parent_long = length-strncpy 36 w.jobparameters.jobparent;
    failcount_small = omega arith;
    finished_small = ground arith;
    jobid_small = l.jobid_small;
    partition_small = l.partition_small;
    count_small = l.count_small;
    state_small = l.state_small;
    size_small = omega arith;
    time_small = omega arith;
    checkpoint_small = l.checkpoint_small;
  }

  abbrev jobname : List ℕ
  jobname = w.jobparameters.jobname

  abbrev first : File
  first = fwrite (log_header_bytes header) (seek 0 w.file)

  abbrev file : File
  file = fwrite jobname first

  first_pos : first.pos ≡ log_header_size
  first_pos = rw (pos-fwrite, length-log_header_bytes header header-IsHeader)

  first_size : log_header_size ≤ first.size
  first_size = omega (
    arith,
    size-fwrite_end (log_header_bytes header) (seek 0 w.file) (omega arith),
    length-log_header_bytes header header-IsHeader,
  )

  file_size : log_header_size + length jobname ≤ file.size
  file_size =
      omega (arith, size-fwrite_end jobname first (omega (arith, first_pos, first_size)), first_pos)

  file_header : slice file.at 0 log_header_size ≡ log_header_bytes header
  file_header =
      slice_outside jobname first 0 log_header_size first_size (inl (omega (arith, first_pos)))
      ∙ rw (length-log_header_bytes header header-IsHeader) at
          (slice-fwrite (log_header_bytes header) (seek 0 w.file))

  file_name : slice file.at log_header_size (length jobname) ≡ jobname
  file_name =
      ap (λ k. slice file.at k (length jobname)) (sym first_pos) ∙ slice-fwrite jobname first

-- A log that can be read, with the header `h`.
pub record HasHeader (f : File) (h : LogHeader) : Type 0 where
  pub fits : IsHeader h
  pub size : log_header_size ≤ f.size
  pub bytes : slice f.at 0 log_header_size ≡ log_header_bytes h

commit-HasHeader :
    (now : ℕ) (is_done : Bool) (w : Wal)
    → IsLoggable w
    → HasHeader (commit now is_done w).file (log_header now is_done w)
unfolding commit
commit-HasHeader now is_done w l = record {
  fits = header-IsHeader now is_done w l;
  size = omega (arith, file_size now is_done w l);
  bytes = file_header now is_done w l;
}

-- The answer to a readable log: it is removed if it was marked done, and recovered or given up
-- otherwise.
rollback-HasHeader :
    (heap : ℕ → ℕ) (file_exist : List ℕ → Bool) (f : File) (h : LogHeader)
    → HasHeader f h
    → rollback heap file_exist (some f) ≡ (
        if not (h.finished == 0)
        then record { left_open = false; unlinked = true; called = none }
        else recover heap file_exist h (seek log_header_size f))
unfolding rollback fread
rollback-HasHeader heap file_exist f h r =
    let whole : min log_header_size (f.size - 0) ≡ log_header_size = omega (arith, r.size) in
    let size_same : length (log_header_bytes h) ≡ log_header_size =
      length-log_header_bytes h r.fits in
    rw (
      whole,
      r.bytes,
      size_same,
      append-nil,
      c_str-log_header_bytes h r.fits,
      magic_there,
      log_header_of-log_header_bytes h r.fits,
    )

module _ (heap : ℕ → ℕ) (file_exist : List ℕ → Bool) where
  -- The points decide: with the package there are always enough of them after a `commit`, and
  -- without it there never are.
  committed_score :
      (now : ℕ) (w : Wal) (in_cache : Bool)
      → ltb_ℤ (recovery_likeliness (log_header now false w) in_cache) (pos 40) ≡ not in_cache
  unfolding log_header
  committed_score now w true = below_threshold (log_header now false w) true ∙ ground arith
  committed_score now w false =
      let a = checkpoint_points-le w.checkpoint in
      let b = jobstate_points-le w.jobparameters.jobstate in
      below_threshold (log_header now false w) false ∙ ground arith

  recover-given_up :
      (h : LogHeader) (f : File)
      → ltb_ℤ (recovery_likeliness h (file_exist h.module_name)) (pos 40) ≡ true
      → recover heap file_exist h f ≡ record { left_open = true; unlinked = false; called = none }
  unfolding recover
  recover-given_up h f e = rw e

  recover-called :
      (h : LogHeader) (f : File) (name : List ℕ)
      → ltb_ℤ (recovery_likeliness h (file_exist h.module_name)) (pos 40) ≡ false
      → h.jobname_size ≡ length name
      → f.pos + length name ≤ f.size
      → slice f.at f.pos (length name) ≡ name
      → All (λ c. c ≢ 0) name
      → recover heap file_exist h f ≡ record {
        left_open = false;
        unlinked = false;
        called = some (h.module_name, recovered h name);
      }
  unfolding recover fread
  recover-called h f name e count room bytes whole =
      let all : min (length name) (f.size - f.pos) ≡ length name = omega arith in
      let nothing : drop (length name) (slice heap 0 (length name)) ≡ [] =
        drop_all (length name) (slice heap 0 (length name)) (rw length-slice (omega arith)) in
      rw (e, count, all, bytes, nothing, append-nil, c_str-closed name whole)

  recover-commit :
      (now : ℕ) (w : Wal)
      → IsLoggable w
      → recover heap file_exist
          (log_header now false w)
          (seek log_header_size (commit now false w).file)
        ≡ (if file_exist (strncpy 40 w.module_name)
            then record { left_open = false; unlinked = false; called = some (logged w) }
            else record { left_open = true; unlinked = false; called = none })
  unfolding commit log_header
  recover-commit now w l =
      let h = log_header now false w in
      let f = seek log_header_size (commit now false w).file in
      let count : u32 (length w.jobparameters.jobname) ≡ length w.jobparameters.jobname =
        omega (arith, l.name_short) in
      elim (Bool-cases (file_exist (strncpy 40 w.module_name))) [
        | inl e ↦
            let score = committed_score now w (file_exist (strncpy 40 w.module_name)) in
            recover-called h f w.jobparameters.jobname (score ∙ rw e) count
              (file_size now false w l) (file_name now false w l) l.name_whole
            ∙ rw e
        | inr e ↦
            let score = committed_score now w (file_exist (strncpy 40 w.module_name)) in
            recover-given_up h f (score ∙ rw e) ∙ rw e
      ]

  -- Where the numbers of a job fit their fields and its name has fewer than 2 ^ 31 characters and no
  -- NUL, a log that was committed and not marked done gives the job back with the parameters that
  -- were logged, at every checkpoint and in every state of the job, if the package of the module is
  -- there; without it the job is given up, and the file stays open.
  pub rollback-commit :
      (now : ℕ) (w : Wal)
      → IsLoggable w
      → rollback heap file_exist (some (commit now false w).file) ≡ (
          if file_exist (strncpy 40 w.module_name)
          then record { left_open = false; unlinked = false; called = some (logged w) }
          else record { left_open = true; unlinked = false; called = none })
  unfolding log_header
  rollback-commit now w l =
      rollback-HasHeader heap file_exist (commit now false w).file (log_header now false w)
        (commit-HasHeader now false w l)
      ∙ recover-commit now w l

  -- Where the numbers of a job fit their fields and its name has fewer than 2 ^ 31 characters and no
  -- NUL, a log that was marked done is closed and removed, and its job is not run again, whether the
  -- package of the module is there or not.
  pub rollback-mark_done :
      (now : ℕ) (w : Wal)
      → IsLoggable w
      → rollback heap file_exist (some (mark_done now w).file)
        ≡ record { left_open = false; unlinked = true; called = none }
  unfolding log_header mark_done
  rollback-mark_done now w l =
      rollback-HasHeader heap file_exist (commit now true w).file (log_header now true w)
        (commit-HasHeader now true w l)
