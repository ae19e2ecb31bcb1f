-- ===== src/Chella/Wal.antt =====
-- chella/wal.cpp and wal.h: the log of a job, one file with the job's parameters and the point that
-- it reached, from which jobs that were not finished are run again.
pub mod Header
pub mod Recovery
mod Tests
use mavicona.Base.{
  ℕ, zero, suc, ◌+◌, ◌*◌, Bool, true, false, not, Option, none, some, List, [], ◌∷◌, ◌++◌, length,
  take, drop, replicate, u32, ltb, ◌==◌, if◌then◌else◌,
}
use mavicona.Base.Int.{ℤ, pos, ◌+ℤ◌, ◌-ℤ◌, ltb_ℤ}
use mavicona.Chella.Layout.{
  LogHeader, field, log_header_bytes, log_header_of, log_header_size, log_magic, log_numbers,
  strncpy,
}
use mavicona.Base.Text.{codes}
use mavicona.Base.Decimal.{decimal}
use mavicona.Base.Stdio.{
  File, empty_file, seek, slice, fread, fwrite, overlay, le, un_le, c_str, same,
}

pub data Checkpoint : Type 0 where
  nil : Checkpoint
  init : Checkpoint
  load : Checkpoint
  inject : Checkpoint
  setup_once : Checkpoint
  setup : Checkpoint
  run : Checkpoint
  teardown : Checkpoint
  teardown_once : Checkpoint
  pullchain : Checkpoint

pub data JobState : Type 0 where
  spawn : JobState
  partition : JobState
  funnel : JobState

-- The numbers of the two enumerations.
unfoldable pub checkpoint_code : Checkpoint → ℕ
checkpoint_code nil = 0
checkpoint_code init = 1
checkpoint_code load = 2
checkpoint_code inject = 3
checkpoint_code setup_once = 4
checkpoint_code setup = 5
checkpoint_code run = 6
checkpoint_code teardown = 7
checkpoint_code teardown_once = 8
checkpoint_code pullchain = 9

unfoldable pub jobstate_code : JobState → ℕ
jobstate_code spawn = 0
jobstate_code partition = 1
jobstate_code funnel = 2

-- `Execute::Parameter`; the state of a job that was read from a log can be any number.
pub record Parameter : Type 0 where
  pub jobid : ℕ
  pub jobpartition : ℕ
  pub jobpartition_count : ℕ
  pub jobname : List ℕ
  pub jobquid : List ℕ
  pub jobparent : List ℕ
  pub jobdata : List ℕ
  pub jobstate : ℕ

pub record Wal : Type 0 where
  pub file : File
  pub module_name : List ℕ
  pub jobparameters : Parameter
  pub checkpoint : ℕ

-- `setw(6)` with zeros for fill.
abbrev pub pad_six : List ℕ → List ℕ
pad_six digits = drop (length digits) (replicate 6 48) ++ digits

unfoldable pub walname : ℕ → List ℕ → List ℕ
walname id quid = codes "var/wald" ++ codes "/" ++ quid ++ pad_six (decimal id) ++ codes ".wlog"

-- The header that `commit` writes: `memset` sets the count of failures to zero.
unfoldable pub log_header : ℕ → Bool → Wal → LogHeader
log_header now is_done w = record {
  module_name = strncpy 40 w.module_name;
  quid = strncpy 36 w.jobparameters.jobquid;
  parent_quid = strncpy 36 w.jobparameters.jobparent;
  failcount = 0;
  finished = if is_done then 1 else 0;
  jobid = w.jobparameters.jobid;
  jobpartition = w.jobparameters.jobpartition;
  jobpartition_count = w.jobparameters.jobpartition_count;
  jobstate = w.jobparameters.jobstate;
  jobname_size = u32 (length w.jobparameters.jobname);
  timestamp = u32 now;
  checkpoint = w.checkpoint;
}

unfoldable pub commit : ℕ → Bool → Wal → Wal
commit now is_done w =
    let f_1 = fwrite (log_header_bytes (log_header now is_done w)) (seek 0 w.file) in
    record w { file = fwrite w.jobparameters.jobname f_1 }

-- The constructor, where the file can be made; its assertions are on the arguments.
unfoldable pub new_wal : ℕ → List ℕ → Parameter → Wal
new_wal now name param =
    commit now false
      (record { file = empty_file; module_name = name; jobparameters = param; checkpoint = 0 })

unfoldable pub set_checkpoint : ℕ → Checkpoint → Wal → Wal
set_checkpoint now point w = commit now false (record w { checkpoint = checkpoint_code point })

unfoldable pub mark_done : ℕ → Wal → Wal
mark_done now w = commit now true w

-- The points of the two switches; they have no case for any other number.
unfoldable pub checkpoint_points : ℕ → ℕ
checkpoint_points n =
    if n == 0
    then 30
    else if n == 1
    then 20
    else if n == 2
    then 10
    else if n == 3
    then 20
    else if n == 4
    then 15
    else if n == 5
    then 10
    else if n == 6
    then 5
    else if n == 7
    then 20
    else if n == 8
    then 25
    else if n == 9
    then 30
    else 0

unfoldable pub jobstate_points : ℕ → ℕ
jobstate_points n = if n == 0 then 15 else if n == 1 then 20 else if n == 2 then 10 else 0

-- `recovery_likeliness`; taking off the product with -10 adds ten points for each failure.
unfoldable pub recovery_likeliness : LogHeader → Bool → ℤ
recovery_likeliness h in_cache =
    let start = pos 50 -ℤ (pos 0 -ℤ pos (h.failcount * 10)) in
    let cached = if in_cache then start else start -ℤ pos 75 in
    cached +ℤ pos (checkpoint_points h.checkpoint) +ℤ pos (jobstate_points h.jobstate)

-- What `rollback` does: whether it leaves the file open, whether it removes it, and the call of its
-- callback, if it makes one.
pub record Rollback : Type 0 where
  pub left_open : Bool
  pub unlinked : Bool
  pub called : Option (List ℕ × Parameter)

-- `heap` is what new memory holds, and `file_exist` tells for a module whether its package is there.
module _ (heap : ℕ → ℕ) (file_exist : List ℕ → Bool) where
  -- The part of `rollback` behind the points. The size of the name is taken as one that is not
  -- negative.
  unfoldable pub recover : LogHeader → File → Rollback
  recover h f =
      let (got, f_1) = fread h.jobname_size f in
      let namebuf = overlay got (slice heap 0 h.jobname_size) ++ 0 ∷ [] in
      let parameters : Parameter = record {
        jobid = h.jobid;
        jobpartition = h.jobpartition;
        jobpartition_count = h.jobpartition_count;
        jobname = c_str namebuf;
        jobquid = h.quid;
        jobparent = h.parent_quid;
        jobdata = [];
        jobstate = h.jobstate;
      } in
      if ltb_ℤ (recovery_likeliness h (file_exist h.module_name)) (pos 40)
      then record { left_open = true; unlinked = false; called = none }
      else record { left_open = false; unlinked = false; called = some (h.module_name, parameters) }

  unfoldable pub rollback : Option File → Rollback
  rollback none = record { left_open = false; unlinked = false; called = none }
  rollback (some f) =
      let (got, f_1) = fread log_header_size (seek 0 f) in
      let bytes = overlay got (replicate log_header_size 0) in
      let h = log_header_of bytes in
      if not (same (c_str bytes) log_magic)
      then record { left_open = true; unlinked = false; called = none }
      else if not (h.finished == 0)
      then record { left_open = false; unlinked = true; called = none }
      else recover h f_1
