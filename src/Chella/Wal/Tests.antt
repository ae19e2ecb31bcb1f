-- ===== src/Chella/Wal/Tests.antt =====
-- The log of one job.
use mavicona.Base.{ℕ, ◌≡◌, refl, Bool, true, false, some, none, List, [], arith, ltb→lt}
use mavicona.Base.Text.{codes}
use mavicona.Base.Decimal.{decimal, decimal_digits}
use mavicona.Base.Stdio.{empty_file}
use mavicona.Chella.Wal.{Wal, Parameter, commit, mark_done, rollback, walname}
use mavicona.Chella.Wal.Recovery.{IsLoggable, rollback-commit, rollback-mark_done}

abbrev heap : ℕ → ℕ
heap q = 7

abbrev absent : List ℕ → Bool
absent name = false

abbrev sample : Parameter
sample = record {
  jobid = 3;
  jobpartition = 1;
  jobpartition_count = 2;
  jobname = codes "job";
  jobquid = codes "00000000-1111-2222-3333-444444444444";
  jobparent = [];
  jobdata = codes "data";
  jobstate = 1;
}

abbrev log : Wal
log = record {
  file = empty_file;
  module_name = codes "0123456789012345678901234567890123456789";
  jobparameters = sample;
  checkpoint = 6;
}

log-IsLoggable : IsLoggable log
log-IsLoggable = record {
  jobid_small = ltb→lt _ _ refl;
  partition_small = ltb→lt _ _ refl;
  count_small = ltb→lt _ _ refl;
  state_small = ltb→lt _ _ refl;
  checkpoint_small = ltb→lt _ _ refl;
  name_short = ltb→lt _ _ refl;
  name_whole = (λ e. omega arith, (λ e. omega arith, (λ e. omega arith, tt)));
}

rollback-commit_example :
    rollback heap absent (some (commit 99 false log).file)
    ≡ record { left_open = true; unlinked = false; called = none }
rollback-commit_example = rollback-commit heap absent 99 log log-IsLoggable

rollback-mark_done_example :
    rollback heap absent (some (mark_done 99 log).file)
    ≡ record { left_open = false; unlinked = true; called = none }
rollback-mark_done_example = rollback-mark_done heap absent 99 log log-IsLoggable

log_name : walname 3 (codes "q") ≡ codes "var/wald/q000003.wlog"
unfolding walname decimal decimal_digits
log_name = refl
