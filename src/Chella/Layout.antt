-- ===== src/Chella/Layout.antt =====
-- chella/wal.cpp: the structure `pageHeader` of a log as its bytes.
use mavicona.Base.{ℕ, List, [], ◌∷◌, ◌++◌, take, drop, replicate}
use mavicona.Base.Text.{codes}
use mavicona.Base.Stdio.{le, un_le, c_str}

-- `pageHeader` without its magic text.
pub record LogHeader : Type 0 where
  pub module_name : List ℕ
  pub quid : List ℕ
  pub parent_quid : List ℕ
  pub failcount : ℕ
  pub finished : ℕ
  pub jobid : ℕ
  pub jobpartition : ℕ
  pub jobpartition_count : ℕ
  pub jobstate : ℕ
  pub jobname_size : ℕ
  pub timestamp : ℕ
  pub checkpoint : ℕ

abbrev pub log_magic : List ℕ
log_magic = codes "WALU41Q"

abbrev pub log_header_size : ℕ
log_header_size = 152

-- `strncpy` into a field of zeros.
unfoldable pub strncpy : ℕ → List ℕ → List ℕ
strncpy n s = take n (c_str s ++ replicate n 0)

-- The fields behind the texts; two bytes of padding follow `done`.
unfoldable pub log_numbers : LogHeader → List ℕ
log_numbers h =
    le 1 h.failcount
    ++ (le 1 h.finished
        ++ (0
            ∷ 0
            ∷ (le 4 h.jobid
                ++ (le 4 h.jobpartition
                    ++ (le 4 h.jobpartition_count
                        ++ (le 4 h.jobstate
                            ++ (le 4 h.jobname_size
                                ++ (le 4 h.timestamp ++ le 4 h.checkpoint))))))))

unfoldable pub log_header_bytes : LogHeader → List ℕ
log_header_bytes h =
    (log_magic ++ 0 ∷ []) ++ (h.module_name ++ (h.quid ++ (h.parent_quid ++ log_numbers h)))

abbrev pub field : ℕ → ℕ → List ℕ → List ℕ
field offset n bytes = take n (drop offset bytes)

unfoldable pub log_header_of : List ℕ → LogHeader
log_header_of bytes = record {
  module_name = field 8 40 bytes;
  quid = field 48 36 bytes;
  parent_quid = field 84 36 bytes;
  failcount = un_le (field 120 1 bytes);
  finished = un_le (field 121 1 bytes);
  jobid = un_le (field 124 4 bytes);
  jobpartition = un_le (field 128 4 bytes);
  jobpartition_count = un_le (field 132 4 bytes);
  jobstate = un_le (field 136 4 bytes);
  jobname_size = un_le (field 140 4 bytes);
  timestamp = un_le (field 144 4 bytes);
  checkpoint = un_le (field 148 4 bytes);
}
