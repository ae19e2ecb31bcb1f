-- ===== src/Chella/Wal/Header.antt =====
-- The header of a log, written and read.
use mavicona.Base.{
  ℕ, ◌+◌, ◌<◌, ◌^◌, ◌≡◌, refl, sym, ap, ◌∙◌, List, ◌++◌, length, drop, arith, take-append_length,
  drop-append_length, drop-drop, length-append, length-take, length-replicate,
}
use mavicona.Base.Stdio.{le, un_le, c_str}
use mavicona.Base.Stdio.Written.{un_le-le_4}
use mavicona.Chella.Layout.{
  LogHeader, log_magic, log_header_size, strncpy, log_numbers, log_header_bytes, log_header_of,
}

-- The fields of a header that a `struct` can hold.
pub record IsHeader (h : LogHeader) : Type 0 where
  pub module_long : length h.module_name ≡ 40
  pub quid_long : length h.quid ≡ 36
  pub parent_long : length h.parent_quid ≡ 36
  pub failcount_small : h.failcount < 2 ^ 8
  pub finished_small : h.finished < 2 ^ 8
  pub jobid_small : h.jobid < 2 ^ 32
  pub partition_small : h.jobpartition < 2 ^ 32
  pub count_small : h.jobpartition_count < 2 ^ 32
  pub state_small : h.jobstate < 2 ^ 32
  pub size_small : h.jobname_size < 2 ^ 32
  pub time_small : h.timestamp < 2 ^ 32
  pub checkpoint_small : h.checkpoint < 2 ^ 32

pub length-strncpy : (n : ℕ) (s : List ℕ) → length (strncpy n s) ≡ n
unfolding strncpy
length-strncpy n s = rw (length-take, length-append) (omega (arith, length-replicate {A = ℕ} n 0))

un_le-le_1 : (n : ℕ) → n < 2 ^ 8 → un_le (le 1 n) ≡ n
unfolding un_le le
un_le-le_1 n h = omega arith

module _ (h : LogHeader) (i : IsHeader h) where
  pub length-log_header_bytes : length (log_header_bytes h) ≡ log_header_size
  unfolding log_header_bytes log_numbers le
  length-log_header_bytes =
      let first = length-append h.module_name (h.quid ++ (h.parent_quid ++ log_numbers h)) in
      let second = length-append h.quid (h.parent_quid ++ log_numbers h) in
      let third = length-append h.parent_quid (log_numbers h) in
      omega (arith, i.module_long, i.quid_long, i.parent_long, first, second, third)

  pub c_str-log_header_bytes : c_str (log_header_bytes h) ≡ log_magic
  unfolding log_header_bytes c_str
  c_str-log_header_bytes = refl

  at_module :
      drop 8 (log_header_bytes h) ≡ h.module_name ++ (h.quid ++ (h.parent_quid ++ log_numbers h))
  unfolding log_header_bytes
  at_module = refl

  at_quid : drop 48 (log_header_bytes h) ≡ h.quid ++ (h.parent_quid ++ log_numbers h)
  at_quid =
      sym (drop-drop 40 8 (log_header_bytes h))
      ∙ ap (drop 40) at_module
      ∙ drop-append_length h.module_name _ 40 (sym i.module_long)

  at_parent : drop 84 (log_header_bytes h) ≡ h.parent_quid ++ log_numbers h
  at_parent =
      sym (drop-drop 36 48 (log_header_bytes h))
      ∙ ap (drop 36) at_quid
      ∙ drop-append_length h.quid _ 36 (sym i.quid_long)

  at_numbers : drop 120 (log_header_bytes h) ≡ log_numbers h
  at_numbers =
      sym (drop-drop 36 84 (log_header_bytes h))
      ∙ ap (drop 36) at_parent
      ∙ drop-append_length h.parent_quid _ 36 (sym i.parent_long)

  number : (k : ℕ) → drop (120 + k) (log_header_bytes h) ≡ drop k (log_numbers h)
  number k = sym (drop-drop k 120 (log_header_bytes h)) ∙ ap (drop k) at_numbers

  -- A header is read as it was written.
  pub log_header_of-log_header_bytes : log_header_of (log_header_bytes h) ≡ h
  unfolding log_header_of log_numbers le
  log_header_of-log_header_bytes = simp (
    at_module,
    at_quid,
    at_parent,
    number 0,
    number 1,
    number 4,
    number 8,
    number 12,
    number 16,
    number 20,
    number 24,
    number 28,
    take-append_length h.module_name (h.quid ++ (h.parent_quid ++ log_numbers h)) 40
        (sym i.module_long),
    take-append_length h.quid (h.parent_quid ++ log_numbers h) 36 (sym i.quid_long),
    take-append_length h.parent_quid (log_numbers h) 36 (sym i.parent_long),
    un_le-le_1 h.failcount i.failcount_small,
    un_le-le_1 h.finished i.finished_small,
    un_le-le_4 h.jobid i.jobid_small,
    un_le-le_4 h.jobpartition i.partition_small,
    un_le-le_4 h.jobpartition_count i.count_small,
    un_le-le_4 h.jobstate i.state_small,
    un_le-le_4 h.jobname_size i.size_small,
    un_le-le_4 h.timestamp i.time_small,
    un_le-le_4 h.checkpoint i.checkpoint_small,
  )
