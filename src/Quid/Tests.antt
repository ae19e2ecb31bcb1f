-- ===== src/Quid/Tests.antt =====
-- Identifiers at concrete times.
use mavicona.Base.{ℕ, ◌+◌, ◌*◌, ◌/◌, min, ◌≡◌, refl, u64, true, some, [], ◌∷◌, arith}
use mavicona.Base.Text.{codes}
use mavicona.Quid.{Quid, Clock, get_system_time, format_quid, tick_loop, quid_decode}
use mavicona.Quid.Stamp.{quid_decode-format_quid}
use mavicona.Quid.Text.{strquid_format, quidtostr, bare, hex, hex_bytes}
use mavicona.Quid.Text.Shape.{strquid_format-quidtostr}

abbrev random : ℕ → ℕ
random n = 1000 + n * 77

abbrev sample : Quid
sample = record {
  time_low = 0x8a5e1c40;
  time_mid = 0x22d1;
  time_hi_and_version = 0xa163;
  clock_seq_hi_and_reserved = 0x9b;
  clock_seq_low = 0x04;
  node = 1 ∷ 2 ∷ 0xab ∷ 4 ∷ 0xf0 ∷ 6 ∷ [];
}

sample_text : quidtostr sample ≡ codes "{8a5e1c40-22d1-a163-9b04-0102ab04f006}"
unfolding quidtostr bare hex hex_bytes
sample_text = refl

strquid_format-quidtostr_example :
    (strquid_format (quidtostr sample) ≡ 1) × (strquid_format (bare sample) ≡ 2)
strquid_format-quidtostr_example = strquid_format-quidtostr sample refl

-- The last microsecond of a second: the count leads into the next one.
quid_decode-format_quid_example :
    quid_decode (format_quid random 5 (u64 (get_system_time 1460000000 999999 + 12)))
    ≡ some (1460000000 + (999999 * 10 + 12) / 10000000)
quid_decode-format_quid_example =
    quid_decode-format_quid random 5 1460000000 999999 12 (omega arith) (omega arith) (omega arith)
      (omega arith)

abbrev busy : Clock
busy = record { inited = true; time_last = 500; ids_this_tick = 9 }

-- The tenth identifier of a tick has the timestamp of the first one a microsecond later.
same_stamp :
    (tick_loop 1 busy (λ i. 500) ≡ some (510, record busy { ids_this_tick = 10 }))
    × (tick_loop 1 (record busy { ids_this_tick = 10 }) (λ i. 510)
        ≡ some (510, record busy { time_last = 510; ids_this_tick = 0 }))
unfolding tick_loop
same_stamp = (refl, refl)

-- A clock that moves on at its second reading.
abbrev full : Clock
full = record { inited = true; time_last = 500; ids_this_tick = 1024 }

abbrev times : ℕ → ℕ
times i = min 510 (500 + i * 10)
