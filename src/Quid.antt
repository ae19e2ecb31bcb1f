-- ===== src/Quid.antt =====
-- quid/quid.c: identifiers made from the clock and random bytes.
pub mod Stamp
pub mod Ticks
pub mod Text
mod Tests
use mavicona.Base.{
  ℕ, zero, suc, ◌+◌, ◌-◌, ◌*◌, ◌/◌, ◌%◌, ◌^◌, bit_and, bit_or, bit_xor, ◌>>◌, u8, u16, u32, u64,
  Bool, true, false, ◌||◌, ◌&&◌, not, Option, none, some, List, [], ◌∷◌, ◌==◌, ltb, if◌then◌else◌,
}

-- UIDS_PER_TICK
abbrev pub uids_per_tick : ℕ
uids_per_tick = 1024

-- EPOCH_DIFF
abbrev pub epoch_diff : ℕ
epoch_diff = 11644473600

-- QUID_VERSION_3
abbrev pub quid_version_3 : ℕ
quid_version_3 = 0xa000

-- QUID_SIGNATURE
abbrev pub quid_signature : ℕ
quid_signature = 0x80

-- `struct quid`
pub record Quid : Type 0 where
  pub time_low : ℕ
  pub time_mid : ℕ
  pub time_hi_and_version : ℕ
  pub clock_seq_hi_and_reserved : ℕ
  pub clock_seq_low : ℕ
  pub node : List ℕ

-- `get_system_time`, on what `gettimeofday` gives.
unfoldable pub get_system_time : ℕ → ℕ → ℕ
get_system_time tv_sec tv_usec = u64 ((epoch_diff + tv_sec) * 10000000 + tv_usec * 10)

-- The bytes of a node, on six answers of the random source, the first of which comes first.
unfoldable pub node_bytes : (ℕ → ℕ) → List ℕ
node_bytes random =
    u8 (random 0)
    ∷ u8 (random 1)
    ∷ u8 (random 2)
    ∷ u8 (random 3)
    ∷ bit_and (random 4) 0xf0
    ∷ bit_and (random 5) 0xff
    ∷ []

unfoldable pub format_quid : (ℕ → ℕ) → ℕ → ℕ → Quid
format_quid random clock_seq timestamp = record {
  time_low = bit_and timestamp 0xffffffff;
  time_mid = u16 (bit_and (timestamp >> 32) 0xffff);
  time_hi_and_version =
      bit_or (bit_xor (u16 (bit_and (timestamp >> 48) 0xfff)) quid_signature) quid_version_3;
  clock_seq_low = bit_and clock_seq 0xff;
  clock_seq_hi_and_reserved = bit_or (bit_and clock_seq 0x3f00 >> 8) quid_signature;
  node = node_bytes random;
}

-- The variables that `get_current_time` keeps: `inited` is false before the first call.
pub record Clock : Type 0 where
  pub inited : Bool
  pub time_last : ℕ
  pub ids_this_tick : ℕ

abbrev pub first_clock : Clock
first_clock = record { inited = false; time_last = 0; ids_this_tick = 0 }

-- The loop of `get_current_time`, on the system times that it reads, with fuel for as many rounds:
-- `none` is a loop that has not ended. The timestamp comes first.
unfoldable pub tick_loop : ℕ → Clock → (ℕ → ℕ) → Option (ℕ × Clock)
tick_loop zero clock times = none
tick_loop (suc fuel) clock times =
    let time_now = times 0 in
    let count = clock.ids_this_tick + 1 in
    let later = tick_loop fuel clock (λ n. times (suc n)) in
    if not (clock.time_last == time_now)
    then some (time_now, record clock { ids_this_tick = 0; time_last = time_now })
    else if ltb clock.ids_this_tick uids_per_tick
    then some (u64 (time_now + count), record clock { ids_this_tick = count })
    else later

-- The first call reads the time once more, and does not use it.
unfoldable pub get_current_time : ℕ → Clock → (ℕ → ℕ) → Option (ℕ × Clock)
get_current_time fuel clock times =
    let started = record clock { ids_this_tick = uids_per_tick; inited = true } in
    if clock.inited then tick_loop fuel clock times else tick_loop fuel started (λ n. times (suc n))

-- The random source is first asked for the clock sequence.
unfoldable pub quid_create : ℕ → Clock → (ℕ → ℕ) → (ℕ → ℕ) → Option (Quid × Clock)
quid_create fuel clock times random = elim (get_current_time fuel clock times) [
  | none ↦ none
  | some (timestamp, clock') ↦
      some (format_quid (λ n. random (suc n)) (u16 (random 0)) timestamp, clock')
]

-- `quid_short_create`
unfoldable pub quid_short_create : (ℕ → ℕ) → List ℕ
quid_short_create random = node_bytes random

-- The timestamp that `quid_decode` puts together. The words are those of a little-endian machine; the
-- subtraction is that of an `int` that is cut to 16 bits.
unfoldable pub stored_time : Quid → ℕ
stored_time uid =
    let high = bit_xor (u16 (uid.time_hi_and_version + 2 ^ 16 - quid_version_3)) quid_signature in
    u32 uid.time_low + (uid.time_mid * 2 ^ 32 + high * 2 ^ 48)

-- The second, counted from 1970, that `quid_decode` shows; `none` is a malformed identifier.
unfoldable pub quid_decode : Quid → Option ℕ
quid_decode uid =
    let ts = u64 (stored_time uid / 10000000 + 2 ^ 64 - epoch_diff) in
    if ltb ts 1000000000 || ltb 2000000000 ts
    then none
    else if bit_and uid.time_hi_and_version quid_version_3 == 0
    then none
    else if bit_and uid.clock_seq_hi_and_reserved quid_signature == 0
    then none
    else some ts
