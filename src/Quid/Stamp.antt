-- ===== src/Quid/Stamp.antt =====
-- The time in an identifier.
use mavicona.Base.{
  ℕ, ◌+◌, ◌-◌, ◌*◌, ◌/◌, ◌%◌, ◌^◌, ◌≤◌, ◌<◌, ◌≡◌, ap, ◌∙◌, bit_and, bit_or, bit_xor, ◌>>◌, u16, u64,
  some, arith,
}
use mavicona.Base.Bits.{bit_and_ones, bit_and_field, bit_or_below}
use mavicona.Base.Xor.{bit_xor_twice, bit_xor_bound}
use mavicona.Quid.{
  epoch_diff, quid_version_3, quid_signature, get_system_time, format_quid, stored_time,
  quid_decode,
}

-- The upper 12 bits of a timestamp, with the signature.
abbrev signed_high : ℕ → ℕ
signed_high timestamp = bit_xor (timestamp / 2 ^ 48 % 2 ^ 12) quid_signature

signed_high-bound : (timestamp : ℕ) → signed_high timestamp < 2 ^ 12
signed_high-bound timestamp =
    bit_xor_bound 12 (timestamp / 2 ^ 48 % 2 ^ 12) quid_signature (omega arith) (omega arith)

same_word : (x : ℕ) → u16 (x % 2 ^ 16) ≡ x % 2 ^ 16
same_word x = omega arith

module _ (random : ℕ → ℕ) (clock_seq timestamp : ℕ) where
  hi_and_version :
      (format_quid random clock_seq timestamp).time_hi_and_version
      ≡ quid_version_3 + signed_high timestamp
  unfolding format_quid
  hi_and_version =
      let high : bit_and (timestamp >> 48) 0xfff ≡ timestamp / 2 ^ 48 % 2 ^ 12 =
        bit_and_ones 12 (timestamp >> 48) in
      let short : u16 (bit_and (timestamp >> 48) 0xfff) ≡ timestamp / 2 ^ 48 % 2 ^ 12 =
        omega (arith, high) in
      ap (λ t. bit_or (bit_xor t quid_signature) quid_version_3) short
      ∙ bit_or_below 12 10 (signed_high timestamp) (signed_high-bound timestamp)

  clock_seq_hi :
      (format_quid random clock_seq timestamp).clock_seq_hi_and_reserved
      ≡ quid_signature + clock_seq / 2 ^ 8 % 2 ^ 6
  unfolding format_quid
  clock_seq_hi =
      let field : bit_and clock_seq 0x3f00 ≡ bit_and (clock_seq / 2 ^ 8) 63 * 2 ^ 8 =
        bit_and_field 8 63 clock_seq in
      let ones : bit_and (clock_seq / 2 ^ 8) 63 ≡ clock_seq / 2 ^ 8 % 2 ^ 6 =
        bit_and_ones 6 (clock_seq / 2 ^ 8) in
      let shifted : bit_and clock_seq 0x3f00 >> 8 ≡ clock_seq / 2 ^ 8 % 2 ^ 6 =
        omega (arith, field, ones) in
      ap (λ t. bit_or t quid_signature) shifted
      ∙ bit_or_below 7 1 (clock_seq / 2 ^ 8 % 2 ^ 6) (omega arith)

  -- An identifier holds the low 60 bits of the timestamp that it was made from.
  pub stored_time-format_quid :
      stored_time (format_quid random clock_seq timestamp) ≡ timestamp % 2 ^ 60
  unfolding stored_time format_quid
  stored_time-format_quid =
      let uid = format_quid random clock_seq timestamp in
      let low : uid.time_low ≡ timestamp % 2 ^ 32 = bit_and_ones 32 timestamp in
      let mid : uid.time_mid ≡ timestamp / 2 ^ 32 % 2 ^ 16 =
        ap u16 (bit_and_ones 16 (timestamp >> 32)) ∙ same_word (timestamp / 2 ^ 32) in
      let plain : u16 (uid.time_hi_and_version + 2 ^ 16 - quid_version_3) ≡ signed_high timestamp =
        omega (arith, hi_and_version, signed_high-bound timestamp) in
      let high : bit_xor (u16 (uid.time_hi_and_version + 2 ^ 16 - quid_version_3)) quid_signature
          ≡ timestamp / 2 ^ 48 % 2 ^ 12 =
        ap (λ t. bit_xor t quid_signature) plain
        ∙ bit_xor_twice (timestamp / 2 ^ 48 % 2 ^ 12) quid_signature in
      omega (arith, low, mid, high)

-- An identifier made in the second `tv_sec`, at least 10 ^ 9 and before 2 * 10 ^ 9, with a count of
-- at most `uids_per_tick` added to the clock, is decoded to the second that clock and count give.
pub quid_decode-format_quid :
    (random : ℕ → ℕ) (clock_seq tv_sec tv_usec count : ℕ)
    → 1000000000 ≤ tv_sec
    → tv_sec < 2000000000
    → tv_usec < 1000000
    → count ≤ 1024
    → quid_decode (format_quid random clock_seq (u64 (get_system_time tv_sec tv_usec + count)))
      ≡ some (tv_sec + (tv_usec * 10 + count) / 10000000)
unfolding quid_decode get_system_time
quid_decode-format_quid random clock_seq tv_sec tv_usec count h g k l =
    let timestamp : ℕ = u64 (get_system_time tv_sec tv_usec + count) in
    let uid = format_quid random clock_seq timestamp in
    let exact : timestamp ≡ (epoch_diff + tv_sec) * 10000000 + tv_usec * 10 + count = omega arith in
    let second : u64 (stored_time uid / 10000000 + 2 ^ 64 - epoch_diff)
        ≡ tv_sec + (tv_usec * 10 + count) / 10000000 =
      omega (arith, stored_time-format_quid random clock_seq timestamp, exact) in
    let version : bit_and uid.time_hi_and_version quid_version_3 ≡ quid_version_3 =
      bit_and_field 13 5 uid.time_hi_and_version
      ∙ ap (λ t. bit_and t 5 * 2 ^ 13)
          (version_digit timestamp (hi_and_version random clock_seq timestamp)) in
    let signature : bit_and uid.clock_seq_hi_and_reserved quid_signature ≡ quid_signature =
      bit_and_field 7 1 uid.clock_seq_hi_and_reserved
      ∙ ap (λ t. bit_and t 1 * 2 ^ 7) (signature_digit (clock_seq_hi random clock_seq timestamp)) in
    rw (second, version, signature) (ground arith)
  where
    version_digit : {v : ℕ} (t : ℕ) → v ≡ quid_version_3 + signed_high t → v / 2 ^ 13 ≡ 5
    version_digit t e = omega (arith, signed_high-bound t)

    signature_digit : {v : ℕ} → v ≡ quid_signature + clock_seq / 2 ^ 8 % 2 ^ 6 → v / 2 ^ 7 ≡ 1
    signature_digit e = omega arith
