-- ===== src/Mumux/Frame/RoundTrip.antt =====
-- What `wby_scan_websocket_frame` reads is what `wby_make_websocket_header` wrote.
use mavicona.Base.{
  ℕ, suc, ◌+◌, ◌*◌, ◌/◌, ◌%◌, ◌^◌, ◌≤◌, ◌<◌, ◌≡◌, refl, ap, ◌∙◌, Bool, some, List, ◌∷◌, ◌++◌, arith,
  u8, ltb, if◌then◌else◌, length, inl, inr, Bool-cases, ltb→lt,
}
use mavicona.Base.Int.{pos}
use mavicona.Mumux.Frame.{
  Frame, wsf_fin, fill_frame, make_websocket_header, read_length, read_mask, scan_rest,
  scan_websocket_frame,
}
use mavicona.Mumux.Frame.Byte.{
  first_byte-opcode, first_byte-fin, second_byte-length, second_byte-mask, shift_in,
}

-- The frame that an unmasked header of `size` bytes announces.
abbrev pub plain_frame : Frame → ℕ → ℕ → Bool → ℕ → Frame
plain_frame old size opcode fin payload_len = record {
  flags = if fin then wsf_fin else 0;
  opcode = opcode;
  header_size = size;
  mask_key = old.mask_key;
  payload_length = pos payload_len;
}

read_one :
    (n len b : ℕ) (rest : List ℕ)
    → b < 256
    → read_length (suc n) len (b ∷ rest) ≡ read_length n ((len * 256 + b) % 2 ^ 32) rest
unfolding read_length
read_one n len b rest h = ap (λ t. read_length n t rest) (shift_in len b h)

read_none : (len : ℕ) (rest : List ℕ) → read_length 0 len rest ≡ (len, rest)
unfolding read_length
read_none len rest = refl

-- Two length bytes, most significant first.
pub read_two :
    (n : ℕ) (rest : List ℕ) → n < 65536 → read_length 2 0 (u8 (n / 2 ^ 8) ∷ u8 n ∷ rest) ≡ (n, rest)
read_two n rest h =
    read_one 1 0 (u8 (n / 2 ^ 8)) (u8 n ∷ rest) (omega arith)
    ∙ read_one 0 _ (u8 n) rest (omega arith)
    ∙ read_none _ rest
    ∙ ap (λ t. (t, rest)) (omega arith)

-- Eight length bytes, the first four of them zero.
pub read_eight :
    (n : ℕ) (rest : List ℕ)
    → n < 2 ^ 31
    → read_length 8 0
        (0 ∷ 0 ∷ 0 ∷ 0 ∷ u8 (n / 2 ^ 24) ∷ u8 (n / 2 ^ 16) ∷ u8 (n / 2 ^ 8) ∷ u8 n ∷ rest)
      ≡ (n, rest)
read_eight n rest h =
    read_one 7 0 0 _ (omega arith)
    ∙ read_one 6 _ 0 _ (omega arith)
    ∙ read_one 5 _ 0 _ (omega arith)
    ∙ read_one 4 _ 0 _ (omega arith)
    ∙ read_one 3 _ (u8 (n / 2 ^ 24)) _ (omega arith)
    ∙ read_one 2 _ (u8 (n / 2 ^ 16)) _ (omega arith)
    ∙ read_one 1 _ (u8 (n / 2 ^ 8)) _ (omega arith)
    ∙ read_one 0 _ (u8 n) rest (omega arith)
    ∙ read_none _ rest
    ∙ ap (λ t. (t, rest)) (omega arith)

module _ (old : Frame) (opcode n : ℕ) (fin : Bool) (rest : List ℕ) (small : opcode < 16) where
  -- The header is read back, and what follows it is left alone.
  abbrev ReadsBack : Type 0
  ReadsBack =
      scan_websocket_frame old (make_websocket_header opcode n fin ++ rest)
      ≡ some (plain_frame old (length (make_websocket_header opcode n fin)) opcode fin n)

  short_form : n < 126 → ReadsBack
  unfolding scan_websocket_frame scan_rest fill_frame make_websocket_header read_length read_mask
  short_form h = ground (
    arith,
    first_byte-opcode fin opcode small,
    first_byte-fin fin opcode small,
    second_byte-length n,
    second_byte-mask n,
  )

  medium_form : 126 ≤ n → n < 65536 → ReadsBack
  unfolding scan_websocket_frame scan_rest fill_frame make_websocket_header read_mask
  medium_form lo hi = ground (
    arith,
    first_byte-opcode fin opcode small,
    first_byte-fin fin opcode small,
    read_two n rest hi,
  )

  long_form : 65536 ≤ n → n < 2 ^ 31 → ReadsBack
  unfolding scan_websocket_frame scan_rest fill_frame make_websocket_header read_mask
  long_form lo hi = ground (
    arith,
    first_byte-opcode fin opcode small,
    first_byte-fin fin opcode small,
    read_eight n rest hi,
  )

-- For an opcode of four bits and a payload length that is an `int`, scanning a header that
-- `wby_make_websocket_header` wrote, whatever follows it, succeeds and yields the FIN flag, the
-- opcode and the payload length that were written, with the header's own size, no MASKED flag and
-- the mask key as it was.
pub scan-make :
    (old : Frame) (opcode n : ℕ) (fin : Bool) (rest : List ℕ)
    → opcode < 16
    → n < 2 ^ 31
    → scan_websocket_frame old (make_websocket_header opcode n fin ++ rest)
      ≡ some (plain_frame old (length (make_websocket_header opcode n fin)) opcode fin n)
scan-make old opcode n fin rest ho hn = elim (Bool-cases (ltb n 126)) [
  | inl a ↦ short_form old opcode n fin rest ho (ltb→lt n 126 a)
  | inr a ↦ elim (Bool-cases (ltb n 65536)) [
    | inl b ↦ medium_form old opcode n fin rest ho (ground arith) (ltb→lt n 65536 b)
    | inr b ↦ long_form old opcode n fin rest ho (ground arith) hn
  ]
]
