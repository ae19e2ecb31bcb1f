-- ===== src/Mumux/Frame/Masked.antt =====
-- A client's frame header, as RFC 6455 lays it out, is read by `wby_scan_websocket_frame`.
use mavicona.Base.{
  ℕ, ◌+◌, ◌/◌, ◌^◌, ◌≤◌, ◌<◌, ◌≡◌, Bool, some, List, [], ◌∷◌, arith, u8, ltb, if◌then◌else◌, inl,
  inr, Bool-cases, ltb→lt,
}
use mavicona.Base.Int.{pos}
use mavicona.Mumux.Frame.{
  Frame, wsf_masked, fill_frame, read_length, read_mask, scan_rest, scan_websocket_frame,
}
use mavicona.Mumux.Frame.Byte.{
  first_byte, first_byte-opcode, first_byte-fin, masked_byte-length, masked_byte-mask,
}
use mavicona.Mumux.Frame.RoundTrip.{read_two, read_eight}

-- The length field and its extension, most significant byte first, with the MASK bit set.
unfoldable pub masked_length : ℕ → List ℕ → List ℕ
masked_length n rest =
    if ltb n 126
    then (128 + n) ∷ rest
    else if ltb n 65536
    then 254 ∷ u8 (n / 2 ^ 8) ∷ u8 n ∷ rest
    else 255 ∷ 0 ∷ 0 ∷ 0 ∷ 0 ∷ u8 (n / 2 ^ 24) ∷ u8 (n / 2 ^ 16) ∷ u8 (n / 2 ^ 8) ∷ u8 n ∷ rest

-- The header of a client's frame whose mask is the four bytes `k0` to `k3`.
unfoldable pub client_header : Bool → ℕ → ℕ → ℕ → ℕ → ℕ → ℕ → List ℕ → List ℕ
unfolding masked_length
client_header fin opcode n k0 k1 k2 k3 rest =
    first_byte fin opcode ∷ masked_length n (k0 ∷ k1 ∷ k2 ∷ k3 ∷ rest)

abbrev pub client_header_size : ℕ → ℕ
client_header_size n = if ltb n 126 then 6 else if ltb n 65536 then 8 else 14

module _ (old : Frame) (m0 m1 m2 m3 : ℕ) (opcode n : ℕ) (fin : Bool) (k0 k1 k2 k3 : ℕ)
    (rest : List ℕ) (key : old.mask_key ≡ m0 ∷ m1 ∷ m2 ∷ m3 ∷ []) (small : opcode < 16) where
  abbrev ReadsBack : Type 0
  ReadsBack =
      scan_websocket_frame old (client_header fin opcode n k0 k1 k2 k3 rest)
      ≡ some (record {
        flags = if fin then 3 else wsf_masked;
        opcode = opcode;
        header_size = client_header_size n;
        mask_key = k0 ∷ k1 ∷ k2 ∷ k3 ∷ [];
        payload_length = pos n;
      })

  short_form : n < 126 → ReadsBack
  unfolding scan_websocket_frame scan_rest fill_frame client_header read_length read_mask
  short_form h = ground (
    arith,
    first_byte-opcode fin opcode small,
    first_byte-fin fin opcode small,
    masked_byte-length n,
    masked_byte-mask n,
  )

  medium_form : 126 ≤ n → n < 65536 → ReadsBack
  unfolding scan_websocket_frame scan_rest fill_frame client_header read_mask
  medium_form lo hi = ground (
    arith,
    first_byte-opcode fin opcode small,
    first_byte-fin fin opcode small,
    read_two n (k0 ∷ k1 ∷ k2 ∷ k3 ∷ rest) hi,
  )

  long_form : 65536 ≤ n → n < 2 ^ 31 → ReadsBack
  unfolding scan_websocket_frame scan_rest fill_frame client_header read_mask
  long_form lo hi = ground (
    arith,
    first_byte-opcode fin opcode small,
    first_byte-fin fin opcode small,
    read_eight n (k0 ∷ k1 ∷ k2 ∷ k3 ∷ rest) hi,
  )

-- For an opcode of four bits, a payload length below 2 ^ 31 and a frame record whose mask key has
-- four bytes, scanning a client's header, whatever follows it, succeeds and yields the FIN flag
-- beside MASKED, the opcode, the payload length, the header's size and the four mask bytes in order.
pub scan-client_header :
    (old : Frame) (m0 m1 m2 m3 : ℕ) (opcode n : ℕ) (fin : Bool) (k0 k1 k2 k3 : ℕ) (rest : List ℕ)
    → old.mask_key ≡ m0 ∷ m1 ∷ m2 ∷ m3 ∷ []
    → opcode < 16
    → n < 2 ^ 31
    → scan_websocket_frame old (client_header fin opcode n k0 k1 k2 k3 rest)
      ≡ some (record {
        flags = if fin then 3 else wsf_masked;
        opcode = opcode;
        header_size = client_header_size n;
        mask_key = k0 ∷ k1 ∷ k2 ∷ k3 ∷ [];
        payload_length = pos n;
      })
scan-client_header old m0 m1 m2 m3 opcode n fin k0 k1 k2 k3 rest key ho hn =
    elim (Bool-cases (ltb n 126)) [
      | inl a ↦ short_form old m0 m1 m2 m3 opcode n fin k0 k1 k2 k3 rest key ho (ltb→lt n 126 a)
      | inr a ↦ elim (Bool-cases (ltb n 65536)) [
        | inl b ↦
            medium_form old m0 m1 m2 m3 opcode n fin k0 k1 k2 k3 rest key ho (ground arith)
              (ltb→lt n 65536 b)
        | inr b ↦ long_form old m0 m1 m2 m3 opcode n fin k0 k1 k2 k3 rest key ho (ground arith) hn
      ]
    ]
