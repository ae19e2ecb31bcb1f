-- ===== src/Mumux/Frame.antt =====
-- The header of a WebSocket frame: `wby_make_websocket_header` of mumux/util.c writes it, and
-- `wby_scan_websocket_frame` of mumux/request.c reads it.
pub mod Byte
pub mod RoundTrip
pub mod Partial
pub mod Masked
mod Tests
use mavicona.Base.{
  ℕ, zero, suc, ◌+◌, ◌^◌, Bool, not, Option, none, some, List, [], ◌∷◌, bit_and, bit_or, u8, u32,
  ◌<<◌, ◌>>◌, ltb, ◌==◌, if◌then◌else◌, length, set,
}
use mavicona.Base.Int.{ℤ, to_int}

-- `enum wby_websock_flags`
abbrev pub wsf_fin : ℕ
wsf_fin = 1

abbrev pub wsf_masked : ℕ
wsf_masked = 2

-- `struct wby_frame`, less its padding byte.
pub record Frame : Type 0 where
  pub flags : ℕ
  pub opcode : ℕ
  pub header_size : ℕ
  pub mask_key : List ℕ
  pub payload_length : ℤ

-- The bytes written to `buffer`; the size that the function returns is their number. The payload
-- length is an `int` that is not negative.
unfoldable pub make_websocket_header : ℕ → ℕ → Bool → List ℕ
make_websocket_header opcode payload_len fin =
    let first = u8 (bit_or (if fin then 0x80 else 0x00) opcode) in
    if ltb payload_len 126
    then first ∷ u8 (bit_and payload_len 0x7f) ∷ []
    else if ltb payload_len 65536
    then first ∷ 126 ∷ u8 (payload_len >> 8) ∷ u8 payload_len ∷ []
    else first
      ∷ 127
      ∷ 0
      ∷ 0
      ∷ 0
      ∷ 0
      ∷ u8 (payload_len >> 24)
      ∷ u8 (payload_len >> 16)
      ∷ u8 (payload_len >> 8)
      ∷ u8 payload_len
      ∷ []

-- The loop over the length bytes, with the `unsigned int` read so far; it returns the bytes that
-- follow too. The caller has checked that the bytes are there.
unfoldable pub read_length : ℕ → ℕ → List ℕ → ℕ × List ℕ
read_length zero len data_left = (len, data_left)
read_length (suc n) len [] = (len, [])
read_length (suc n) len (b ∷ data_left) = read_length n (bit_or (u32 (len << 8)) b) data_left

-- The loop that reads the mask word, at index `i` with `n` rounds left.
unfoldable pub read_mask : ℕ → ℕ → List ℕ → List ℕ → List ℕ
read_mask zero i key data_left = key
read_mask (suc n) i key [] = key
read_mask (suc n) i key (b ∷ data_left) = read_mask n (i + 1) (set key i b) data_left

abbrev pub bit_is_set : ℕ → ℕ → Bool
bit_is_set x bit = not (bit_and x bit == 0)

abbrev pub len_bytes : ℕ → ℕ
len_bytes len = if len == 126 then 2 else if len == 127 then 8 else 0

abbrev pub mask_bytes : ℕ → ℕ
mask_bytes header1 = if bit_is_set header1 0x80 then 4 else 0

-- The frame that is filled in once the `n` length bytes and the `m` mask bytes are known to be
-- there; `data_left` is the buffer behind the first two bytes.
unfoldable pub fill_frame : Frame → ℕ → ℕ → ℕ → ℕ → List ℕ → Frame
fill_frame frame header0 header1 n m data_left =
    let fin_flag : ℕ = if bit_is_set header0 0x80 then wsf_fin else 0 in
    let flags = if bit_is_set header1 0x80 then bit_or fin_flag wsf_masked else fin_flag in
    let start : ℕ = if n == 0 then bit_and header1 0x7f else 0 in
    let (len, behind) = read_length n start data_left in
    record {
      flags = flags;
      opcode = u8 (bit_and header0 0xf);
      header_size = u8 (2 + n + m);
      mask_key = read_mask m 0 frame.mask_key behind;
      payload_length = to_int len;
    }

unfoldable pub scan_rest : Frame → ℕ → ℕ → List ℕ → Option Frame
scan_rest frame header0 header1 data_left =
    let n = len_bytes (bit_and header1 0x7f) in
    let m = mask_bytes header1 in
    if ltb (length data_left) (n + m)
    then none
    else some (fill_frame frame header0 header1 n m data_left)

-- `none` is the -1 that asks for more bytes. The list is the used part of the buffer.
unfoldable pub scan_websocket_frame : Frame → List ℕ → Option Frame
scan_websocket_frame frame [] = none
scan_websocket_frame frame (header0 ∷ []) = none
scan_websocket_frame frame (header0 ∷ header1 ∷ data_left) =
    scan_rest frame header0 header1 data_left
