-- ===== src/Mumux/Frame/Partial.antt =====
-- A header that arrives in pieces: `wby_scan_websocket_frame` waits for all of it, and its answer
-- does not change when more bytes follow.
use mavicona.Base.{
  ℕ, zero, suc, ◌+◌, ◌*◌, ◌^◌, ◌≤◌, ◌<◌, ◌≡◌, refl, ap, Bool, none, some, List, [], ◌∷◌, ◌++◌,
  arith, bit_and, bit_or, u8, u32, ◌==◌, if◌then◌else◌, length, length-append, inl, inr,
  Option-cases, append-nil, set,
}
use mavicona.Mumux.Frame.{
  Frame, fill_frame, len_bytes, mask_bytes, make_websocket_header, read_length, read_mask,
  scan_rest, scan_websocket_frame,
}
use mavicona.Mumux.Frame.RoundTrip.{scan-make}

-- Where the bytes are there, the length loop takes exactly `n` of them and leaves the rest.
read_length-append :
    (n len : ℕ) (xs ys : List ℕ)
    → n ≤ length xs
    → ((read_length n len (xs ++ ys)).0 ≡ (read_length n len xs).0)
      × ((read_length n len (xs ++ ys)).1 ≡ (read_length n len xs).1 ++ ys)
      × (length (read_length n len xs).1 + n ≡ length xs)
unfolding read_length
read_length-append zero len xs ys h = (refl, refl, omega arith)
read_length-append (suc n) len [] ys h = absurd (omega arith)
read_length-append (suc n) len (b ∷ xs) ys h =
    let ih = read_length-append n (bit_or (u32 (len * 2 ^ 8)) b) xs ys (omega arith) in
    (ih.0, ih.1, omega arith)

read_mask-append :
    (n i : ℕ) (key xs ys : List ℕ)
    → n ≤ length xs
    → read_mask n i key (xs ++ ys) ≡ read_mask n i key xs
unfolding read_mask
read_mask-append zero i key xs ys h = refl
read_mask-append (suc n) i key [] ys h = absurd (omega arith)
read_mask-append (suc n) i key (b ∷ xs) ys h =
    read_mask-append n (i + 1) (set key i b) xs ys (omega arith)

fill_frame-append :
    (old : Frame) (h0 h1 n m : ℕ) (xs ys : List ℕ)
    → n + m ≤ length xs
    → fill_frame old h0 h1 n m (xs ++ ys) ≡ fill_frame old h0 h1 n m xs
unfolding fill_frame
fill_frame-append old h0 h1 n m xs ys h =
    let start : ℕ = if n == 0 then bit_and h1 0x7f else 0 in
    let parts = read_length-append n start xs ys (omega arith) in
    let mask =
      read_mask-append m 0 old.mask_key (read_length n start xs).1 ys (omega (arith, parts.2)) in
    cc (parts.0, parts.1, mask)

fill_frame-size :
    (old : Frame) (h0 h1 n m : ℕ) (xs : List ℕ)
    → (fill_frame old h0 h1 n m xs).header_size ≡ u8 (2 + n + m)
unfolding fill_frame
fill_frame-size old h0 h1 n m xs = refl

scan_rest-append :
    (old : Frame) (h0 h1 : ℕ) (xs ys : List ℕ) (f : Frame)
    → scan_rest old h0 h1 xs ≡ some f
    → (scan_rest old h0 h1 (xs ++ ys) ≡ some f) × (f.header_size ≤ suc (suc (length xs)))
unfolding scan_rest
scan_rest-append old h0 h1 xs ys f e = ground (
  arith,
  length-append xs ys,
  fill_frame-append old h0 h1 (len_bytes (bit_and h1 0x7f)) (mask_bytes h1) xs ys,
  fill_frame-size old h0 h1 (len_bytes (bit_and h1 0x7f)) (mask_bytes h1) xs,
)

-- A header that scans to a frame scans to that frame whatever follows it, and the frame's header
-- size is at most the number of bytes that were there.
pub scan-append :
    (old : Frame) (buf more : List ℕ) (f : Frame)
    → scan_websocket_frame old buf ≡ some f
    → (scan_websocket_frame old (buf ++ more) ≡ some f) × (f.header_size ≤ length buf)
unfolding scan_websocket_frame
scan-append old [] more f e = cc
scan-append old (h0 ∷ []) more f e = cc
scan-append old (h0 ∷ h1 ∷ xs) more f e = scan_rest-append old h0 h1 xs more f e

-- On every proper prefix of a header that `wby_make_websocket_header` wrote, for an opcode of four
-- bits and a payload length that is an `int`, the scan asks for more bytes.
pub scan-make_prefix :
    (old : Frame) (opcode n : ℕ) (fin : Bool) (front : List ℕ) (b : ℕ) (back : List ℕ)
    → opcode < 16
    → n < 2 ^ 31
    → make_websocket_header opcode n fin ≡ front ++ (b ∷ back)
    → scan_websocket_frame old front ≡ none
scan-make_prefix old opcode n fin front b back ho hn e =
    elim (Option-cases (scan_websocket_frame old front)) [
      | inl waits ↦ waits
      | inr (f, early) ↦ absurd (
          omega (
            arith,
            (scan-append old front (b ∷ back) f early).1,
            size f (scan-append old front (b ∷ back) f early).0,
            ap length e,
            length-append front (b ∷ back),
          ))
    ]
  where
    size :
        (f : Frame)
        → scan_websocket_frame old (front ++ (b ∷ back)) ≡ some f
        → f.header_size ≡ length (make_websocket_header opcode n fin)
    size f h = ground (arith, scan-make old opcode n fin [] ho hn, append-nil (front ++ (b ∷ back)))
