-- ===== src/Mumux/Read/Mask.antt =====
-- The mask of a frame's payload.
use mavicona.Base.{
  ℕ, zero, suc, ◌+◌, ◌%◌, ◌≡◌, ◌≢◌, ◌∙◌, ◌⊎◌, inl, inr, Bool, true, false, ◌&&◌, ◌==◌, ==_iff,
  Bool-cases, some, get_elem?, bit_xor, refl, ap, List, [], ◌∷◌, ◌++◌, bit_and, arith, length,
  get_or,
}
use mavicona.Base.Bits.{bit_and_ones}
use mavicona.Base.Xor.{bit_xor_twice}
use mavicona.Mumux.Socket.{Network}
use mavicona.Mumux.Connection.{Connection}
use mavicona.Mumux.Read.{unmask, is_masked, shown}

-- Unmasking piece by piece, each at the position where the last one ended, is unmasking at once.
pub unmask-append :
    (key : List ℕ) (i : ℕ) (xs ys : List ℕ)
    → unmask key i (xs ++ ys) ≡ unmask key i xs ++ unmask key (i + length xs) ys
unfolding unmask
unmask-append key i [] ys = ap (λ t. unmask key t ys) (omega arith)
unmask-append key i (x ∷ xs) ys =
    let same : i + 1 + length xs ≡ i + suc (length xs) = omega arith in
    rw (unmask-append key (i + 1) xs ys, same)

-- The mask undoes itself: a peer masks with the same function.
pub unmask-unmask :
    (key : List ℕ) (i : ℕ) (bytes : List ℕ) → unmask key i (unmask key i bytes) ≡ bytes
unfolding unmask
unmask-unmask key i [] = refl
unmask-unmask key i (b ∷ bytes) =
    rw (bit_xor_twice b (get_or key (bit_and i 3) 0), unmask-unmask key (i + 1) bytes)

pub length-unmask :
    (key : List ℕ) (i : ℕ) (bytes : List ℕ) → length (unmask key i bytes) ≡ length bytes
unfolding unmask
length-unmask key i [] = refl
length-unmask key i (b ∷ bytes) = omega (arith, length-unmask key (i + 1) bytes)

-- A WebSocket whose frame has WBY_WSF_MASKED, the second bit, among its flags.
abbrev pub HasMask : {S : Type 0} → Connection S → Type 0
HasMask conn = (conn.flags.websocket ≡ true) × (bit_and conn.ws_frame.flags 2 ≢ 0)

-- What a read that began at `body_bytes_read` shows of the bytes that it took.
pub record Shown {S : Type 0} (conn : Connection S) (ok : Bool) (raw bytes : List ℕ) : Type 0 where
  pub same_length : length bytes ≡ length raw
  pub undone :
      ok ≡ true
      → HasMask conn
      → (i b : ℕ) → get_elem? raw i ≡ some b
      → get_elem? bytes i
        ≡ some (bit_xor b (get_or conn.ws_frame.mask_key ((conn.body_bytes_read + i) % 4) 0))
  pub as_is :
      (ok ≡ false) ⊎ ((conn.flags.websocket ≡ false) ⊎ (bit_and conn.ws_frame.flags 2 ≡ 0))
      → bytes ≡ raw

bit_and_3 : (i : ℕ) → bit_and i 3 ≡ i % 4
bit_and_3 i = bit_and_ones 2 i

unmask-get_elem? :
    (key raw : List ℕ) (start i b : ℕ)
    → get_elem? raw i ≡ some b
    → get_elem? (unmask key start raw) i ≡ some (bit_xor b (get_or key ((start + i) % 4) 0))
unfolding unmask
unmask-get_elem? key [] start i b e = absurd (cc e)
unmask-get_elem? key (x ∷ raw) start zero b e =
    let here : x ≡ b = cc e in
    let at : bit_and start 3 ≡ (start + 0) % 4 = bit_and_3 start ∙ omega arith in rw (at, here) refl
unmask-get_elem? key (x ∷ raw) start (suc i) b e =
    let at : start + 1 + i ≡ start + suc i = omega arith in
    rw at at (unmask-get_elem? key raw (start + 1) i b e)

module _ (N : Network) (conn : Connection N.Sock) where
  HasMask-is_masked : HasMask conn → is_masked N conn ≡ true
  HasMask-is_masked (ws, bit) = elim (Bool-cases (bit_and conn.ws_frame.flags 2 == 0)) [
    | inl e ↦ absurd (bit ((==_iff _ 0).0 e))
    | inr e ↦ rw (ws, e) refl
  ]

  pub shown-Shown :
      (ok : Bool) (raw : List ℕ) → Shown conn ok raw (shown N conn ok conn.body_bytes_read raw)
  shown-Shown ok raw = record {
    same_length = elim (Bool-cases (ok && is_masked N conn)) [
      | inl e ↦ rw e (length-unmask conn.ws_frame.mask_key conn.body_bytes_read raw)
      | inr e ↦ rw e refl
    ];
    undone = λ good mask i b e.
        rw (good, HasMask-is_masked mask)
          (unmask-get_elem? conn.ws_frame.mask_key raw conn.body_bytes_read i b e);
    as_is = λ why. elim why [
      | inl bad ↦ rw bad refl
      | inr (inl e) ↦ elim (Bool-cases ok) [ inl good ↦ rw (good, e) refl | inr bad ↦ rw bad refl ]
      | inr (inr e) ↦ elim (Bool-cases ok) [
        | inr bad ↦ rw bad refl
        | inl good ↦ elim (Bool-cases conn.flags.websocket) [
          | inr plain ↦ rw (good, plain) refl
          | inl ws ↦ rw (good, ws, e) refl
        ]
      ]
    ];
  }
