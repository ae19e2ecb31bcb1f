-- ===== src/Base/Stdio/Written.antt =====
-- What a file reads as after a write, and words after their bytes.
use mavicona.Base.{
  ℕ, ◌+◌, ◌^◌, ◌≤◌, ◌<◌, ◌≡◌, ◌⊎◌, inl, inr, refl, ap, List, [], ◌∷◌, arith, length, ltb,
  if◌then◌else◌,
}
use mavicona.Base.Stdio.{
  File, seek, slice, fread, fwrite, le, un_le, slice_agree, overwrite_outside, slice-overwrite,
}

-- What the file had outside of the bytes written is still there.
pub fwrite_outside :
    (bytes : List ℕ) (f : File) (q : ℕ)
    → q < f.size
    → (q < f.pos) ⊎ (f.pos + length bytes ≤ q)
    → (fwrite bytes f).at q ≡ f.at q
unfolding fwrite
fwrite_outside [] f q h out = refl
fwrite_outside (b ∷ bytes) f q h out =
    let step =
      overwrite_outside (λ q. if ltb q f.size then f.at q else 0) f.pos (b ∷ bytes) q out in
    rw step (ground arith)

pub slice_outside :
    (bytes : List ℕ) (f : File) (pos n : ℕ)
    → pos + n ≤ f.size
    → (pos + n ≤ f.pos) ⊎ (f.pos + length bytes ≤ pos)
    → slice (fwrite bytes f).at pos n ≡ slice f.at pos n
slice_outside bytes f pos n h (inl below) =
    slice_agree _ _ pos n (λ q a b. fwrite_outside bytes f q (omega arith) (inl (omega arith)))
slice_outside bytes f pos n h (inr above) =
    slice_agree _ _ pos n (λ q a b. fwrite_outside bytes f q (omega arith) (inr (omega arith)))

pub slice-fwrite :
    (bytes : List ℕ) (f : File) → slice (fwrite bytes f).at f.pos (length bytes) ≡ bytes
unfolding fwrite slice
slice-fwrite [] f = refl
slice-fwrite (b ∷ bytes) f =
    slice-overwrite (λ q. if ltb q f.size then f.at q else 0) f.pos (b ∷ bytes)

pub pos-fwrite : (bytes : List ℕ) (f : File) → (fwrite bytes f).pos ≡ f.pos + length bytes
unfolding fwrite
pos-fwrite [] f = omega arith
pos-fwrite (b ∷ bytes) f = refl

-- A write never shortens a file, and the bytes written are in it.
pub size-fwrite : (bytes : List ℕ) (f : File) → f.size ≤ (fwrite bytes f).size
unfolding fwrite
size-fwrite [] f = omega arith
size-fwrite (b ∷ bytes) f = omega arith

pub size-fwrite_end :
    (bytes : List ℕ) (f : File) → f.pos ≤ f.size → f.pos + length bytes ≤ (fwrite bytes f).size
unfolding fwrite
size-fwrite_end [] f h = omega arith
size-fwrite_end (b ∷ bytes) f h = omega arith

-- A write of some bytes reaches to their end, wherever it started.
pub size-fwrite_some :
    (b : ℕ) (bytes : List ℕ) (f : File) → f.pos + length (b ∷ bytes) ≤ (fwrite (b ∷ bytes) f).size
unfolding fwrite
size-fwrite_some b bytes f = omega arith

-- A read of bytes that are all there.
pub fread_all : (n : ℕ) (f : File) → f.pos + n ≤ f.size → (fread n f).0 ≡ slice f.at f.pos n
unfolding fread
fread_all n f h = ap (slice f.at f.pos) (omega arith)

pub pos-fread_all : (n : ℕ) (f : File) → f.pos + n ≤ f.size → (fread n f).1.pos ≡ f.pos + n
unfolding fread
pos-fread_all n f h = omega arith

pub un_le-le_2 : (n : ℕ) → n < 2 ^ 16 → un_le (le 2 n) ≡ n
unfolding un_le le
un_le-le_2 n h = omega arith

pub un_le-le_4 : (n : ℕ) → n < 2 ^ 32 → un_le (le 4 n) ≡ n
unfolding un_le le
un_le-le_4 n h = omega arith

-- A write inside a file does not change its size.
pub size-fwrite_inside :
    (bytes : List ℕ) (f : File) → f.pos + length bytes ≤ f.size → (fwrite bytes f).size ≡ f.size
unfolding fwrite
size-fwrite_inside [] f h = refl
size-fwrite_inside (b ∷ bytes) f h = omega arith

-- A write leaves the file at the end of what was written.
pub seek-fwrite :
    (bytes : List ℕ) (f : File) → fwrite bytes f ≡ seek (f.pos + length bytes) (fwrite bytes f)
unfolding fwrite
seek-fwrite [] f = let end : f.pos ≡ f.pos + 0 = omega arith in ap (λ n. seek n f) end
seek-fwrite (b ∷ bytes) f = refl
