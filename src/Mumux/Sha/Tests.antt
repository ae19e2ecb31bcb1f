-- ===== src/Mumux/Sha/Tests.antt =====
-- SHA-1 at the test vectors of FIPS 180.
use mavicona.Base.{ℕ, ◌≡◌, refl, List, [], ◌∷◌, replicate, arith}
use mavicona.Mumux.Sha.Absorb.{digest}
use mavicona.Mumux.Sha.Final.{update_all, final-update_all}
use mavicona.Mumux.Sha.{
  Sha1, sha1_init, sha1_update, sha1_final, finish, pad_loop, count_bits, update_loop, update_step,
}
use mavicona.Mumux.Sha.Block.{hash_block}

abbrev unset : Sha1
unset = record {
  state = record { a = 0; b = 0; c = 0; d = 0; e = 0 };
  msg_size_hi = 0;
  msg_size_lo = 0;
  buf_used = 0;
  buffer = replicate 64 0;
}

abbrev abc_digest : List ℕ
abc_digest =
    0xa9 ∷ 0x99 ∷ 0x3e ∷ 0x36 ∷ 0x47 ∷ 0x06 ∷ 0x81 ∷ 0x6a ∷ 0xba ∷ 0x3e ∷ 0x25 ∷ 0x71 ∷ 0x78 ∷ 0x50
    ∷ 0xc2 ∷ 0x6c ∷ 0x9c ∷ 0xd0 ∷ 0xd8 ∷ 0x9d ∷ []

sha1_abc : sha1_final (sha1_update (sha1_init unset) (b'a' ∷ b'b' ∷ b'c' ∷ [])) ≡ abc_digest
unfolding sha1_init sha1_update sha1_final finish pad_loop count_bits update_loop update_step
    hash_block
sha1_abc = refl

final-update_all_example :
    sha1_final (update_all (sha1_init unset) ((b'a' ∷ b'b' ∷ []) ∷ (b'c' ∷ []) ∷ []))
    ≡ digest (b'a' ∷ b'b' ∷ b'c' ∷ [])
final-update_all_example =
    final-update_all unset ((b'a' ∷ b'b' ∷ []) ∷ (b'c' ∷ []) ∷ []) refl (omega arith) (omega arith)
