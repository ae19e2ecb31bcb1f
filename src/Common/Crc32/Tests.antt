-- ===== src/Common/Crc32/Tests.antt =====
-- The checksum of "123456789".
use mavicona.Base.{◌-◌, ◌^◌, ◌≡◌, refl, arith}
use mavicona.Base.Text.{codes}
use mavicona.Common.Crc32.{crc32, crc_loop, crc_byte}
use mavicona.Common.Crc32.Bitwise.{remainder, crc32-remainder}

check_value : crc32 (codes "123456789") ≡ 0xcbf43926
unfolding crc32 crc_loop crc_byte
check_value = refl

crc32-remainder_example :
    crc32 (codes "123456789") ≡ 2 ^ 32 - 1 - remainder (2 ^ 32 - 1) (codes "123456789")
crc32-remainder_example = crc32-remainder (codes "123456789") (grind arith) (omega arith)
