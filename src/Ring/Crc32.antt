-- ===== src/Ring/Crc32.antt =====
-- hash/crc32.ChecksumIEEE: the reflected polynomial 0xedb88320, one bit at a time.
use Prim.Native.Nat.{bit_xor}
use newtbig.Prelude.{ℕ, ◌/◌, ◌%◌, ◌≡◌, refl, [], ◌∷◌, ◌==◌, nat_eq, if◌then◌else◌, Bytes, codes}

crc_bit : ℕ → ℕ
crc_bit c = if c % 2 == 1 then bit_xor (c / 2) 0xedb8_8320 else c / 2

crc_byte : ℕ → ℕ → ℕ
unfolding crc_bit
crc_byte c b =
    crc_bit (crc_bit (crc_bit (crc_bit (crc_bit (crc_bit (crc_bit (crc_bit (bit_xor c b))))))))

crc_bytes : ℕ → Bytes → ℕ
unfolding crc_byte
crc_bytes c [] = c
crc_bytes c (b ∷ bs) = crc_bytes (crc_byte c b) bs

unfoldable pub checksum_ieee : Bytes → ℕ
unfolding crc_bytes
checksum_ieee bs = bit_xor (crc_bytes 0xffff_ffff bs) 0xffff_ffff

-- The check value of the algorithm's catalogue entry.
checksum_check : checksum_ieee (codes "123456789") ≡ 0xcbf4_3926
unfolding checksum_ieee
checksum_check = refl
