-- ===== src/Wire/Crc/Tests.antt =====
-- `rp_v2_crc16` on the digits from 1 to 9.
use libraspike_art.Base.{[], ◌∷◌, ◌≡◌, refl}
use libraspike_art.Wire.Crc.{crc16, crc_loop, crc_byte, crc_bits, crc_bit}

crc16_check : crc16 (b'1' ∷ b'2' ∷ b'3' ∷ b'4' ∷ b'5' ∷ b'6' ∷ b'7' ∷ b'8' ∷ b'9' ∷ []) ≡ 0x29b1
unfolding crc16 crc_loop crc_byte crc_bits crc_bit
crc16_check = refl
