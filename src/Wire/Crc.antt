-- ===== src/Wire/Crc.antt =====
-- `rp_v2_crc16`, src/raspike_protocol_com.h, lines 93 to 104.
pub mod Detects
pub mod Serial
mod Tests
use libraspike_art.Base.{
  ℕ, zero, suc, ◌*◌, ◌%◌, ◌^◌, bit_and, bit_xor, List, [], ◌∷◌, ◌==◌, if◌then◌else◌,
}
use libraspike_art.Wire.Word.{u16}

-- One round of the inner loop.
pub crc_bit : ℕ → ℕ
crc_bit crc =
    if bit_and crc 0x8000 == 0 then u16 (crc * 2 ^ 1) else u16 (bit_xor (crc * 2 ^ 1) 0x1021)

-- The inner loop, with `n` rounds to go.
pub crc_bits : ℕ → ℕ → ℕ
unfolding crc_bit
crc_bits zero crc = crc
crc_bits (suc n) crc = crc_bits n (crc_bit crc)

-- The body of the outer loop.
pub crc_byte : ℕ → ℕ → ℕ
unfolding crc_bits
crc_byte crc b = crc_bits 8 (u16 (bit_xor crc (b * 2 ^ 8)))

pub crc_loop : ℕ → List ℕ → ℕ
unfolding crc_byte
crc_loop crc [] = crc
crc_loop crc (b ∷ bs) = crc_loop (crc_byte crc b) bs

unfoldable pub crc16 : List ℕ → ℕ
unfolding crc_loop
crc16 bytes = crc_loop 0xffff bytes
