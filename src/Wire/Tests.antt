-- ===== src/Wire/Tests.antt =====
-- Concrete words, commands and check sums.
use libraspike_art.Base.{◌∷◌, [], ◌++◌, ◌≡◌, ◌≢◌, arith}
use libraspike_art.Wire.Crc.{crc16}
use libraspike_art.Wire.Crc.Detects.{crc16_detects}
use libraspike_art.Wire.Crc.Serial.{message, shift_all, crc16-shift_all}

crc16_detects_example : crc16 ((1 ∷ []) ++ (2 ∷ 3 ∷ [])) ≢ crc16 ((1 ∷ []) ++ (7 ∷ 3 ∷ []))
crc16_detects_example =
    crc16_detects (1 ∷ []) (3 ∷ []) 2 7 (omega arith, tt) (omega arith, tt) (omega arith)
      (omega arith) (λ e. absurd (omega arith))

crc16-shift_all_example : crc16 (0x31 ∷ 0x32 ∷ []) ≡ shift_all 0xffff (message (0x31 ∷ 0x32 ∷ []))
crc16-shift_all_example = crc16-shift_all (0x31 ∷ 0x32 ∷ []) (omega arith)
