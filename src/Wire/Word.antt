-- ===== src/Wire/Word.antt =====
-- The little-endian words of src/raspike_protocol_com.h, lines 68 to 91. A pointer is the list
-- of bytes from it on. The writers give the bytes that they store.
pub mod Round
use libraspike_art.Base.{ℕ, ◌*◌, ◌/◌, ◌%◌, ◌^◌, ◌<◌, bit_and, bit_or, List, [], ◌∷◌, get_or}

-- The casts to the unsigned types.
abbrev pub u8 : ℕ → ℕ
u8 n = n % 2 ^ 8

abbrev pub u16 : ℕ → ℕ
u16 n = n % 2 ^ 16

abbrev pub u32 : ℕ → ℕ
u32 n = n % 2 ^ 32

abbrev pub u64 : ℕ → ℕ
u64 n = n % 2 ^ 64

-- `p[i]`
abbrev pub byte : List ℕ → ℕ → ℕ
byte p i = get_or p i 0

unfoldable pub get_u16 : List ℕ → ℕ
get_u16 p = bit_or (byte p 0) (byte p 1 * 2 ^ 8)

unfoldable pub get_u32 : List ℕ → ℕ
get_u32 p =
    bit_or (bit_or (bit_or (byte p 0) (byte p 1 * 2 ^ 8)) (byte p 2 * 2 ^ 16)) (byte p 3 * 2 ^ 24)

unfoldable pub put_u16 : ℕ → List ℕ
put_u16 value = u8 (bit_and value 0xff) ∷ u8 (bit_and (value / 2 ^ 8) 0xff) ∷ []

unfoldable pub put_u32 : ℕ → List ℕ
put_u32 value =
    u8 (bit_and value 0xff)
    ∷ u8 (bit_and (value / 2 ^ 8) 0xff)
    ∷ u8 (bit_and (value / 2 ^ 16) 0xff)
    ∷ u8 (bit_and (value / 2 ^ 24) 0xff)
    ∷ []
