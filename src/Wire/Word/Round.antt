-- ===== src/Wire/Word/Round.antt =====
-- Reading back the words that src/raspike_protocol_com.h writes, lines 68 to 91.
use libraspike_art.Base.{
  ℕ, ◌+◌, ◌*◌, ◌/◌, ◌%◌, ◌^◌, ◌<◌, bit_and, bit_and_mask, bit_or_disjoint, ◌≡◌, ap, ◌∙◌, List, [],
  ◌∷◌, ◌++◌, arith,
}
use libraspike_art.Wire.Word.{u8, get_u16, get_u32, put_u16, put_u32}

-- `p` is a list of bytes.
abbrev pub IsBytes : List ℕ → Type 0
IsBytes [] = Unit {0}
IsBytes (b ∷ p) = (b < 256) × IsBytes p

low_byte : (v : ℕ) → u8 (bit_and v 0xff) ≡ v % 256
low_byte v =
    let e : v ≡ v / 256 * 256 + v % 256 = omega arith in
    omega (arith, ap (λ t. bit_and t 0xff) e ∙ bit_and_mask 8 (v / 256) (v % 256) (omega arith))

pub put_u16_bytes : (v : ℕ) → v < 2 ^ 16 → put_u16 v ≡ v % 256 ∷ v / 256 ∷ []
unfolding put_u16
put_u16_bytes v h =
    let high : v / 256 % 256 ≡ v / 256 = omega arith in rw (low_byte v, low_byte (v / 256), high)

pub put_u32_bytes :
    (v : ℕ) → v < 2 ^ 32 → put_u32 v ≡ v % 256 ∷ v / 256 % 256 ∷ v / 65536 % 256 ∷ v / 16777216 ∷ []
unfolding put_u32
put_u32_bytes v h =
    let high : v / 16777216 % 256 ≡ v / 16777216 = omega arith in
    rw (low_byte v, low_byte (v / 256), low_byte (v / 65536), low_byte (v / 16777216), high)

pub get_u16_sum : (a b : ℕ) (p : List ℕ) → a < 256 → b < 256 → get_u16 (a ∷ b ∷ p) ≡ a + b * 256
unfolding get_u16
get_u16_sum a b p ha hb = bit_or_disjoint 8 a b ha

pub get_u32_sum :
    (a b c d : ℕ) (p : List ℕ)
    → a < 256
    → b < 256
    → c < 256
    → d < 256
    → get_u32 (a ∷ b ∷ c ∷ d ∷ p) ≡ a + b * 256 + c * 65536 + d * 16777216
unfolding get_u32
get_u32_sum a b c d p ha hb hc hd = rw (
  bit_or_disjoint 8 a b ha,
  bit_or_disjoint 16 (a + b * 256) c (omega arith),
  bit_or_disjoint 24 (a + b * 256 + c * 65536) d (omega arith),
)

-- A 16-bit word that is stored is read back, whatever follows it.
pub get_u16-put_u16 : (v : ℕ) (p : List ℕ) → v < 2 ^ 16 → get_u16 (put_u16 v ++ p) ≡ v
get_u16-put_u16 v p h =
    rw (put_u16_bytes v h, get_u16_sum (v % 256) (v / 256) p (omega arith) (omega arith))
      (omega arith)

-- A 32-bit word that is stored is read back, whatever follows it.
pub get_u32-put_u32 : (v : ℕ) (p : List ℕ) → v < 2 ^ 32 → get_u32 (put_u32 v ++ p) ≡ v
get_u32-put_u32 v p h =
    rw
      (
        put_u32_bytes v h,
        get_u32_sum (v % 256) (v / 256 % 256) (v / 65536 % 256) (v / 16777216) p (omega arith)
            (omega arith) (omega arith) (omega arith),
      )
      (omega arith)
