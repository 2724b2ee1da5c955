-- ===== src/Wire/Crc/Detects.antt =====
-- `rp_v2_crc16` of src/raspike_protocol_com.h on two frames that differ in one byte.
use libraspike_art.Base.{
  ℕ, zero, suc, ◌+◌, ◌-◌, ◌*◌, ◌/◌, ◌%◌, ◌^◌, ◌<◌, bit_and, bit_xor, bit_and_bit, bit_xor_low,
  bit_xor_step, bit_xor-lt, bit_xor_cancel, bit_xor_comm, ◌⊎◌, ◌≢◌, ◌≡◌, ap, ◌∙◌, sym, List, [],
  ◌∷◌, ◌++◌, Bool-cases, ltb, inl, inr, arith,
}
use Prim.Native.Nat.{differ}
use libraspike_art.Wire.Word.Round.{IsBytes}
use libraspike_art.Wire.Crc.{crc_bit, crc_bits, crc_byte, crc_loop, crc16}

top_bit : (c : ℕ) → bit_and c 0x8000 ≡ c / 2 ^ 15 % 2 * 2 ^ 15
top_bit c =
    let e : c ≡ (c / 2 ^ 15 / 2 * 2 + c / 2 ^ 15 % 2) * 2 ^ 15 + c % 2 ^ 15 = omega arith in
    ap (λ t. bit_and t 0x8000) e
    ∙ bit_and_bit 15 (c / 2 ^ 15 / 2) (c / 2 ^ 15 % 2) (c % 2 ^ 15) (omega arith) (omega arith)

-- Without the top bit a round doubles; with it, the doubled rest is combined with the polynomial.
pub crc_bit_low : (c : ℕ) → c < 2 ^ 15 → crc_bit c ≡ c * 2
unfolding crc_bit
crc_bit_low c h = ground (arith, top_bit c)

pub crc_bit_high : (c : ℕ) → c < 2 ^ 15 → crc_bit (2 ^ 15 + c) ≡ bit_xor (c * 2) 0x1021
unfolding crc_bit
crc_bit_high c h = ground (
  arith,
  top_bit (2 ^ 15 + c),
  bit_xor_low 16 1 (c * 2) 0x1021 (omega arith) (omega arith),
  bit_xor-lt 16 (c * 2) 0x1021 (omega arith) (omega arith),
  (let e : (2 ^ 15 + c) * 2 ≡ 1 * 2 ^ 16 + c * 2 = omega arith in ap (λ t. bit_xor t 0x1021) e),
)

crc_bit_odd : (c : ℕ) → bit_xor (c * 2) 0x1021 % 2 ≡ 1
crc_bit_odd c =
    let even : c * 2 % 2 ≡ 0 = omega arith in
    omega (arith, bit_xor_step (c * 2) 0x1021, ap (λ t. differ t 1) even)

crc_bit-lt : (c : ℕ) → c < 2 ^ 16 → crc_bit c < 2 ^ 16
unfolding crc_bit
crc_bit-lt c h = ground arith

-- A word is below the top bit or has it.
pub split_top : (c : ℕ) → c < 2 ^ 16 → (c < 2 ^ 15) ⊎ ((r : ℕ) × (r < 2 ^ 15) × (c ≡ 2 ^ 15 + r))
split_top c h = elim (Bool-cases (ltb c (2 ^ 15))) [
  | inl small ↦ inl (ground arith)
  | inr large ↦ inr (c - 2 ^ 15, ground arith, ground arith)
]

xor_injective : (a b s : ℕ) → bit_xor a s ≡ bit_xor b s → a ≡ b
xor_injective a b s e = sym (bit_xor_cancel a s) ∙ ap (λ t. bit_xor t s) e ∙ bit_xor_cancel b s

crc_bit_injective : (a b : ℕ) → a < 2 ^ 16 → b < 2 ^ 16 → crc_bit a ≡ crc_bit b → a ≡ b
crc_bit_injective a b ha hb e = elim (split_top a ha) [
  | inl la ↦ elim (split_top b hb) [
    | inl lb ↦ omega (arith, crc_bit_low a la, crc_bit_low b lb)
    | inr (r, lr, eb) ↦
        absurd (omega (arith, crc_bit_low a la, ap crc_bit eb, crc_bit_high r lr, crc_bit_odd r))
  ]
  | inr (q, lq, ea) ↦ elim (split_top b hb) [
    | inl lb ↦
        absurd (omega (arith, crc_bit_low b lb, ap crc_bit ea, crc_bit_high q lq, crc_bit_odd q))
    | inr (r, lr, eb) ↦
        let same : q * 2 ≡ r * 2 =
          xor_injective (q * 2) (r * 2) 0x1021
            (omega (arith, ap crc_bit ea, ap crc_bit eb, crc_bit_high q lq, crc_bit_high r lr)) in
        omega arith
  ]
]

crc_bits-lt : (n c : ℕ) → c < 2 ^ 16 → crc_bits n c < 2 ^ 16
unfolding crc_bits
crc_bits-lt zero c h = h
crc_bits-lt (suc n) c h = crc_bits-lt n (crc_bit c) (crc_bit-lt c h)

crc_bits_injective : (n a b : ℕ) → a < 2 ^ 16 → b < 2 ^ 16 → crc_bits n a ≡ crc_bits n b → a ≡ b
crc_bits_injective zero a b ha hb e = unfold crc_bits in e
crc_bits_injective (suc n) a b ha hb e = crc_bit_injective a b ha hb (
    crc_bits_injective n (crc_bit a) (crc_bit b) (crc_bit-lt a ha) (crc_bit-lt b hb)
      (unfold crc_bits in e))

byte_in : (c d : ℕ) → c < 2 ^ 16 → d < 256 → bit_xor c (d * 2 ^ 8) < 2 ^ 16
byte_in c d hc hd = bit_xor-lt 16 c (d * 2 ^ 8) hc (omega arith)

pub crc_byte-lt : (c d : ℕ) → c < 2 ^ 16 → d < 256 → crc_byte c d < 2 ^ 16
crc_byte-lt c d hc hd = unfold crc_byte in crc_bits-lt 8 _ (omega arith)

-- A byte can be told from the sum before and the sum after it, and so can the sum before.
crc_byte_injective :
    (a b d e : ℕ)
    → a < 2 ^ 16
    → b < 2 ^ 16
    → d < 256
    → e < 256
    → crc_byte a d ≡ crc_byte b e
    → bit_xor a (d * 2 ^ 8) ≡ bit_xor b (e * 2 ^ 8)
unfolding crc_byte
crc_byte_injective a b d e ha hb hd he eq = omega (
  arith,
  byte_in a d ha hd,
  byte_in b e hb he,
  crc_bits_injective 8 (bit_xor a (d * 2 ^ 8) % 2 ^ 16) (bit_xor b (e * 2 ^ 8) % 2 ^ 16)
      (omega arith) (omega arith) eq,
)

crc_loop_injective :
    (a b : ℕ) (p : List ℕ)
    → a < 2 ^ 16
    → b < 2 ^ 16
    → IsBytes p
    → crc_loop a p ≡ crc_loop b p
    → a ≡ b
crc_loop_injective a b [] ha hb h e = unfold crc_loop in e
crc_loop_injective a b (d ∷ p) ha hb h e = xor_injective a b (d * 2 ^ 8) (
    crc_byte_injective a b d d ha hb h.0 h.0 (
      crc_loop_injective (crc_byte a d) (crc_byte b d) p (crc_byte-lt a d ha h.0)
        (crc_byte-lt b d hb h.0) h.1 (unfold crc_loop in e)))

pub crc_loop-lt : (c : ℕ) (p : List ℕ) → c < 2 ^ 16 → IsBytes p → crc_loop c p < 2 ^ 16
unfolding crc_loop
crc_loop-lt c [] hc h = hc
crc_loop-lt c (d ∷ p) hc h = crc_loop-lt (crc_byte c d) p (crc_byte-lt c d hc h.0) h.1

crc_loop_detects :
    (c : ℕ) (xs ys : List ℕ) (d e : ℕ)
    → c < 2 ^ 16
    → IsBytes xs
    → IsBytes ys
    → d < 256
    → e < 256
    → crc_loop c (xs ++ (d ∷ ys)) ≡ crc_loop c (xs ++ (e ∷ ys))
    → d ≡ e
crc_loop_detects c [] ys d e hc hx hy hd he eq =
    let sums =
      crc_loop_injective (crc_byte c d) (crc_byte c e) ys (crc_byte-lt c d hc hd)
        (crc_byte-lt c e hc he) hy (unfold crc_loop in eq) in
    let mixed = crc_byte_injective c c d e hc hc hd he sums in
    let bytes =
      xor_injective (d * 2 ^ 8) (e * 2 ^ 8) c
        (bit_xor_comm (d * 2 ^ 8) c ∙ mixed ∙ bit_xor_comm c (e * 2 ^ 8)) in
    omega (arith, bytes)
crc_loop_detects c (x ∷ xs) ys d e hc hx hy hd he eq =
    crc_loop_detects (crc_byte c x) xs ys d e (crc_byte-lt c x hc hx.0) hx.1 hy hd he
      (unfold crc_loop in eq)

-- The check sum of a list of bytes is a 16-bit word.
pub crc16-lt : (p : List ℕ) → IsBytes p → crc16 p < 2 ^ 16
unfolding crc16
crc16-lt p h = crc_loop-lt 0xffff p (omega arith) h

-- Two lists of bytes that differ in exactly one byte have different check sums.
pub crc16_detects :
    (xs ys : List ℕ) (d e : ℕ)
    → IsBytes xs
    → IsBytes ys
    → d < 256
    → e < 256
    → d ≢ e
    → crc16 (xs ++ (d ∷ ys)) ≢ crc16 (xs ++ (e ∷ ys))
unfolding crc16
crc16_detects xs ys d e hx hy hd he ne eq =
    ne (crc_loop_detects 0xffff xs ys d e (omega arith) hx hy hd he eq)
