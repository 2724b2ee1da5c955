-- ===== src/Wire/Crc/Serial.antt =====
-- `rp_v2_crc16` of src/raspike_protocol_com.h against the shift register that defines the check sum:
-- CRC-16 with the polynomial x^16 + x^12 + x^5 + 1, one bit of the message at a time.
use libraspike_art.Base.{
  ℕ, zero, suc, ◌+◌, ◌*◌, ◌/◌, ◌%◌, ◌^◌, ◌<◌, bit_xor, bit_xor-lt, bit_xor_comm, bit_xor_assoc,
  bit_xor_double, bit_xor-zero, bit_xor_parts, ◌≡◌, refl, ap, ◌∙◌, sym, List, [], ◌∷◌, ◌++◌, ◌==◌,
  if◌then◌else◌, arith,
}
use libraspike_art.Wire.Word.Round.{IsBytes}
use libraspike_art.Wire.Crc.{crc_bit, crc_bits, crc_byte, crc_loop, crc16}
use libraspike_art.Wire.Crc.Detects.{crc_bit_low, crc_bit_high, crc_byte-lt}
use native.Mathlib.Nat.{
  pow-suc, one-le-pow, div-add-mod', mul-add-mod_self_right, mod-eq_of_lt, mod-lt, mod-one,
  mul-lt-mul_of_pos_right,
}

-- The lowest `n` bits of a number, the highest of them first.
abbrev pub bits : ℕ → ℕ → List ℕ
bits zero x = []
bits (suc n) x = x / 2 ^ n % 2 ∷ bits n x

-- The bits of a message in the order in which they enter the register.
abbrev pub message : List ℕ → List ℕ
message [] = []
message (b ∷ bs) = bits 8 b ++ message bs

-- One bit enters the register: the bit that is pushed out is added to it, and if their sum is odd
-- the polynomial is added to the register.
pub shift_in : ℕ → ℕ → ℕ
shift_in r b =
    if (r / 2 ^ 15 + b) % 2 == 0
    then r % 2 ^ 15 * 2
    else bit_xor (r % 2 ^ 15 * 2) (2 ^ 12 + 2 ^ 5 + 1)

pub shift_all : ℕ → List ℕ → ℕ
unfolding shift_in
shift_all r [] = r
shift_all r (b ∷ bs) = shift_all (shift_in r b) bs

shift_all-append : (r : ℕ) (xs ys : List ℕ) → shift_all r (xs ++ ys) ≡ shift_all (shift_all r xs) ys
unfolding shift_all
shift_all-append r [] ys = refl
shift_all-append r (x ∷ xs) ys = shift_all-append (shift_in r x) xs ys

shift_in-lt : (r b : ℕ) → shift_in r b < 2 ^ 16
unfolding shift_in
shift_in-lt r b = ground (arith, bit_xor-lt 16 (r % 2 ^ 15 * 2) 0x1021 (omega arith) (omega arith))

xor_swap : (a b c : ℕ) → bit_xor (bit_xor a b) c ≡ bit_xor (bit_xor a c) b
xor_swap a b c = bit_xor_assoc a b c ∙ ap (bit_xor a) (bit_xor_comm b c) ∙ sym (bit_xor_assoc a c b)

-- A round of the code's inner loop by the bit that it pushes out, if bits `v` are added below it.
round_low : (r v : ℕ) → r < 2 ^ 15 → v < 2 ^ 15 → crc_bit (bit_xor r v) ≡ bit_xor (r * 2) (v * 2)
round_low r v hr hv = crc_bit_low (bit_xor r v) (bit_xor-lt 15 r v hr hv) ∙ sym (bit_xor_double r v)

round_high :
    (r v : ℕ)
    → r < 2 ^ 15
    → v < 2 ^ 15
    → crc_bit (2 ^ 15 + bit_xor r v) ≡ bit_xor (bit_xor (r * 2) 0x1021) (v * 2)
round_high r v hr hv =
    crc_bit_high (bit_xor r v) (bit_xor-lt 15 r v hr hv)
    ∙ ap (λ t. bit_xor t 0x1021) (sym (bit_xor_double r v))
    ∙ xor_swap (r * 2) (v * 2) 0x1021

-- A round on a register to which the next bit `b`, and bits `v` below it, are added already.
crc_bit_step :
    (r b v : ℕ)
    → r < 2 ^ 16
    → b < 2
    → v < 2 ^ 15
    → crc_bit (bit_xor r (b * 2 ^ 15 + v)) ≡ bit_xor (shift_in r b) (v * 2)
unfolding shift_in
crc_bit_step r b v hr hb hv =
    let parts = bit_xor_parts 15 (r / 2 ^ 15) b (r % 2 ^ 15) v (omega arith) hv in
    let whole : r ≡ r / 2 ^ 15 * 2 ^ 15 + r % 2 ^ 15 = omega arith in
    ap (λ t. crc_bit (bit_xor t (b * 2 ^ 15 + v))) whole
    ∙ ap crc_bit parts
    ∙ by_bits (r / 2 ^ 15) b (omega arith) hb
  where
    rest : ℕ
    rest = r % 2 ^ 15

    by_bits :
        (a b : ℕ)
        → a < 2
        → b < 2
        → crc_bit (bit_xor a b * 2 ^ 15 + bit_xor rest v)
          ≡ bit_xor (if (a + b) % 2 == 0 then rest * 2 else bit_xor (rest * 2) 0x1021) (v * 2)
    by_bits zero zero ha hb =
        let e : 0 + bit_xor rest v ≡ bit_xor rest v = omega arith in
        ap crc_bit e ∙ round_low rest v (omega arith) hv
    by_bits zero (suc zero) ha hb = round_high rest v (omega arith) hv
    by_bits (suc zero) zero ha hb = round_high rest v (omega arith) hv
    by_bits (suc zero) (suc zero) ha hb =
        let e : 0 + bit_xor rest v ≡ bit_xor rest v = omega arith in
        ap crc_bit e ∙ round_low rest v (omega arith) hv
    by_bits zero (suc (suc b)) ha hb = absurd (omega arith)
    by_bits (suc zero) (suc (suc b)) ha hb = absurd (omega arith)
    by_bits (suc (suc a)) b ha hb = absurd (omega arith)

-- The last bit and the others of `x / p`, for a remainder by twice `p`.
mod_twice : (x p : ℕ) → 0 < p → x % (p * 2) ≡ x / p % 2 * p + x % p
mod_twice x p h =
    let q : ℕ = x / p / 2 in
    let rest : ℕ = x / p % 2 * p + x % p in
    let small : rest < p * 2 = grind (arith, mod-lt x h) in
    let whole : x ≡ q * (p * 2) + rest =
      omega (arith, div-add-mod' x p, ap (λ (t : ℕ). t * p) (div-add-mod' (x / p) 2)) in
    ap (λ t. t % (p * 2)) whole ∙ mul-add-mod_self_right q (p * 2) rest ∙ mod-eq_of_lt small

-- The inner loop with `n` rounds to go, `n` bits of the byte being added at the top.
crc_bits-shift_all :
    (n w x r : ℕ)
    → w * 2 ^ n ≡ 2 ^ 16
    → r < 2 ^ 16
    → crc_bits n (bit_xor r (x % 2 ^ n * w)) ≡ shift_all r (bits n x)
unfolding crc_bits shift_all
crc_bits-shift_all zero w x r hw hr =
    let e : x % 2 ^ 0 * w ≡ 0 = ap (λ (t : ℕ). t * w) (mod-one x) ∙ omega arith in
    ap (bit_xor r) e ∙ bit_xor-zero r
crc_bits-shift_all (suc n) w x r hw hr =
    let p : ℕ = 2 ^ n in
    let b : ℕ = x / 2 ^ n % 2 in
    let v : ℕ = x % 2 ^ n * w in
    let positive : 0 < 2 ^ n = one-le-pow n 2 (omega arith) in
    let half : w * 2 ^ n ≡ 2 ^ 15 = omega (arith, ap (λ (t : ℕ). w * t) (pow-suc 2 n)) in
    let twice : 2 ^ suc n ≡ 2 ^ n * 2 = omega (arith, pow-suc 2 n) in
    let added : x % 2 ^ suc n * w ≡ b * 2 ^ 15 + v =
      ap (λ t. x % t * w) twice
      ∙ ap (λ t. t * w) (mod_twice x (2 ^ n) positive)
      ∙ omega (arith, ap (λ (t : ℕ). b * t) half) in
    let weighted : 0 < w = grind arith in
    let small : v < 2 ^ 15 =
      omega (arith, mul-lt-mul_of_pos_right (mod-lt x positive) weighted, ap (λ (t : ℕ). t) half) in
    let moved : v * 2 ≡ x % 2 ^ n * (w * 2) = omega arith in
    ap (λ t. crc_bits n (crc_bit (bit_xor r t))) added
    ∙ ap (crc_bits n)
        (crc_bit_step r b v hr (omega arith) small ∙ ap (bit_xor (shift_in r b)) moved)
    ∙ crc_bits-shift_all n (w * 2) x (shift_in r b) (omega arith) (shift_in-lt r b)

crc_byte-shift_all : (r b : ℕ) → r < 2 ^ 16 → b < 256 → crc_byte r b ≡ shift_all r (bits 8 b)
unfolding crc_byte
crc_byte-shift_all r b hr hb =
    let whole : b % 2 ^ 8 ≡ b = omega arith in
    let fits : bit_xor r (b * 2 ^ 8) % 2 ^ 16 ≡ bit_xor r (b * 2 ^ 8) =
      omega (arith, bit_xor-lt 16 r (b * 2 ^ 8) hr (omega arith)) in
    ap (crc_bits 8) (fits ∙ ap (λ t. bit_xor r (t * 2 ^ 8)) (sym whole))
    ∙ crc_bits-shift_all 8 (2 ^ 8) b r refl hr

crc_loop-shift_all :
    (r : ℕ) (p : List ℕ) → r < 2 ^ 16 → IsBytes p → crc_loop r p ≡ shift_all r (message p)
unfolding crc_loop shift_all
crc_loop-shift_all r [] hr h = refl
crc_loop-shift_all r (b ∷ p) hr h =
    crc_loop-shift_all (crc_byte r b) p (crc_byte-lt r b hr h.0) h.1
    ∙ ap (λ t. shift_all t (message p)) (crc_byte-shift_all r b hr h.0)
    ∙ sym (shift_all-append r (bits 8 b) (message p))

-- The check sum of any bytes is what the shift register of CRC-16-CCITT holds after all bits of the
-- bytes, the highest of each byte first, if all its bits were set at the start.
pub crc16-shift_all : (p : List ℕ) → IsBytes p → crc16 p ≡ shift_all 0xffff (message p)
unfolding crc16
crc16-shift_all p h = crc_loop-shift_all 0xffff p (omega arith) h
