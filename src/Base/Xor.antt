-- ===== src/Base/Xor.antt =====
-- More laws of C's `^`: it is associative, and works on two parts of a word apart.
use Prim.Native.Nat.{ℕ, zero, suc, ◌+◌, ◌*◌, ◌/◌, ◌%◌, ◌^◌, ◌≤◌, ◌<◌, differ, bit_xor}
use mathlib.Core.Path.{◌≡◌, refl, ap₂, ◌∙◌}
use native.Mathlib.Nat.{pow-suc}
use native.Mathlib.Omega.{arith}
use libraspike_art.Base.Bits.{bit_xor_step, differ-lt, halved, doubled, xor-zero_below}

-- Of three bits.
differ_assoc : (x y z : ℕ) → x < 2 → y < 2 → z < 2 → differ (differ x y) z ≡ differ x (differ y z)
differ_assoc zero y z p q r = refl
differ_assoc (suc zero) zero z p q r = refl
differ_assoc (suc zero) (suc zero) zero p q r = refl
differ_assoc (suc zero) (suc zero) (suc zero) p q r = refl
differ_assoc (suc zero) (suc zero) (suc (suc z)) p q r = absurd (omega arith)
differ_assoc (suc zero) (suc (suc y)) z p q r = absurd (omega arith)
differ_assoc (suc (suc x)) y z p q r = absurd (omega arith)

-- The halves and the last bit of `^`.
halves :
    (a b : ℕ)
    → (bit_xor a b / 2 ≡ bit_xor (a / 2) (b / 2)) × (bit_xor a b % 2 ≡ differ (a % 2) (b % 2))
halves a b =
    let small = differ-lt (a % 2) (b % 2) (omega arith) (omega arith) in
    (omega (arith, bit_xor_step a b), omega (arith, bit_xor_step a b))

xor_assoc_below : (n a b c : ℕ) → a + b + c ≤ n → bit_xor (bit_xor a b) c ≡ bit_xor a (bit_xor b c)
xor_assoc_below zero zero zero zero h = refl
xor_assoc_below zero zero zero (suc c) h = absurd (omega arith)
xor_assoc_below zero zero (suc b) c h = absurd (omega arith)
xor_assoc_below zero (suc a) b c h = absurd (omega arith)
xor_assoc_below (suc n) a b c h =
    let ih = xor_assoc_below n (a / 2) (b / 2) (c / 2) in
    let bits = differ_assoc (a % 2) (b % 2) (c % 2) (omega arith) (omega arith) (omega arith) in
    rw
      (
        bit_xor_step (bit_xor a b) c,
        bit_xor_step a (bit_xor b c),
        (halves a b).0,
        (halves a b).1,
        (halves b c).0,
        (halves b c).1,
        bits,
        ih (omega arith),
      )
      refl

pub bit_xor-zero : (a : ℕ) → bit_xor a 0 ≡ a
bit_xor-zero a = xor-zero_below a a (omega arith)

pub bit_xor_assoc : (a b c : ℕ) → bit_xor (bit_xor a b) c ≡ bit_xor a (bit_xor b c)
bit_xor_assoc a b c = xor_assoc_below (a + b + c) a b c (omega arith)

pub bit_xor_double : (a b : ℕ) → bit_xor (a * 2) (b * 2) ≡ bit_xor a b * 2
bit_xor_double a b =
    let ea : a * 2 / 2 ≡ a = omega arith in
    let eb : b * 2 / 2 ≡ b = omega arith in
    let ra : a * 2 % 2 ≡ 0 = omega arith in
    let rb : b * 2 % 2 ≡ 0 = omega arith in
    bit_xor_step (a * 2) (b * 2) ∙ rw (ea, eb, ra, rb) (omega arith)

-- The parts from the bit `k` up and those below it.
pub bit_xor_parts :
    (k q p r s : ℕ)
    → r < 2 ^ k
    → s < 2 ^ k
    → bit_xor (q * 2 ^ k + r) (p * 2 ^ k + s) ≡ bit_xor q p * 2 ^ k + bit_xor r s
bit_xor_parts zero q p zero zero hr hs =
    let eq : q * 2 ^ 0 + 0 ≡ q = omega arith in
    let ep : p * 2 ^ 0 + 0 ≡ p = omega arith in ap₂ bit_xor eq ep ∙ omega arith
bit_xor_parts zero q p (suc r) s hr hs = absurd (omega arith)
bit_xor_parts zero q p zero (suc s) hr hs = absurd (omega arith)
bit_xor_parts (suc k) q p r s hr hs =
    let (high, low) = halved k q r in
    let (high', low') = halved k p s in
    let ih =
      bit_xor_parts k q p (r / 2) (s / 2) (omega (arith, pow-suc 2 k))
        (omega (arith, pow-suc 2 k)) in
    rw (bit_xor_step (q * 2 ^ suc k + r) (p * 2 ^ suc k + s), high, low, high', low', ih)
      (omega (arith, bit_xor_step r s, doubled k (bit_xor q p) r))
