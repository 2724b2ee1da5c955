-- ===== src/Base/Bits.antt =====
-- Laws of the bit operations of C that hold at every width.
use Prim.Native.Nat.{
  ℕ, zero, suc, ◌+◌, ◌-◌, ◌*◌, ◌/◌, ◌%◌, ◌^◌, ◌≤◌, ◌<◌, min, max, differ, digits, bit_and, bit_or,
  bit_xor, bit_and-bitwise, bit_or-bitwise, bit_xor-bitwise,
}
use mathlib.Core.Path.{◌≡◌, refl, ap}
use native.Mathlib.Nat.{pow-suc, one-le-pow}
use native.Mathlib.Omega.{arith}

-- The recursion behind the operations has a fuel, which can be dropped.
digits_enough :
    (z : ℕ → ℕ) (f : ℕ → ℕ → ℕ) (n m a b : ℕ) → a ≤ n → a ≤ m → digits z f n a b ≡ digits z f m a b
digits_enough z f zero zero a b p q = refl
digits_enough z f zero (suc m) zero b p q = refl
digits_enough z f zero (suc m) (suc a) b p q = absurd (omega arith)
digits_enough z f (suc n) zero zero b p q = refl
digits_enough z f (suc n) zero (suc a) b p q = absurd (omega arith)
digits_enough z f (suc n) (suc m) zero b p q = refl
digits_enough z f (suc n) (suc m) (suc a) b p q =
    ap (λ t. t * 2 + f (suc a % 2) (b % 2))
      (digits_enough z f n m (suc a / 2) (b / 2) (omega arith) (omega arith))

module _ (z : ℕ → ℕ) (f : ℕ → ℕ → ℕ) (a b : ℕ) where
  digits_halved :
      digits z f (suc a) (suc a) b
      ≡ digits z f (suc a / 2) (suc a / 2) (b / 2) * 2 + f (suc a % 2) (b % 2)
  digits_halved =
      ap (λ t. t * 2 + f (suc a % 2) (b % 2))
        (digits_enough z f a (suc a / 2) (suc a / 2) (b / 2) (omega arith) (omega arith))

pub bit_xor_step : (a b : ℕ) → bit_xor a b ≡ bit_xor (a / 2) (b / 2) * 2 + differ (a % 2) (b % 2)
bit_xor_step zero b = omega (arith, bit_xor-bitwise 0 b, bit_xor-bitwise 0 (b / 2))
bit_xor_step (suc a) b = omega (
  arith,
  bit_xor-bitwise (suc a) b,
  bit_xor-bitwise (suc a / 2) (b / 2),
  digits_halved (λ y. y) differ a b,
)

bit_or_step : (a b : ℕ) → bit_or a b ≡ bit_or (a / 2) (b / 2) * 2 + max (a % 2) (b % 2)
bit_or_step zero b = omega (arith, bit_or-bitwise 0 b, bit_or-bitwise 0 (b / 2))
bit_or_step (suc a) b = omega (
  arith,
  bit_or-bitwise (suc a) b,
  bit_or-bitwise (suc a / 2) (b / 2),
  digits_halved (λ y. y) max a b,
)

bit_and_step : (a b : ℕ) → bit_and a b ≡ bit_and (a / 2) (b / 2) * 2 + min (a % 2) (b % 2)
bit_and_step zero b = omega (arith, bit_and-bitwise 0 b, bit_and-bitwise 0 (b / 2))
bit_and_step (suc a) b = omega (
  arith,
  bit_and-bitwise (suc a) b,
  bit_and-bitwise (suc a / 2) (b / 2),
  digits_halved (λ y. 0) min a b,
)

pub differ-lt : (x y : ℕ) → x < 2 → y < 2 → differ x y < 2
differ-lt zero y p q = q
differ-lt (suc zero) zero p q = omega arith
differ-lt (suc zero) (suc y) p q = omega arith
differ-lt (suc (suc x)) y p q = absurd (omega arith)

differ-zero : (x : ℕ) → x < 2 → differ x 0 ≡ x
differ-zero zero p = refl
differ-zero (suc zero) p = refl
differ-zero (suc (suc x)) p = absurd (omega arith)

differ_cancel : (x y : ℕ) → x < 2 → y < 2 → differ (differ x y) y ≡ x
differ_cancel zero zero p q = refl
differ_cancel zero (suc zero) p q = refl
differ_cancel zero (suc (suc y)) p q = absurd (omega arith)
differ_cancel (suc zero) zero p q = refl
differ_cancel (suc zero) (suc zero) p q = refl
differ_cancel (suc zero) (suc (suc y)) p q = absurd (omega arith)
differ_cancel (suc (suc x)) y p q = absurd (omega arith)

-- Two numbers below a power of two.
pub bit_xor-lt : (k a b : ℕ) → a < 2 ^ k → b < 2 ^ k → bit_xor a b < 2 ^ k
bit_xor-lt zero zero b p q = omega (arith, bit_xor-bitwise 0 b)
bit_xor-lt zero (suc a) b p q = absurd (omega arith)
bit_xor-lt (suc k) a b p q = omega (
  arith,
  pow-suc 2 k,
  bit_xor_step a b,
  differ-lt (a % 2) (b % 2) (omega arith) (omega arith),
  bit_xor-lt k (a / 2) (b / 2),
)

xor_cancel_below : (n a b : ℕ) → a + b ≤ n → bit_xor (bit_xor a b) b ≡ a
xor_cancel_below zero zero zero h = refl
xor_cancel_below zero zero (suc b) h = absurd (omega arith)
xor_cancel_below zero (suc a) b h = absurd (omega arith)
xor_cancel_below (suc n) a b h =
    let x : ℕ = bit_xor (a / 2) (b / 2) in
    let d : ℕ = differ (a % 2) (b % 2) in
    let small : d < 2 = differ-lt (a % 2) (b % 2) (omega arith) (omega arith) in
    let high : (x * 2 + d) / 2 ≡ x = omega arith in
    let low : (x * 2 + d) % 2 ≡ d = omega arith in
    let back : differ d (b % 2) ≡ a % 2 =
      differ_cancel (a % 2) (b % 2) (omega arith) (omega arith) in
    let ih : bit_xor x (b / 2) ≡ a / 2 = xor_cancel_below n (a / 2) (b / 2) (omega arith) in
    rw (bit_xor_step a b, bit_xor_step (x * 2 + d) b, high, low, back, ih) (omega arith)

pub bit_xor_cancel : (a b : ℕ) → bit_xor (bit_xor a b) b ≡ a
bit_xor_cancel a b = xor_cancel_below (a + b) a b (omega arith)

bit_or-zero_below : (n a : ℕ) → a ≤ n → bit_or a 0 ≡ a
bit_or-zero_below n zero h = refl
bit_or-zero_below zero (suc a) h = absurd (omega arith)
bit_or-zero_below (suc n) (suc a) h =
    omega (arith, bit_or_step (suc a) 0, bit_or-zero_below n (suc a / 2) (omega arith))

bit_and-zero_below : (n a : ℕ) → a ≤ n → bit_and a 0 ≡ 0
bit_and-zero_below n zero h = refl
bit_and-zero_below zero (suc a) h = absurd (omega arith)
bit_and-zero_below (suc n) (suc a) h =
    omega (arith, bit_and_step (suc a) 0, bit_and-zero_below n (suc a / 2) (omega arith))

-- `r | q << k` is a sum where `r` has at most `k` bits.
pub bit_or_disjoint : (k r q : ℕ) → r < 2 ^ k → bit_or r (q * 2 ^ k) ≡ r + q * 2 ^ k
bit_or_disjoint zero zero q h = omega (arith, bit_or-bitwise 0 (q * 1))
bit_or_disjoint zero (suc r) q h = absurd (omega arith)
bit_or_disjoint (suc k) r q h =
    let doubled : q * 2 ^ suc k ≡ 2 * (q * 2 ^ k) =
      omega (arith, ap (λ (t : ℕ). q * t) (pow-suc 2 k)) in
    let half : 2 * (q * 2 ^ k) / 2 ≡ q * 2 ^ k = omega arith in
    let ih : bit_or (r / 2) (q * 2 ^ k) ≡ r / 2 + q * 2 ^ k =
      bit_or_disjoint k (r / 2) q (omega (arith, pow-suc 2 k)) in
    let even : 2 * (q * 2 ^ k) % 2 ≡ 0 = omega arith in
    rw (doubled, bit_or_step r (2 * (q * 2 ^ k)), half, ih, even) (omega arith)

module _ (k q r : ℕ) where
  pub doubled : q * 2 ^ suc k ≡ 2 * (q * 2 ^ k)
  doubled = omega (arith, ap (λ (t : ℕ). q * t) (pow-suc 2 k))

  -- The lowest digit of a number, and the others, where a field starts above it.
  pub halved : ((q * 2 ^ suc k + r) / 2 ≡ q * 2 ^ k + r / 2) × ((q * 2 ^ suc k + r) % 2 ≡ r % 2)
  halved = (omega (arith, doubled), omega (arith, doubled))

pub xor-zero_below : (n a : ℕ) → a ≤ n → bit_xor a 0 ≡ a
xor-zero_below n zero h = refl
xor-zero_below zero (suc a) h = absurd (omega arith)
xor-zero_below (suc n) (suc a) h = ground (
  arith,
  bit_xor_step (suc a) 0,
  xor-zero_below n (suc a / 2) (omega arith),
  differ-zero (suc a % 2) (omega arith),
)

-- `a & (1 << k)` keeps the bit `k`.
pub bit_and_bit :
    (k q b r : ℕ) → r < 2 ^ k → b < 2 → bit_and ((q * 2 + b) * 2 ^ k + r) (2 ^ k) ≡ b * 2 ^ k
bit_and_bit zero q b (suc r) h l = absurd (omega arith)
bit_and_bit zero q b zero h l = omega (
  arith,
  bit_and_step ((q * 2 + b) * 1 + 0) 1,
  bit_and-zero_below (((q * 2 + b) * 1 + 0) / 2) (((q * 2 + b) * 1 + 0) / 2) (omega arith),
)
bit_and_bit (suc k) q b r h l =
    let (high, low) = halved k (q * 2 + b) r in
    let ih : bit_and ((q * 2 + b) * 2 ^ k + r / 2) (2 ^ k) ≡ b * 2 ^ k =
      bit_and_bit k q b (r / 2) (omega (arith, pow-suc 2 k)) l in
    let mask : (2 ^ suc k / 2 ≡ 2 ^ k) × (2 ^ suc k % 2 ≡ 0) =
      (omega (arith, pow-suc 2 k), omega (arith, pow-suc 2 k)) in
    rw (bit_and_step ((q * 2 + b) * 2 ^ suc k + r) (2 ^ suc k), high, mask.0, mask.1, ih)
      (omega (arith, doubled k b r))

-- `a & (2^k - 1)` keeps the `k` lowest bits.
pub bit_and_mask : (k q r : ℕ) → r < 2 ^ k → bit_and (q * 2 ^ k + r) (2 ^ k - 1) ≡ r
bit_and_mask zero q (suc r) h = absurd (omega arith)
bit_and_mask zero q zero h = bit_and-zero_below (q * 1 + 0) (q * 1 + 0) (omega arith)
bit_and_mask (suc k) q r h =
    let (high, low) = halved k q r in
    let ih : bit_and (q * 2 ^ k + r / 2) (2 ^ k - 1) ≡ r / 2 =
      bit_and_mask k q (r / 2) (omega (arith, pow-suc 2 k)) in
    let mask : ((2 ^ suc k - 1) / 2 ≡ 2 ^ k - 1) × ((2 ^ suc k - 1) % 2 ≡ 1) =
      (omega (arith, pow-suc 2 k, one-le-pow k 2), omega (arith, pow-suc 2 k, one-le-pow k 2)) in
    rw (bit_and_step (q * 2 ^ suc k + r) (2 ^ suc k - 1), high, low, mask.0, mask.1, ih)
      (omega arith)

-- An exclusive or with a word of `k` bits leaves the higher bits alone.
pub bit_xor_low :
    (k q r s : ℕ) → r < 2 ^ k → s < 2 ^ k → bit_xor (q * 2 ^ k + r) s ≡ q * 2 ^ k + bit_xor r s
bit_xor_low zero q (suc r) s h l = absurd (omega arith)
bit_xor_low zero q zero (suc s) h l = absurd (omega arith)
bit_xor_low zero q zero zero h l =
    omega (
      arith,
      xor-zero_below (q * 1 + 0) (q * 1 + 0) (omega arith),
      xor-zero_below 0 0 (omega arith),
    )
bit_xor_low (suc k) q r s h l =
    let (high, low) = halved k q r in
    let ih : bit_xor (q * 2 ^ k + r / 2) (s / 2) ≡ q * 2 ^ k + bit_xor (r / 2) (s / 2) =
      bit_xor_low k q (r / 2) (s / 2) (omega (arith, pow-suc 2 k)) (omega (arith, pow-suc 2 k)) in
    rw (bit_xor_step (q * 2 ^ suc k + r) s, high, low, ih)
      (omega (arith, bit_xor_step r s, doubled k q r))

differ_comm : (x y : ℕ) → x < 2 → y < 2 → differ x y ≡ differ y x
differ_comm zero zero p q = refl
differ_comm zero (suc zero) p q = refl
differ_comm zero (suc (suc y)) p q = absurd (omega arith)
differ_comm (suc zero) zero p q = refl
differ_comm (suc zero) (suc zero) p q = refl
differ_comm (suc zero) (suc (suc y)) p q = absurd (omega arith)
differ_comm (suc (suc x)) y p q = absurd (omega arith)

xor_comm_below : (n a b : ℕ) → a + b ≤ n → bit_xor a b ≡ bit_xor b a
xor_comm_below zero zero zero h = refl
xor_comm_below zero zero (suc b) h = absurd (omega arith)
xor_comm_below zero (suc a) b h = absurd (omega arith)
xor_comm_below (suc n) zero zero h = refl
xor_comm_below (suc n) zero (suc b) h = omega (
  arith,
  bit_xor_step 0 (suc b),
  bit_xor_step (suc b) 0,
  differ_comm 0 (suc b % 2) (omega arith) (omega arith),
  xor_comm_below n 0 (suc b / 2) (omega arith),
)
xor_comm_below (suc n) (suc a) b h = omega (
  arith,
  bit_xor_step (suc a) b,
  bit_xor_step b (suc a),
  differ_comm (suc a % 2) (b % 2) (omega arith) (omega arith),
  xor_comm_below n (suc a / 2) (b / 2) (omega arith),
)

pub bit_xor_comm : (a b : ℕ) → bit_xor a b ≡ bit_xor b a
bit_xor_comm a b = xor_comm_below (a + b) a b (omega arith)

or_comm_below : (n a b : ℕ) → a + b ≤ n → bit_or a b ≡ bit_or b a
or_comm_below zero zero zero h = refl
or_comm_below zero zero (suc b) h = absurd (omega arith)
or_comm_below zero (suc a) b h = absurd (omega arith)
or_comm_below (suc n) zero zero h = refl
or_comm_below (suc n) zero (suc b) h = omega (
  arith,
  bit_or_step 0 (suc b),
  bit_or_step (suc b) 0,
  or_comm_below n 0 (suc b / 2) (omega arith),
)
or_comm_below (suc n) (suc a) b h = omega (
  arith,
  bit_or_step (suc a) b,
  bit_or_step b (suc a),
  or_comm_below n (suc a / 2) (b / 2) (omega arith),
)

pub bit_or_comm : (a b : ℕ) → bit_or a b ≡ bit_or b a
bit_or_comm a b = or_comm_below (a + b) a b (omega arith)
