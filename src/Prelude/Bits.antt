-- ===== src/Prelude/Bits.antt =====
-- Python's shifts and bitwise operators on numbers that are not negative, and the laws that turn
-- them into arithmetic at every width.
use Prim.Native.Nat.{min, max, bit_and, bit_or, digits, bitwise, bit_and-bitwise, bit_or-bitwise}
use native.Mathlib.Nat.{
  pow-suc, one-le-pow, pow-succ', div-div-eq-div-mul, mod-lt, div-add-mod, add-mul-mod_self_left,
  mod-eq_of_lt, mul-one, div-one, add-zero, pow-zero, add-suc, mul_assoc, mul_comm,
  div-lt_iff_lt-mul,
}
use opencxl_core.Prelude.{
  ℕ, zero, suc, ◌+◌, ◌-◌, ◌*◌, ◌/◌, ◌%◌, ◌^◌, ◌≤◌, ◌<◌, ◌≡◌, refl, ap, ap₂, sym, ◌∙◌, arith,
  if◌then◌else◌, ◌==◌,
}

-- `x << k` and `x >> k`.
abbrev pub shl : ℕ → ℕ → ℕ
shl x k = x * 2 ^ k

abbrev pub shr : ℕ → ℕ → ℕ
shr x k = x / 2 ^ k

-- `(1 << k) - 1`.
abbrev pub low_mask : ℕ → ℕ
low_mask k = shl 1 k - 1

-- `x & ~m`: Python's `~m` has infinitely many ones, so what is left are the bits of `x` not in `m`.
abbrev pub and_not : ℕ → ℕ → ℕ
and_not x m = x - bit_and x m

-- Any count of digits that reaches `a` gives the same as `a` itself; `k` bounds the counts.
module _ (z : ℕ → ℕ) (f : ℕ → ℕ → ℕ) where
  digits_enough : (k n a b : ℕ) → n ≤ k → a ≤ n → digits z f n a b ≡ bitwise z f a b
  digits_enough k n zero b p q = digits_none n
    where
      digits_none : (n : ℕ) → digits z f n zero b ≡ z b
      digits_none zero = refl
      digits_none (suc n) = refl
  digits_enough k zero (suc a) b p q = absurd (omega arith)
  digits_enough zero (suc n) (suc a) b p q = absurd (omega arith)
  digits_enough (suc k) (suc n) (suc a) b p q =
      let left = digits_enough k n (suc a / 2) (b / 2) (omega arith) (omega arith) in
      let right = digits_enough k a (suc a / 2) (b / 2) (omega arith) (omega arith) in
      rw (left, right)

  bitwise_lowest :
      (a b : ℕ)
      → bitwise z f (suc a) b ≡ bitwise z f (suc a / 2) (b / 2) * 2 + f (suc a % 2) (b % 2)
  bitwise_lowest a b = rw (digits_enough a a (suc a / 2) (b / 2) (omega arith) (omega arith))

-- The lowest digit of a result, and the digits above it.
bit_or_lowest : (a b : ℕ) → bit_or a b ≡ bit_or (a / 2) (b / 2) * 2 + max (a % 2) (b % 2)
bit_or_lowest zero b = omega (arith, bit_or-bitwise 0 b, bit_or-bitwise 0 (b / 2))
bit_or_lowest (suc a) b = simp bit_or-bitwise (bitwise_lowest (λ y. y) max a b)

bit_and_lowest : (a b : ℕ) → bit_and a b ≡ bit_and (a / 2) (b / 2) * 2 + min (a % 2) (b % 2)
bit_and_lowest zero b = omega (arith, bit_and-bitwise 0 b, bit_and-bitwise 0 (b / 2))
bit_and_lowest (suc a) b = simp bit_and-bitwise (bitwise_lowest (λ y. 0) min a b)

bit_or-zero_below : (k a : ℕ) → a ≤ k → bit_or a 0 ≡ a
bit_or-zero_below k zero h = refl
bit_or-zero_below zero (suc a) h = absurd (omega arith)
bit_or-zero_below (suc k) (suc a) h =
    omega (arith, bit_or_lowest (suc a) 0, bit_or-zero_below k (suc a / 2) (omega arith))

pub bit_or-zero : (a : ℕ) → bit_or a 0 ≡ a
bit_or-zero a = bit_or-zero_below a a (omega arith)

bit_and-zero_below : (k a : ℕ) → a ≤ k → bit_and a 0 ≡ 0
bit_and-zero_below k zero h = refl
bit_and-zero_below zero (suc a) h = absurd (omega arith)
bit_and-zero_below (suc k) (suc a) h =
    omega (arith, bit_and_lowest (suc a) 0, bit_and-zero_below k (suc a / 2) (omega arith))

pub bit_and-zero : (a : ℕ) → bit_and a 0 ≡ 0
bit_and-zero a = bit_and-zero_below a a (omega arith)

double_shl : (q k : ℕ) → shl q (suc k) ≡ 2 * shl q k
double_shl q k = omega (arith, ap (λ (t : ℕ). q * t) (pow-suc 2 k))

halve_shr : (a k : ℕ) → shr a (suc k) ≡ shr (a / 2) k
halve_shr a k = rw (div-div-eq-div-mul, pow-succ')

-- `(q << k) | r` is a sum where `r` fits below the shift.
pub bit_or-shl : (k q r : ℕ) → r < 2 ^ k → bit_or (shl q k) r ≡ shl q k + r
bit_or-shl zero q r h =
    let none_left : r ≡ 0 = omega arith in rw none_left (omega (arith, bit_or-zero (shl q 0)))
bit_or-shl (suc k) q r h =
    let below = bit_or-shl k q (r / 2) (omega (arith, pow-suc 2 k)) in
    let halves : shl q (suc k) / 2 ≡ shl q k = omega (arith, double_shl q k) in
    let lowest = bit_or_lowest (shl q (suc k)) r in
    omega (arith, double_shl q k, rw halves at lowest, below)

mod_double : (a m : ℕ) → 0 < m → a % (2 * m) ≡ a / 2 % m * 2 + a % 2
mod_double a m h =
    let r = a / 2 % m * 2 + a % 2 in
    let small : r < 2 * m = omega (arith, mod-lt (a / 2) h) in
    let split : a ≡ r + 2 * m * (a / 2 / m) = omega (arith, div-add-mod (a / 2) m) in
    ap (λ t. t % (2 * m)) split ∙ add-mul-mod_self_left r (2 * m) (a / 2 / m) ∙ mod-eq_of_lt small

-- `a & ((1 << k) - 1)` is the remainder by `2 ^ k`.
pub bit_and-low_mask : (k a : ℕ) → bit_and a (low_mask k) ≡ a % 2 ^ k
bit_and-low_mask zero a = omega (arith, bit_and-zero a)
bit_and-low_mask (suc k) a =
    let positive = one-le-pow k 2 (omega arith) in
    let half_mask : low_mask (suc k) / 2 ≡ low_mask k = omega (arith, pow-suc 2 k) in
    let lowest = bit_and_lowest a (low_mask (suc k)) in
    let twice : 2 ^ suc k ≡ 2 * 2 ^ k = omega (arith, pow-suc 2 k) in
    let remainder : a % 2 ^ suc k ≡ a / 2 % 2 ^ k * 2 + a % 2 =
      rw twice (mod_double a (2 ^ k) positive) in
    omega (arith, rw half_mask at lowest, bit_and-low_mask k (a / 2), remainder)

-- `a & (m << k)` looks at the bits of `a` from bit `k` on.
bit_and-shl : (k m a : ℕ) → bit_and a (shl m k) ≡ shl (bit_and (shr a k) m) k
bit_and-shl zero m a = rw (mul-one, mul-one, div-one)
bit_and-shl (suc k) m a =
    let lowest = bit_and_lowest a (shl m (suc k)) in
    let halves : shl m (suc k) / 2 ≡ shl m k = omega (arith, double_shl m k) in
    rw (halve_shr a k) (
      omega (
        arith,
        double_shl m k,
        rw halves at lowest,
        bit_and-shl k m (a / 2),
        double_shl (bit_and (shr (a / 2) k) m) k,
      ))

-- `a & (((1 << s) - 1) << k)` keeps `s` bits from bit `k` on.
pub bit_and-field : (k s a : ℕ) → bit_and a (shl (low_mask s) k) ≡ shl (shr a k % 2 ^ s) k
bit_and-field k s a =
    bit_and-shl k (low_mask s) a ∙ ap (λ t. shl t k) (bit_and-low_mask s (shr a k))

bit_or_comm_below : (k a b : ℕ) → a ≤ k → b ≤ k → bit_or a b ≡ bit_or b a
bit_or_comm_below k zero b p q = omega (arith, bit_or-zero b, bit_or-bitwise 0 b)
bit_or_comm_below k (suc a) zero p q = omega (arith, bit_or-zero (suc a), bit_or-bitwise 0 (suc a))
bit_or_comm_below zero (suc a) (suc b) p q = absurd (omega arith)
bit_or_comm_below (suc k) (suc a) (suc b) p q = omega (
  arith,
  bit_or_lowest (suc a) (suc b),
  bit_or_lowest (suc b) (suc a),
  bit_or_comm_below k (suc a / 2) (suc b / 2) (omega arith) (omega arith),
)

pub bit_or_comm : (a b : ℕ) → bit_or a b ≡ bit_or b a
bit_or_comm a b = bit_or_comm_below (a + b) a b (omega arith) (omega arith)

-- `r | (q << k)`, with the fields the other way round.
pub bit_or-shl_right : (k q r : ℕ) → r < 2 ^ k → bit_or r (shl q k) ≡ r + shl q k
bit_or-shl_right k q r h = omega (arith, bit_or_comm r (shl q k), bit_or-shl k q r h)

pub pow_add : (a b : ℕ) → 2 ^ (a + b) ≡ 2 ^ a * 2 ^ b
pow_add a zero = rw (add-zero, pow-zero, mul-one)
pow_add a (suc b) = rw (add-suc, pow-suc, pow-suc 2 b, pow_add a b, mul_assoc)

pub shr-lt : (x s t : ℕ) → x < 2 ^ (s + t) → shr x s < 2 ^ t
shr-lt x s t h = (div-lt_iff_lt-mul (one-le-pow s 2 (omega arith))).1 (rw (mul_comm, ← pow_add) h)

pub shr-shr : (x s t : ℕ) → shr (shr x s) t ≡ shr x (s + t)
shr-shr x s t = rw (pow_add, div-div-eq-div-mul)

bit_and_comm_below : (k a b : ℕ) → a ≤ k → b ≤ k → bit_and a b ≡ bit_and b a
bit_and_comm_below k zero b p q = omega (arith, bit_and-zero b, bit_and-bitwise 0 b)
bit_and_comm_below k (suc a) zero p q =
    omega (arith, bit_and-zero (suc a), bit_and-bitwise 0 (suc a))
bit_and_comm_below zero (suc a) (suc b) p q = absurd (omega arith)
bit_and_comm_below (suc k) (suc a) (suc b) p q = omega (
  arith,
  bit_and_lowest (suc a) (suc b),
  bit_and_lowest (suc b) (suc a),
  bit_and_comm_below k (suc a / 2) (suc b / 2) (omega arith) (omega arith),
)

pub bit_and_comm : (a b : ℕ) → bit_and a b ≡ bit_and b a
bit_and_comm a b = bit_and_comm_below (a + b) a b (omega arith) (omega arith)

-- The operators keep within a width.
pub bit_or-lt : (k a b : ℕ) → a < 2 ^ k → b < 2 ^ k → bit_or a b < 2 ^ k
bit_or-lt zero a b p q =
    let none_a : a ≡ 0 = omega arith in
    let none_b : b ≡ 0 = omega arith in rw (none_a, none_b) (omega arith)
bit_or-lt (suc k) a b p q =
    let below =
      bit_or-lt k (a / 2) (b / 2) (omega (arith, pow-suc 2 k)) (omega (arith, pow-suc 2 k)) in
    omega (arith, bit_or_lowest a b, below, pow-suc 2 k)

pub bit_and-lt : (k a b : ℕ) → b < 2 ^ k → bit_and a b < 2 ^ k
bit_and-lt zero a b q = let none_b : b ≡ 0 = omega arith in rw (none_b, bit_and-zero) (omega arith)
bit_and-lt (suc k) a b q =
    let below = bit_and-lt k (a / 2) (b / 2) (omega (arith, pow-suc 2 k)) in
    omega (arith, bit_and_lowest a b, below, pow-suc 2 k)

-- Bit `i` of `x`.
abbrev pub bit : ℕ → ℕ → ℕ
bit x i = shr x i % 2

bit-suc : (x i : ℕ) → bit x (suc i) ≡ bit (x / 2) i
bit-suc x i =
    ap (λ t. t % 2) (ap (λ p. x / p) (pow-succ' 2 i) ∙ sym (div-div-eq-div-mul x 2 (2 ^ i)))

bit_and-le : (k a b : ℕ) → a ≤ k → bit_and a b ≤ a
bit_and-le k zero b h = omega (arith, bit_and-bitwise 0 b)
bit_and-le zero (suc a) b h = absurd (omega arith)
bit_and-le (suc k) (suc a) b h =
    omega (arith, bit_and_lowest (suc a) b, bit_and-le k (suc a / 2) (b / 2) (omega arith))

-- `(current & ~mask) | (value & mask)`, halved, and its lowest bit.
blend_half :
    (c m v : ℕ)
    → bit_or (and_not c m) (bit_and v m) / 2
      ≡ bit_or (and_not (c / 2) (m / 2)) (bit_and (v / 2) (m / 2))
blend_half c m v =
    let kept : and_not c m / 2 ≡ and_not (c / 2) (m / 2) =
      omega (arith, bit_and_lowest c m, bit_and-le (c / 2) (c / 2) (m / 2) (omega arith)) in
    let new : bit_and v m / 2 ≡ bit_and (v / 2) (m / 2) = omega (arith, bit_and_lowest v m) in
    let both = bit_or_lowest (and_not c m) (bit_and v m) in
    let halves : bit_or (and_not c m) (bit_and v m) / 2
        ≡ bit_or (and_not c m / 2) (bit_and v m / 2) =
      omega (arith, both) in
    halves ∙ ap₂ bit_or kept new

blend_lowest :
    (c m v : ℕ) → bit_or (and_not c m) (bit_and v m) % 2 ≡ (if (m % 2) == 1 then v % 2 else c % 2)
blend_lowest c m v = ground (
  arith,
  bit_or_lowest (and_not c m) (bit_and v m),
  bit_and_lowest v m,
  bit_and_lowest c m,
  bit_and-le c c m (omega arith),
  bit_and-le (c / 2) (c / 2) (m / 2) (omega arith),
)

-- A bit of the mask chooses the bit of the value.
pub bit-blend :
    (i c m v : ℕ)
    → bit (bit_or (and_not c m) (bit_and v m)) i ≡ (if bit m i == 1 then bit v i else bit c i)
bit-blend zero c m v = rw (div-one, div-one, div-one, div-one) (blend_lowest c m v)
bit-blend (suc i) c m v =
    rw (bit-suc, bit-suc m i, bit-suc v i, bit-suc c i, blend_half c m v)
      (bit-blend i (c / 2) (m / 2) (v / 2))
