-- ===== src/FramePool/Bits.antt =====
-- The bit arithmetic of detail/frame_pool.h as division, at every power of two.
use Prim.Native.Nat.{bit_and, digits, bit_and-bitwise}
use native.Mathlib.Nat.{pow-suc, one-le-pow, mod-add-div, mod-lt, div-lt_iff_lt-mul, mul_comm}
use native.Mathlib.Decide.{ℕ_discrete}
use simple_await.Base.{
  ℕ, zero, suc, ◌+◌, ◌-◌, ◌*◌, ◌/◌, ◌%◌, ◌^◌, ◌≤◌, ◌<◌, ◌≡◌, ◌≢◌, refl, ap, ◌∙◌, sym, min, arith,
}

module _ (zeroes : ℕ → ℕ) (f : ℕ → ℕ → ℕ) where
  more_fuel : (n m a b : ℕ) → a ≤ n → a ≤ m → digits zeroes f n a b ≡ digits zeroes f m a b
  more_fuel zero zero a b p q = refl
  more_fuel zero (suc m) zero b p q = refl
  more_fuel zero (suc m) (suc a) b p q = absurd (omega arith)
  more_fuel (suc n) zero zero b p q = refl
  more_fuel (suc n) zero (suc a) b p q = absurd (omega arith)
  more_fuel (suc n) (suc m) zero b p q = refl
  more_fuel (suc n) (suc m) (suc a) b p q =
      rw (more_fuel n m (suc a / 2) (b / 2) (omega arith) (omega arith))

-- The lowest digit.
digit : (a b : ℕ) → bit_and a b ≡ bit_and (a / 2) (b / 2) * 2 + min (a % 2) (b % 2)
digit zero b = omega (arith, bit_and-bitwise 0 b, bit_and-bitwise 0 (b / 2))
digit (suc a) b = omega (
  arith,
  bit_and-bitwise (suc a) b,
  bit_and-bitwise (suc a / 2) (b / 2),
  more_fuel (λ y. 0) min a (suc a / 2) (suc a / 2) (b / 2) (omega arith) (omega arith),
)

-- Induction over the digits of a number below `n`.
bit_and-zero_below : (n a : ℕ) → a ≤ n → bit_and a 0 ≡ 0
bit_and-zero_below n zero h = refl
bit_and-zero_below zero (suc a) h = absurd (omega arith)
bit_and-zero_below (suc n) (suc a) h =
    omega (arith, digit (suc a) 0, bit_and-zero_below n (suc a / 2) (omega arith))

bit_and_self_below : (n a : ℕ) → a ≤ n → bit_and a a ≡ a
bit_and_self_below n zero h = refl
bit_and_self_below zero (suc a) h = absurd (omega arith)
bit_and_self_below (suc n) (suc a) h =
    omega (arith, digit (suc a) (suc a), bit_and_self_below n (suc a / 2) (omega arith))

double : (q k : ℕ) → 2 ^ suc k * q ≡ 2 * (2 ^ k * q)
double q k = omega (arith, ap (λ (t : ℕ). t * q) (pow-suc 2 k))

-- `q * 2 ^ k + r` under a mask of `k` ones, and under the mask of the ones above them.
low_mask : (k q r : ℕ) → r < 2 ^ k → bit_and (2 ^ k * q + r) (2 ^ k - 1) ≡ r
low_mask zero q r h =
    ground (arith, bit_and-zero_below (2 ^ 0 * q + r) (2 ^ 0 * q + r) (omega arith))
low_mask (suc k) q r h = ground (
  arith,
  digit (2 ^ suc k * q + r) (2 ^ suc k - 1),
  double q k,
  pow-suc 2 k,
  low_mask k q (r / 2) (omega arith),
)

high_mask :
    (k m q r : ℕ)
    → r < 2 ^ k
    → q < 2 ^ m
    → bit_and (2 ^ k * q + r) (2 ^ k * (2 ^ m - 1)) ≡ 2 ^ k * q
high_mask zero m q r h l =
    let e : r ≡ 0 = omega arith in
    let f : 2 ^ zero * q + r ≡ 2 ^ m * 0 + q = omega (arith, e) in
    let g : 2 ^ zero * (2 ^ m - 1) ≡ 2 ^ m - 1 = omega arith in
    rw (f, g) (low_mask m 0 q l ∙ omega arith)
high_mask (suc k) m q r h l = ground (
  arith,
  digit (2 ^ suc k * q + r) (2 ^ suc k * (2 ^ m - 1)),
  double q k,
  double (2 ^ m - 1) k,
  pow-suc 2 k,
  high_mask k m q (r / 2) (omega arith) l,
)

pow-add : (k m : ℕ) → 2 ^ (k + m) ≡ 2 ^ k * 2 ^ m
pow-add zero m = ap (λ (t : ℕ). 2 ^ t) (let e : 0 + m ≡ m = omega arith in e) ∙ omega arith
pow-add (suc k) m =
    let e : suc k + m ≡ suc (k + m) = omega arith in
    omega (arith, ap (λ (t : ℕ). 2 ^ t) e, pow-suc 2 (k + m), pow-add k m, double (2 ^ m) k)

quotient_lt : (x p m : ℕ) → 0 < p → x < p * m → x / p < m
quotient_lt x p m h l = (div-lt_iff_lt-mul h).1 (omega (arith, mul_comm p m))

-- The mask `~(2 ^ k - 1)` clears the `k` low bits of a 32-bit word.
pub bit_and-high_mask :
    (k v : ℕ) → k ≤ 32 → v < 2 ^ 32 → bit_and v (2 ^ 32 - 2 ^ k) ≡ 2 ^ k * (v / 2 ^ k)
bit_and-high_mask k v h l =
    let m : ℕ = 32 - k in
    let whole : 2 ^ 32 ≡ 2 ^ k * 2 ^ m =
      ap (λ (t : ℕ). 2 ^ t) (let e : 32 ≡ k + m = omega arith in e) ∙ pow-add k m in
    let mask : 2 ^ 32 - 2 ^ k ≡ 2 ^ k * (2 ^ m - 1) = omega (
      arith,
      whole,
      ap (λ (t : ℕ). 2 ^ k * t)
          (let e : 2 ^ m ≡ (2 ^ m - 1) + 1 = omega (arith, one-le-pow m 2 (omega arith)) in e),
    ) in
    let parts : 2 ^ k * (v / 2 ^ k) + v % 2 ^ k ≡ v = omega (arith, mod-add-div v (2 ^ k)) in
    let p : 0 < 2 ^ k = one-le-pow k 2 (omega arith) in
    rw mask (
      ap (λ (t : ℕ). bit_and t (2 ^ k * (2 ^ m - 1))) (sym parts)
      ∙ high_mask k m (v / 2 ^ k) (v % 2 ^ k) (mod-lt v p)
          (quotient_lt v (2 ^ k) (2 ^ m) p (omega (arith, whole))))

-- The mask `2 ^ k - 1` leaves the `k` low bits.
pub bit_and-low_mask : (k v : ℕ) → bit_and v (2 ^ k - 1) ≡ v % 2 ^ k
bit_and-low_mask k v =
    let parts : 2 ^ k * (v / 2 ^ k) + v % 2 ^ k ≡ v = omega (arith, mod-add-div v (2 ^ k)) in
    ap (λ (t : ℕ). bit_and t (2 ^ k - 1)) (sym parts)
    ∙ low_mask k (v / 2 ^ k) (v % 2 ^ k) (mod-lt v (one-le-pow k 2 (omega arith)))

-- `v & (v - 1)` is zero only for a power of two.
power_below : (n v : ℕ) → v ≤ n → v ≢ 0 → bit_and v (v - 1) ≡ 0 → (k : ℕ) × (v ≡ 2 ^ k)
power_below zero v l h e = absurd (omega arith)
power_below (suc n) v l h e = elim (ℕ_discrete (v % 2) 0) [
  | yes even ↦
      let half : bit_and (v / 2) (v / 2 - 1) ≡ 0 = omega (
        arith,
        e,
        digit v (v - 1),
        ap (λ (t : ℕ). bit_and (v / 2) t) (let f : (v - 1) / 2 ≡ v / 2 - 1 = omega arith in f),
      ) in
      let (k, p) = power_below n (v / 2) (omega arith) (omega arith) half in
      (suc k, omega (arith, p, pow-suc 2 k))
  | no odd ↦ (
    0,
    omega (
      arith,
      e,
      digit v (v - 1),
      ap (λ (t : ℕ). bit_and (v / 2) t) (let f : (v - 1) / 2 ≡ v / 2 = omega arith in f),
      bit_and_self_below (v / 2) (v / 2) (omega arith),
    ),
  )
]

pub power_of_two : (v : ℕ) → v ≢ 0 → bit_and v (v - 1) ≡ 0 → (k : ℕ) × (v ≡ 2 ^ k)
power_of_two v = power_below v v (omega arith)
