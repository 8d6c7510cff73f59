-- ===== src/Prelude/Bits.antt =====
-- `&` with a mask that clears the low bits of a word, as arithmetic.
use Prim.Native.Nat.{
  ℕ, zero, suc, ◌+◌, ◌-◌, ◌*◌, ◌/◌, ◌%◌, ◌^◌, ◌≤◌, ◌<◌, min, bit_and, digits, bit_and-bitwise,
}
use mathlib.Core.Path.{◌≡◌, refl, ap, sym, ◌∙◌}
use native.Mathlib.Nat.{pow-suc, one-le-pow, zero-add, suc-add, div-lt_iff_lt-mul, mul_comm, mod-lt}
use native.Mathlib.Omega.{arith}

-- The native operation's definition, with enough fuel, in any two amounts.
enough :
    (a b : ℕ) (f g : ℕ)
    → a ≤ f
    → a ≤ g
    → digits (λ _. zero) min f a b ≡ digits (λ _. zero) min g a b
enough zero b zero zero p q = refl
enough zero b zero (suc g) p q = refl
enough zero b (suc f) zero p q = refl
enough zero b (suc f) (suc g) p q = refl
enough (suc a) b zero g p q = absurd (omega arith)
enough (suc a) b (suc f) zero p q = absurd (omega arith)
enough (suc a) b (suc f) (suc g) p q =
    rw (enough (suc a / 2) (b / 2) f g (omega arith) (omega arith))

last_digit : (a b : ℕ) → bit_and a b ≡ bit_and (a / 2) (b / 2) * 2 + min (a % 2) (b % 2)
last_digit zero b = omega (arith, bit_and-bitwise 0 b, bit_and-bitwise 0 (b / 2))
last_digit (suc a) b = omega (
  arith,
  bit_and-bitwise (suc a) b,
  bit_and-bitwise (suc a / 2) (b / 2),
  enough (suc a / 2) (b / 2) a (suc a / 2) (omega arith) (omega arith),
)

-- A number of m ones, and of m ones above k zeros.
ones : ℕ → ℕ
ones zero = 0
ones (suc m) = 2 * ones m + 1

high_ones : ℕ → ℕ → ℕ
high_ones zero m = ones m
high_ones (suc k) m = 2 * high_ones k m

ones-pow : (m : ℕ) → ones m + 1 ≡ 2 ^ m
unfolding ones
ones-pow zero = refl
ones-pow (suc m) = omega (arith, ones-pow m, pow-suc 2 m)

high_ones-pow : (k m : ℕ) → high_ones k m + 2 ^ k ≡ 2 ^ (k + m)
unfolding high_ones
high_ones-pow zero m = rw zero-add (ones-pow m)
high_ones-pow (suc k) m =
    rw suc-add (omega (arith, high_ones-pow k m, pow-suc 2 k, pow-suc 2 (k + m)))

bit_and-ones : (m q : ℕ) → q < 2 ^ m → bit_and q (ones m) ≡ q
unfolding ones
bit_and-ones zero zero h = refl
bit_and-ones zero (suc q) h = absurd (omega arith)
bit_and-ones (suc m) q h = ground (
  arith,
  last_digit q (2 * ones m + 1),
  pow-suc 2 m,
  bit_and-ones m (q / 2) (omega (arith, pow-suc 2 m)),
)

-- Clearing the low k bits of q * 2 ^ k + r leaves q * 2 ^ k.
bit_and-high_ones :
    (k m q r : ℕ) → q < 2 ^ m → r < 2 ^ k → bit_and (q * 2 ^ k + r) (high_ones k m) ≡ q * 2 ^ k
unfolding high_ones
bit_and-high_ones zero m q r h l = ground (arith, bit_and-ones m q h)
bit_and-high_ones (suc k) m q r h l = ground (
  arith,
  last_digit (q * 2 ^ suc k + r) (2 * high_ones k m),
  ap (λ (t : ℕ). q * t) (pow-suc 2 k),
  pow-suc 2 k,
  bit_and-high_ones k m q (r / 2) h (omega (arith, pow-suc 2 k)),
)

pow_add : (k m : ℕ) → 2 ^ (k + m) ≡ 2 ^ k * 2 ^ m
pow_add zero m = ground (arith, zero-add m)
pow_add (suc k) m = rw suc-add (grind (arith, pow-suc 2 (k + m), pow-suc 2 k, pow_add k m))

-- `x & ~(2 ^ k - 1)` on words of k + m bits takes x down to a multiple of 2 ^ k.
pub bit_and-clear :
    (k m x : ℕ) → x < 2 ^ (k + m) → bit_and x (2 ^ (k + m) - 2 ^ k) ≡ x / 2 ^ k * 2 ^ k
bit_and-clear k m x h =
    let p = one-le-pow k 2 (omega arith) in
    let q = (div-lt_iff_lt-mul p).1 (rw (pow_add k m, mul_comm (2 ^ k) (2 ^ m)) at h) in
    let split : x / 2 ^ k * 2 ^ k + x % 2 ^ k ≡ x = grind arith in
    let mask : 2 ^ (k + m) - 2 ^ k ≡ high_ones k m = omega (arith, high_ones-pow k m) in
    rw mask (
      ap (λ y. bit_and y (high_ones k m)) (sym split)
      ∙ bit_and-high_ones k m (x / 2 ^ k) (x % 2 ^ k) q (mod-lt x p))
