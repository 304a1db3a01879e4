-- ===== src/Shared/Bits.antt =====
-- x & (2 ^ k - 1) is x modulo 2 ^ k, from the digits of the native operation.
use Prim.Native.Nat.{
  ℕ, zero, suc, ◌+◌, ◌-◌, ◌*◌, ◌/◌, ◌%◌, ◌^◌, ◌≤◌, ◌<◌, min, max, bit_and, bit_or, digits,
  bit_and-bitwise, bit_or-bitwise,
}
use native.Mathlib.Nat.{pow-succ'}
use mathlib.Core.Path.{◌≡◌, refl, ap}
use native.Mathlib.Omega.{arith}

-- The low halves of `a` and `b` meet below the higher digits; `n` only bounds the digits.
abbrev conj : ℕ → ℕ → ℕ → ℕ
conj n a b = digits (λ _. zero) min n a b

conj-zero : (n b : ℕ) → conj n 0 b ≡ 0
conj-zero zero b = refl
conj-zero (suc n) b = refl

conj-fuel : (n m a b : ℕ) → a ≤ n → a ≤ m → conj n a b ≡ conj m a b
conj-fuel n m zero b p q = omega (arith, conj-zero n b, conj-zero m b)
conj-fuel zero m (suc a) b p q = absurd (omega arith)
conj-fuel (suc n) zero (suc a) b p q = absurd (omega arith)
conj-fuel (suc n) (suc m) (suc a) b p q =
    omega (arith, conj-fuel n m (suc a / 2) (b / 2) (omega arith) (omega arith))

bit_and-halves : (a b : ℕ) → bit_and a b ≡ bit_and (a / 2) (b / 2) * 2 + min (a % 2) (b % 2)
bit_and-halves zero b = omega (arith, bit_and-bitwise 0 b, bit_and-bitwise 0 (b / 2))
bit_and-halves (suc a) b = omega (
  arith,
  bit_and-bitwise (suc a) b,
  bit_and-bitwise (suc a / 2) (b / 2),
  conj-fuel a (suc a / 2) (suc a / 2) (b / 2) (omega arith) (omega arith),
)

bit_and-zero : (n a : ℕ) → a ≤ n → bit_and a 0 ≡ 0
bit_and-zero n zero h = omega (arith, bit_and-bitwise 0 0)
bit_and-zero zero (suc a) h = absurd (omega arith)
bit_and-zero (suc n) (suc a) h =
    omega (arith, bit_and-halves (suc a) 0, bit_and-zero n (suc a / 2) (omega arith))

pub pow_pos : (k : ℕ) → 0 < 2 ^ k
pow_pos zero = omega arith
pow_pos (suc k) = rw (pow-succ' 2 k) (omega (arith, pow_pos k))

double_mod : (x P : ℕ) → 0 < P → x % (2 * P) ≡ ((x / 2) % P) * 2 + x % 2
double_mod x P h = grind arith

pub bit_and-mask : (k x : ℕ) → bit_and x (2 ^ k - 1) ≡ x % 2 ^ k
bit_and-mask zero x = omega (arith, bit_and-zero x x (omega arith))
bit_and-mask (suc k) x = rw (pow-succ' 2 k) (
    omega (
      arith,
      bit_and-halves x (2 * 2 ^ k - 1),
      pow_pos k,
      double_mod x (2 ^ k) (pow_pos k),
      ap (λ m. bit_and (x / 2) m) (half_mask (2 ^ k) (pow_pos k)),
      bit_and-mask k (x / 2),
    ))
  where
    half_mask : (P : ℕ) → 0 < P → (2 * P - 1) / 2 ≡ P - 1
    half_mask P h = omega arith

abbrev disj : ℕ → ℕ → ℕ → ℕ
disj n a b = digits (λ b. b) max n a b

disj-zero : (n b : ℕ) → disj n 0 b ≡ b
disj-zero zero b = refl
disj-zero (suc n) b = refl

disj-fuel : (n m a b : ℕ) → a ≤ n → a ≤ m → disj n a b ≡ disj m a b
disj-fuel n m zero b p q = omega (arith, disj-zero n b, disj-zero m b)
disj-fuel zero m (suc a) b p q = absurd (omega arith)
disj-fuel (suc n) zero (suc a) b p q = absurd (omega arith)
disj-fuel (suc n) (suc m) (suc a) b p q =
    omega (arith, disj-fuel n m (suc a / 2) (b / 2) (omega arith) (omega arith))

zero-bit_or : (b : ℕ) → bit_or 0 b ≡ b
zero-bit_or b = omega (arith, bit_or-bitwise 0 b)

bit_or-halves : (a b : ℕ) → bit_or a b ≡ bit_or (a / 2) (b / 2) * 2 + max (a % 2) (b % 2)
bit_or-halves zero b = omega (arith, zero-bit_or b, zero-bit_or (b / 2))
bit_or-halves (suc a) b = omega (
  arith,
  bit_or-bitwise (suc a) b,
  bit_or-bitwise (suc a / 2) (b / 2),
  disj-fuel a (suc a / 2) (suc a / 2) (b / 2) (omega arith) (omega arith),
)

bit_or-zero : (n a : ℕ) → a ≤ n → bit_or a 0 ≡ a
bit_or-zero n zero h = zero-bit_or 0
bit_or-zero zero (suc a) h = absurd (omega arith)
bit_or-zero (suc n) (suc a) h =
    omega (arith, bit_or-halves (suc a) 0, bit_or-zero n (suc a / 2) (omega arith))

-- Fields that share no bit are joined by addition.
pub bit_or-disjoint : (k x y : ℕ) → y < 2 ^ k → bit_or (x * 2 ^ k) y ≡ x * 2 ^ k + y
bit_or-disjoint zero x y h = low x y (omega arith)
  where
    low : (x y : ℕ) → y ≡ 0 → bit_or (x * 1) y ≡ x * 1 + y
    low x zero h = omega (arith, bit_or-zero (x * 1) (x * 1) (omega arith))
    low x (suc y) h = absurd (omega arith)
bit_or-disjoint (suc k) x y h =
    rw (twice, bit_or-halves (x * 2 ^ k * 2) y, half)
      (omega (arith, bit_or-disjoint k x (y / 2) small))
  where
    twice : x * 2 ^ suc k ≡ x * 2 ^ k * 2
    twice = rw (pow-succ' 2 k) (omega arith)

    half : x * 2 ^ k * 2 / 2 ≡ x * 2 ^ k
    half = omega arith

    small : y / 2 < 2 ^ k
    small = omega (arith, pow-succ' 2 k)
