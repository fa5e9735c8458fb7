-- ===== src/Base/Bits.antt =====
-- Exclusive or at variables: one equation for the lowest digit, and what follows from it.
use Prim.Native.Nat.{
  ℕ, zero, suc, ◌+◌, ◌*◌, ◌/◌, ◌%◌, ◌≤◌, ◌<◌, bit_xor, bit_xor-bitwise, digits, differ,
}
use mathlib.Core.Path.{◌≡◌, refl, ap}
use native.Mathlib.Omega.{arith}

abbrev xor_digits : ℕ → ℕ → ℕ → ℕ
xor_digits n a b = digits (λ y. y) differ n a b

xor_digits_fuel : (n m a b : ℕ) → a ≤ n → a ≤ m → xor_digits n a b ≡ xor_digits m a b
xor_digits_fuel zero zero a b p q = refl
xor_digits_fuel zero (suc m) zero b p q = refl
xor_digits_fuel zero (suc m) (suc a) b p q = absurd (omega arith)
xor_digits_fuel (suc n) zero zero b p q = refl
xor_digits_fuel (suc n) zero (suc a) b p q = absurd (omega arith)
xor_digits_fuel (suc n) (suc m) zero b p q = refl
xor_digits_fuel (suc n) (suc m) (suc a) b p q =
    omega (arith, xor_digits_fuel n m (suc a / 2) (b / 2) (omega arith) (omega arith))

differ_sum : (x y : ℕ) → x < 2 → y < 2 → differ x y ≡ (x + y) % 2
differ_sum zero y p q = omega arith
differ_sum (suc zero) zero p q = refl
differ_sum (suc zero) (suc zero) p q = refl
differ_sum (suc zero) (suc (suc y)) p q = absurd (omega arith)
differ_sum (suc (suc x)) y p q = absurd (omega arith)

-- The lowest digit is the sum of the two lowest digits, and the rest is the xor of the rest.
pub bit_xor_step : (a b : ℕ) → bit_xor a b ≡ bit_xor (a / 2) (b / 2) * 2 + (a % 2 + b % 2) % 2
bit_xor_step zero b = omega (arith, bit_xor-bitwise 0 b, bit_xor-bitwise 0 (b / 2))
bit_xor_step (suc a) b = omega (
  arith,
  bit_xor-bitwise (suc a) b,
  bit_xor-bitwise (suc a / 2) (b / 2),
  differ_sum (suc a % 2) (b % 2) (omega arith) (omega arith),
  xor_digits_fuel a (suc a / 2) (suc a / 2) (b / 2) (omega arith) (omega arith),
)

pub bit_xor-div : (a b : ℕ) → bit_xor a b / 2 ≡ bit_xor (a / 2) (b / 2)
bit_xor-div a b = omega (arith, bit_xor_step a b)

pub bit_xor-mod : (a b : ℕ) → bit_xor a b % 2 ≡ (a + b) % 2
bit_xor-mod a b = omega (arith, bit_xor_step a b)

bit_xor_cancel_fuel : (n a b c : ℕ) → a ≤ n → b ≤ n → bit_xor a c ≡ bit_xor b c → a ≡ b
bit_xor_cancel_fuel zero a b c p q e = omega arith
bit_xor_cancel_fuel (suc n) a b c p q e = omega (
  arith,
  bit_xor_step a c,
  bit_xor_step b c,
  bit_xor_cancel_fuel n (a / 2) (b / 2) (c / 2) (omega arith) (omega arith)
      (omega (arith, bit_xor_step a c, bit_xor_step b c)),
)

pub bit_xor_cancel : (a b c : ℕ) → bit_xor a c ≡ bit_xor b c → a ≡ b
bit_xor_cancel a b c e = bit_xor_cancel_fuel (a + b) a b c (omega arith) (omega arith) e

-- `a` without its `k` lowest digits.
abbrev pub halves : ℕ → ℕ → ℕ
halves zero a = a
halves (suc k) a = halves k (a / 2)

-- The `w` lowest digits of `a`.
abbrev pub low : ℕ → ℕ → ℕ
low zero a = 0
low (suc w) a = low w (a / 2) * 2 + a % 2

pub halves-bit_xor : (k a b : ℕ) → halves k (bit_xor a b) ≡ bit_xor (halves k a) (halves k b)
halves-bit_xor zero a b = refl
halves-bit_xor (suc k) a b = rw (bit_xor-div a b) (halves-bit_xor k (a / 2) (b / 2))

-- Numbers that agree but for `k` low digits agree but for more of them.
pub halves_more : (k m a b : ℕ) → k ≤ m → halves k a ≡ halves k b → halves m a ≡ halves m b
halves_more zero m a b h e = ap (halves m) e
halves_more (suc k) zero a b h e = absurd (omega arith)
halves_more (suc k) (suc m) a b h e = halves_more k m (a / 2) (b / 2) (omega arith) e

-- The low digits of an exclusive or come from the low digits of its arguments.
pub low-bit_xor : (w a b c : ℕ) → low w a ≡ low w b → low w (bit_xor a c) ≡ low w (bit_xor b c)
low-bit_xor zero a b c e = refl
low-bit_xor (suc w) a b c e =
    rw (bit_xor-div a c, bit_xor-div b c)
      (omega (
        arith,
        bit_xor-mod a c,
        bit_xor-mod b c,
        low-bit_xor w (a / 2) (b / 2) (c / 2) (omega arith),
      ))

pub low_16 : (a : ℕ) → low 16 a ≡ a % 65536
low_16 a = omega arith

pub low-bit_xor_cancel :
    (w a b c : ℕ) → low w (bit_xor a c) ≡ low w (bit_xor b c) → low w a ≡ low w b
low-bit_xor_cancel zero a b c e = refl
low-bit_xor_cancel (suc w) a b c e = omega (
  arith,
  bit_xor-mod a c,
  bit_xor-mod b c,
  low-bit_xor_cancel w (a / 2) (b / 2) (c / 2)
      (rw (← bit_xor-div a c, ← bit_xor-div b c) (omega (arith, bit_xor-mod a c, bit_xor-mod b c))),
)
