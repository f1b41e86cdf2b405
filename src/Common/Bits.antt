-- ===== src/Common/Bits.antt =====
-- The exclusive or of two numbers, as the ciphers use it: applied twice with one key, it undoes
-- itself.
use Prim.Native.Nat.{digits, differ, bit_xor-bitwise}
use native.Mathlib.Nat.{pow-suc}
use open_fusion.Common.{
  ℕ, zero, suc, ◌+◌, ◌*◌, ◌/◌, ◌%◌, ◌^◌, ◌≤◌, ◌<◌, ◌≡◌, refl, ap, arith, bit_xor,
}

abbrev xor_digits : ℕ → ℕ → ℕ → ℕ
xor_digits n a b = digits (λ b. b) differ n a b

xor_digits_fuel : (n m a b : ℕ) → a ≤ n → a ≤ m → xor_digits n a b ≡ xor_digits m a b
xor_digits_fuel zero zero a b p q = refl
xor_digits_fuel zero (suc m) zero b p q = refl
xor_digits_fuel zero (suc m) (suc a) b p q = absurd (omega arith)
xor_digits_fuel (suc n) zero zero b p q = refl
xor_digits_fuel (suc n) zero (suc a) b p q = absurd (omega arith)
xor_digits_fuel (suc n) (suc m) zero b p q = refl
xor_digits_fuel (suc n) (suc m) (suc a) b p q =
    omega (arith, xor_digits_fuel n m (suc a / 2) (b / 2) (omega arith) (omega arith))

pub zero-bit_xor : (b : ℕ) → bit_xor 0 b ≡ b
zero-bit_xor b = bit_xor-bitwise 0 b

-- The two laws of a single digit.
differ-lt : (d e : ℕ) → d < 2 → e < 2 → differ d e < 2
differ-lt zero e p q = q
differ-lt (suc zero) zero p q = omega arith
differ-lt (suc zero) (suc zero) p q = omega arith
differ-lt (suc zero) (suc (suc e)) p q = absurd (omega arith)
differ-lt (suc (suc d)) e p q = absurd (omega arith)

differ_undo : (d e : ℕ) → d < 2 → e < 2 → differ (differ d e) e ≡ d
differ_undo zero zero p q = refl
differ_undo zero (suc zero) p q = refl
differ_undo zero (suc (suc e)) p q = absurd (omega arith)
differ_undo (suc zero) zero p q = refl
differ_undo (suc zero) (suc zero) p q = refl
differ_undo (suc zero) (suc (suc e)) p q = absurd (omega arith)
differ_undo (suc (suc d)) e p q = absurd (omega arith)

pub bit_xor_step : (a b : ℕ) → bit_xor a b ≡ bit_xor (a / 2) (b / 2) * 2 + differ (a % 2) (b % 2)
bit_xor_step zero b = omega (arith, zero-bit_xor b, zero-bit_xor (b / 2))
bit_xor_step (suc a) b = omega (
  arith,
  bit_xor-bitwise (suc a) b,
  bit_xor-bitwise (suc a / 2) (b / 2),
  xor_digits_fuel a (suc a / 2) (suc a / 2) (b / 2) (omega arith) (omega arith),
)

-- The parts of an exclusive or: its lowest digit, and the rest.
bit_xor-half : (a b : ℕ) → bit_xor a b / 2 ≡ bit_xor (a / 2) (b / 2)
bit_xor-half a b =
    omega (arith, bit_xor_step a b, differ-lt (a % 2) (b % 2) (omega arith) (omega arith))

bit_xor-digit : (a b : ℕ) → bit_xor a b % 2 ≡ differ (a % 2) (b % 2)
bit_xor-digit a b =
    omega (arith, bit_xor_step a b, differ-lt (a % 2) (b % 2) (omega arith) (omega arith))

bit_xor_undo_below : (n a k : ℕ) → a ≤ n → k ≤ n → bit_xor (bit_xor a k) k ≡ a
bit_xor_undo_below zero zero zero p q = refl
bit_xor_undo_below zero zero (suc k) p q = absurd (omega arith)
bit_xor_undo_below zero (suc a) k p q = absurd (omega arith)
bit_xor_undo_below (suc n) a k p q =
    rw (bit_xor_step (bit_xor a k) k, bit_xor-half a k, bit_xor-digit a k)
      (omega (
        arith,
        bit_xor_undo_below n (a / 2) (k / 2) (omega arith) (omega arith),
        differ_undo (a % 2) (k % 2) (omega arith) (omega arith),
      ))

-- A key undoes itself.
pub bit_xor_undo : (a k : ℕ) → bit_xor (bit_xor a k) k ≡ a
bit_xor_undo a k = bit_xor_undo_below (a + k) a k (omega arith) (omega arith)

-- Two bytes give a byte.
bit_xor-lt-pow : (w a b : ℕ) → a < 2 ^ w → b < 2 ^ w → bit_xor a b < 2 ^ w
bit_xor-lt-pow zero a b p q =
    omega (arith, ap (λ (t : ℕ). bit_xor t b) (zero_of a p), zero-bit_xor b)
  where
    zero_of : (t : ℕ) → t < 2 ^ 0 → t ≡ 0
    zero_of t h = omega arith
bit_xor-lt-pow (suc w) a b p q = omega (
  arith,
  pow-suc 2 w,
  bit_xor_step a b,
  differ-lt (a % 2) (b % 2) (omega arith) (omega arith),
  bit_xor-lt-pow w (a / 2) (b / 2) (omega (arith, pow-suc 2 w)) (omega (arith, pow-suc 2 w)),
)

pub bit_xor-lt-256 : (a b : ℕ) → a < 256 → b < 256 → bit_xor a b < 256
bit_xor-lt-256 a b p q = bit_xor-lt-pow 8 a b p q
