-- ===== src/Base/Bits.antt =====
-- When the bitwise operations on two numbers give 0.
use Prim.Native.Nat.{
  ℕ, zero, suc, ◌+◌, ◌/◌, ◌%◌, ◌≤◌, max, bit_or, bit_or-bitwise, bit_xor, bit_xor-bitwise, digits,
  differ,
}
use mathlib.Core.Path.{◌≡◌, refl, ◌∙◌, sym}
use mathlib.Core.Logic.{◌↔◌}
use native.Mathlib.Omega.{arith}

differ-zero : (x y : ℕ) → differ x y ≡ 0 → x ≡ y
differ-zero zero y h = omega (arith, h)
differ-zero (suc x) zero h = omega (arith, h)
differ-zero (suc x) (suc y) h = omega (arith, differ-zero x y h)

differ_self : (x : ℕ) → differ x x ≡ 0
differ_self zero = refl
differ_self (suc x) = differ_self x

differ_le : (x y : ℕ) → differ x y ≤ x + y
differ_le zero y = omega arith
differ_le (suc x) zero = omega arith
differ_le (suc x) (suc y) = omega (arith, differ_le x y)

xor_digits_le : (n a b : ℕ) → a ≤ n → digits (λ b. b) differ n a b ≤ a + b
xor_digits_le zero a b le = omega arith
xor_digits_le (suc n) zero b le = omega arith
xor_digits_le (suc n) (suc a) b le =
    let high = xor_digits_le n (suc a / 2) (b / 2) (omega arith) in
    let low = differ_le (suc a % 2) (b % 2) in omega (arith, high, low)

pub xor_le : (a b : ℕ) → bit_xor a b ≤ a + b
xor_le a b =
    let e : bit_xor a b ≡ digits (λ b. b) differ a a b = λ i. bit_xor-bitwise a b i in
    omega (arith, e, xor_digits_le a a b (omega arith))

xor_digits : (n a b : ℕ) → a ≤ n → digits (λ b. b) differ n a b ≡ 0 → a ≡ b
xor_digits zero a b le h = omega (arith, h)
xor_digits (suc n) zero b le h = omega (arith, h)
xor_digits (suc n) (suc a) b le h =
    let high : suc a / 2 ≡ b / 2 =
      xor_digits n (suc a / 2) (b / 2) (omega arith) (omega (arith, h)) in
    let low : suc a % 2 ≡ b % 2 = differ-zero (suc a % 2) (b % 2) (omega (arith, h)) in omega arith

xor_digits_self : (n a : ℕ) → a ≤ n → digits (λ b. b) differ n a a ≡ 0
xor_digits_self zero a le = omega arith
xor_digits_self (suc n) zero le = refl
xor_digits_self (suc n) (suc a) le =
    let high = xor_digits_self n (suc a / 2) (omega arith) in
    let low = differ_self (suc a % 2) in omega (arith, high, low)

pub xor_zero_iff : (a b : ℕ) → (bit_xor a b ≡ 0) ↔ (a ≡ b)
xor_zero_iff a b = (
  λ h. xor_digits a a b (omega arith) (sym (λ i. bit_xor-bitwise a b i) ∙ h),
  λ e. rw e ((λ i. bit_xor-bitwise b b i) ∙ xor_digits_self b b (omega arith)),
)

or_digits : (n a b : ℕ) → a ≤ n → digits (λ b. b) max n a b ≡ 0 → (a ≡ 0) × (b ≡ 0)
or_digits zero a b le h = (omega arith, h)
or_digits (suc n) zero b le h = (refl, h)
or_digits (suc n) (suc a) b le h =
    let high = or_digits n (suc a / 2) (b / 2) (omega arith) (omega (arith, h)) in
    let low : max (suc a % 2) (b % 2) ≡ 0 = omega (arith, h) in
    (omega (arith, high.0, low), omega (arith, high.1, low))

pub or_zero_iff : (a b : ℕ) → (bit_or a b ≡ 0) ↔ ((a ≡ 0) × (b ≡ 0))
or_zero_iff a b = (
  λ h. or_digits a a b (omega arith) (sym (λ i. bit_or-bitwise a b i) ∙ h),
  λ e. rw (e.0, e.1) refl,
)
