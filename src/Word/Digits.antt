-- ===== src/Word/Digits.antt =====
-- The operations on binary digits, digit by digit and at any shift.
use pkcs11_provider.Base.{
  ℕ, zero, suc, ◌+◌, ◌-◌, ◌*◌, ◌/◌, ◌%◌, ◌^◌, ◌≤◌, ◌<◌, bit_and, bit_or, bit_xor, ◌≡◌, refl, sym,
  ap, ap₂, ◌⊎◌, inl, inr, arith,
}
use native.Mathlib.Nat.{pow-suc, div-div-eq-div-mul}
use Prim.Native.Nat.{
  min, max, differ, digits, bitwise, bit_and-bitwise, bit_or-bitwise, bit_xor-bitwise,
}

-- Any amount of fuel that covers the first number gives the same digits.
digits_enough :
    (z : ℕ → ℕ) (f : ℕ → ℕ → ℕ) (n m a b : ℕ) → a ≤ n → a ≤ m → digits z f n a b ≡ digits z f m a b
digits_enough z f zero zero a b p q = refl
digits_enough z f zero (suc m) zero b p q = refl
digits_enough z f zero (suc m) (suc a) b p q = absurd (omega arith)
digits_enough z f (suc n) zero zero b p q = refl
digits_enough z f (suc n) zero (suc a) b p q = absurd (omega arith)
digits_enough z f (suc n) (suc m) zero b p q = refl
digits_enough z f (suc n) (suc m) (suc a) b p q =
    rw (digits_enough z f n m (suc a / 2) (b / 2) (omega arith) (omega arith))

bitwise_digit :
    (z : ℕ → ℕ) (f : ℕ → ℕ → ℕ) (a b : ℕ)
    → bitwise z f (suc a) b ≡ bitwise z f (suc a / 2) (b / 2) * 2 + f (suc a % 2) (b % 2)
bitwise_digit z f a b =
    omega (arith, digits_enough z f a (suc a / 2) (suc a / 2) (b / 2) (omega arith) (omega arith))

pub xor_digit : (a b : ℕ) → bit_xor a b ≡ bit_xor (a / 2) (b / 2) * 2 + differ (a % 2) (b % 2)
xor_digit zero b = simp bit_xor-bitwise (omega arith)
xor_digit (suc a) b = simp bit_xor-bitwise (bitwise_digit (λ y. y) differ a b)

pub or_digit : (a b : ℕ) → bit_or a b ≡ bit_or (a / 2) (b / 2) * 2 + max (a % 2) (b % 2)
or_digit zero b = simp bit_or-bitwise (omega arith)
or_digit (suc a) b = simp bit_or-bitwise (bitwise_digit (λ y. y) max a b)

pub and_digit : (a b : ℕ) → bit_and a b ≡ bit_and (a / 2) (b / 2) * 2 + min (a % 2) (b % 2)
and_digit zero b = simp bit_and-bitwise (omega arith)
and_digit (suc a) b = simp bit_and-bitwise (bitwise_digit (λ y. 0) min a b)

bit_cases : (n : ℕ) → (n % 2 ≡ 0) ⊎ (n % 2 ≡ 1)
bit_cases n = ground (arith, mod-two n)
  where
    mod-two : (m : ℕ) → m % 2 < 2
    mod-two m = omega arith

differ-lt : (a b : ℕ) → differ (a % 2) (b % 2) < 2
differ-lt a b = elim (bit_cases a) [
  | inl p ↦ elim (bit_cases b) [ inl q ↦ rw (p, q) (omega arith) | inr q ↦ rw (p, q) (omega arith) ]
  | inr p ↦ elim (bit_cases b) [ inl q ↦ rw (p, q) (omega arith) | inr q ↦ rw (p, q) (omega arith) ]
]

div-pow-suc : (x k : ℕ) → x / 2 ^ suc k ≡ x / 2 ^ k / 2
div-pow-suc x k = rw (pow-suc 2 k) (sym (div-div-eq-div-mul x (2 ^ k) 2))

-- An operation that works digit by digit commutes with a shift.
module _ (op : ℕ → ℕ → ℕ) (halve : (a b : ℕ) → op a b / 2 ≡ op (a / 2) (b / 2)) where
  shift : (k a b : ℕ) → op a b / 2 ^ k ≡ op (a / 2 ^ k) (b / 2 ^ k)
  shift zero a b = omega (arith, ap₂ op (one a) (one b))
    where
      one : (x : ℕ) → x / 1 ≡ x
      one x = omega arith
  shift (suc k) a b =
      rw
        (
          div-pow-suc (op a b) k,
          div-pow-suc a k,
          div-pow-suc b k,
          shift k a b,
          halve (a / 2 ^ k) (b / 2 ^ k),
        )
        refl

pub xor-shift : (k a b : ℕ) → bit_xor a b / 2 ^ k ≡ bit_xor (a / 2 ^ k) (b / 2 ^ k)
xor-shift = shift bit_xor (λ a b. omega (arith, xor_digit a b, differ-lt a b))

pub or-shift : (k a b : ℕ) → bit_or a b / 2 ^ k ≡ bit_or (a / 2 ^ k) (b / 2 ^ k)
or-shift = shift bit_or (λ a b. omega (arith, or_digit a b))

pub and-shift : (k a b : ℕ) → bit_and a b / 2 ^ k ≡ bit_and (a / 2 ^ k) (b / 2 ^ k)
and-shift = shift bit_and (λ a b. omega (arith, and_digit a b))

differ-zero : (x y : ℕ) → differ x y ≡ 0 → x ≡ y
differ-zero zero y e = sym e
differ-zero (suc x) zero e = e
differ-zero (suc x) (suc y) e = ap suc (differ-zero x y e)

-- Numbers differ in no digit only if they are equal.
xor_fuel : (n a b : ℕ) → a ≤ n → b ≤ n → bit_xor a b ≡ 0 → a ≡ b
xor_fuel zero a b p q e = omega arith
xor_fuel (suc n) a b p q e =
    let half : bit_xor (a / 2) (b / 2) ≡ 0 = omega (arith, xor_digit a b) in
    let last : differ (a % 2) (b % 2) ≡ 0 = omega (arith, xor_digit a b) in
    omega (
      arith,
      xor_fuel n (a / 2) (b / 2) (omega arith) (omega arith) half,
      differ-zero (a % 2) (b % 2) last,
    )

pub xor-zero : (a b : ℕ) → bit_xor a b ≡ 0 → a ≡ b
xor-zero a b e = xor_fuel (a + b) a b (omega arith) (omega arith) e

differ_self : (x : ℕ) → differ x x ≡ 0
differ_self zero = refl
differ_self (suc x) = differ_self x

self_fuel : (n a : ℕ) → a ≤ n → bit_xor a a ≡ 0
self_fuel zero a p = let e : a ≡ 0 = omega arith in rw e refl
self_fuel (suc n) a p =
    omega (arith, xor_digit a a, self_fuel n (a / 2) (omega arith), differ_self (a % 2))

pub xor_self : (a : ℕ) → bit_xor a a ≡ 0
xor_self a = self_fuel a a (omega arith)

-- A mask of zeros and a mask of ones.
pub and-zero : (a : ℕ) → bit_and a 0 ≡ 0
and-zero a = and_zero_fuel a a (omega arith)
  where
    and_zero_fuel : (n a : ℕ) → a ≤ n → bit_and a 0 ≡ 0
    and_zero_fuel zero a p = let e : a ≡ 0 = omega arith in rw e refl
    and_zero_fuel (suc n) a p = omega (arith, and_digit a 0, and_zero_fuel n (a / 2) (omega arith))

pub or-zero : (a : ℕ) → bit_or a 0 ≡ a
or-zero a = or_zero_fuel a a (omega arith)
  where
    or_zero_fuel : (n a : ℕ) → a ≤ n → bit_or a 0 ≡ a
    or_zero_fuel zero a p = let e : a ≡ 0 = omega arith in rw e refl
    or_zero_fuel (suc n) a p = omega (arith, or_digit a 0, or_zero_fuel n (a / 2) (omega arith))

pub zero-or : (a : ℕ) → bit_or 0 a ≡ a
zero-or a = omega (arith, bit_or-bitwise 0 a)

pub zero-and : (a : ℕ) → bit_and 0 a ≡ 0
zero-and a = omega (arith, bit_and-bitwise 0 a)

half-ones : (k : ℕ) → (2 ^ suc k - 1) / 2 ≡ 2 ^ k - 1
half-ones k = omega (arith, pow-suc 2 k)

pub and_ones : (k a : ℕ) → a < 2 ^ k → bit_and a (2 ^ k - 1) ≡ a
and_ones zero a l = let e : a ≡ 0 = omega arith in rw e refl
and_ones (suc k) a l = omega (
  arith,
  and_digit a (2 ^ suc k - 1),
  pow-suc 2 k,
  and_ones k (a / 2) (omega (arith, pow-suc 2 k)),
  ap (λ m. bit_and (a / 2) m) (half-ones k),
)

pub ones-and : (k a : ℕ) → a < 2 ^ k → bit_and (2 ^ k - 1) a ≡ a
ones-and zero a l = let e : a ≡ 0 = omega arith in rw e refl
ones-and (suc k) a l = omega (
  arith,
  and_digit (2 ^ suc k - 1) a,
  pow-suc 2 k,
  ones-and k (a / 2) (omega (arith, pow-suc 2 k)),
  ap (λ m. bit_and m (a / 2)) (half-ones k),
)
