-- ===== src/Word/Masks.antt =====
-- What the helpers of src/util.h compute, as comparisons.
use pkcs11_provider.Base.{
  ℕ, ◌/◌, ◌^◌, ◌<◌, bit_or, bit_xor, ◌≡◌, refl, ap₂, ◌≢◌, ◌⊎◌, inl, inr, Bool, true, false, List,
  [], ◌∷◌, arith, ltb, ◌==◌, if◌then◌else◌, Bool-cases, length, AreBytes,
}
use pkcs11_provider.Word.Digits.{
  xor-shift, or-shift, xor_self, xor-zero, and_ones, and-zero, or-zero, zero-or,
}
use pkcs11_provider.Word.{
  minus, constant_smaller_mask, ulong_max, constant_equal, constant_equal_mask,
  constant_select_byte_mask, constant_select_buf, constant_select_int,
}

-- The sign bits of the operands decide what the formula's sign bit is.
sign : (a : ℕ) → a < 2 ^ 64 → (a / 2 ^ 63 ≡ 0) ⊎ (a / 2 ^ 63 ≡ 1)
sign a l = ground (arith, small)
  where
    small : a / 2 ^ 63 < 2
    small = omega arith

smaller_sign :
    (a b : ℕ)
    → bit_xor a (bit_or (bit_xor a b) (bit_xor (minus a b) b)) / 2 ^ 63
      ≡ bit_xor
          (a / 2 ^ 63)
          (bit_or (bit_xor (a / 2 ^ 63) (b / 2 ^ 63)) (bit_xor (minus a b / 2 ^ 63) (b / 2 ^ 63)))
smaller_sign a b =
    rw
      (
        xor-shift 63 a (bit_or (bit_xor a b) (bit_xor (minus a b) b)),
        or-shift 63 (bit_xor a b) (bit_xor (minus a b) b),
        xor-shift 63 a b,
        xor-shift 63 (minus a b) b,
      )
      refl

-- `constant_smaller_mask` is all ones if the first of two `CK_ULONG`s is smaller, and all zeros if not.
pub constant_smaller_mask_lem :
    (a b : ℕ)
    → a < 2 ^ 64
    → b < 2 ^ 64
    → constant_smaller_mask a b ≡ (if ltb a b then ulong_max else 0)
unfolding constant_smaller_mask
constant_smaller_mask_lem a b la lb =
    let lm : minus a b < 2 ^ 64 = omega arith in
    elim (sign a la) [
      | inl p ↦ elim (sign b lb) [
        | inl q ↦ elim (sign (minus a b) lm) [
          | inl r ↦ rw (smaller_sign a b, p, q, r) (ground arith)
          | inr r ↦ rw (smaller_sign a b, p, q, r) (ground arith)
        ]
        | inr q ↦ elim (sign (minus a b) lm) [
          | inl r ↦ rw (smaller_sign a b, p, q, r) (ground arith)
          | inr r ↦ rw (smaller_sign a b, p, q, r) (ground arith)
        ]
      ]
      | inr p ↦ elim (sign b lb) [
        | inl q ↦ elim (sign (minus a b) lm) [
          | inl r ↦ rw (smaller_sign a b, p, q, r) (ground arith)
          | inr r ↦ rw (smaller_sign a b, p, q, r) (ground arith)
        ]
        | inr q ↦ elim (sign (minus a b) lm) [
          | inl r ↦ rw (smaller_sign a b, p, q, r) (ground arith)
          | inr r ↦ rw (smaller_sign a b, p, q, r) (ground arith)
        ]
      ]
    ]

-- For numbers that differ by less than the sign bit, in the bitwise sense, `constant_equal` tests for
-- equality.
xor-lt : (a b : ℕ) → a < 2 ^ 63 → b < 2 ^ 63 → bit_xor a b < 2 ^ 63
xor-lt a b la lb =
    let p : a / 2 ^ 63 ≡ 0 = omega arith in
    let q : b / 2 ^ 63 ≡ 0 = omega arith in
    let top : bit_xor a b / 2 ^ 63 ≡ 0 = rw (xor-shift 63 a b, p, q) refl in omega arith

pub constant_equal_small :
    (a b : ℕ) → a < 2 ^ 63 → b < 2 ^ 63 → constant_equal a b ≡ (if a == b then 1 else 0)
unfolding constant_equal
constant_equal_small a b la lb = elim (Bool-cases (a == b)) [
  | inl same ↦ let e : a ≡ b = ground arith in rw (same, e, xor_self b) refl
  | inr other ↦
      let ne : bit_xor a b ≢ 0 = λ z. let e : a ≡ b = xor-zero a b z in ground arith in
      rw other (ground (arith, xor-lt a b la lb, ne))
]

-- With the sign bit set in one of the two numbers only, and more than that, it says "equal".
pub constant_equal_far :
    (a b : ℕ) → 2 ^ 63 < bit_xor a b → bit_xor a b < 2 ^ 64 → constant_equal a b ≡ 1
unfolding constant_equal
constant_equal_far a b far l = omega arith

pub constant_equal_mask_far :
    (a b : ℕ) → 2 ^ 63 < bit_xor a b → bit_xor a b < 2 ^ 64 → constant_equal_mask a b ≡ ulong_max
unfolding constant_equal_mask
constant_equal_mask_far a b far l = rw (constant_equal_far a b far l) refl

pub constant_equal_mask_small :
    (a b : ℕ)
    → a < 2 ^ 63
    → b < 2 ^ 63
    → constant_equal_mask a b ≡ (if a == b then ulong_max else 0)
unfolding constant_equal_mask
constant_equal_mask_small a b la lb = elim (Bool-cases (a == b)) [
  | inl same ↦ rw (constant_equal_small a b la lb, same) refl
  | inr other ↦ rw (constant_equal_small a b la lb, other) refl
]

-- A mask of ones selects the first byte, and a mask of zeros the second.
pub constant_select_byte_mask_lem :
    (a b : ℕ) (c : Bool)
    → a < 256
    → b < 256
    → constant_select_byte_mask a b (if c then 255 else 0) ≡ (if c then a else b)
unfolding constant_select_byte_mask
constant_select_byte_mask_lem a b true la lb = rw (and_ones 8 a la, and-zero b, or-zero a) refl
constant_select_byte_mask_lem a b false la lb = rw (and-zero a, and_ones 8 b lb, zero-or b) refl

-- `constant_select_buf` copies the first buffer if `cond` is 1, and the second if it is 0.
pub constant_select_buf_lem :
    (c : Bool) (as' bs : List ℕ)
    → AreBytes as'
    → AreBytes bs
    → length as' ≡ length bs
    → constant_select_buf (if c then 1 else 0) as' bs ≡ (if c then as' else bs)
unfolding constant_select_buf
constant_select_buf_lem true [] bs la lb same = refl
constant_select_buf_lem false [] [] la lb same = refl
constant_select_buf_lem false [] (b ∷ bs) la lb same = absurd (omega (arith, same))
constant_select_buf_lem c (a ∷ as') [] la lb same = absurd (omega (arith, same))
constant_select_buf_lem true (a ∷ as') (b ∷ bs) la lb same =
    ap₂ ◌∷◌ (constant_select_byte_mask_lem a b true la.0 lb.0)
      (constant_select_buf_lem true as' bs la.1 lb.1 (omega (arith, same)))
constant_select_buf_lem false (a ∷ as') (b ∷ bs) la lb same =
    ap₂ ◌∷◌ (constant_select_byte_mask_lem a b false la.0 lb.0)
      (constant_select_buf_lem false as' bs la.1 lb.1 (omega (arith, same)))

-- `constant_select_int` is its second argument if `cond` is 1, and the third if it is 0.
pub constant_select_int_lem :
    (a b : ℕ) (c : Bool)
    → a < 2 ^ 32
    → b < 2 ^ 32
    → constant_select_int (if c then 1 else 0) a b ≡ (if c then a else b)
unfolding constant_select_int
constant_select_int_lem a b true la lb = rw (and_ones 32 a la, and-zero b, or-zero a) refl
constant_select_int_lem a b false la lb = rw (and-zero a, and_ones 32 b lb, zero-or b) refl
