-- ===== src/Cipher/Unpad/Padding.antt =====
-- The loop over the padding bytes in `tlsunpad`, and the mask that it ends with.
use pkcs11_provider.Base.{
  ℕ, zero, suc, ◌+◌, ◌-◌, ◌/◌, ◌%◌, ◌^◌, ◌≤◌, ◌<◌, bit_and, bit_xor, ◌≡◌, refl, inl, inr, some,
  List, arith, ltb, if◌then◌else◌, Bool-cases, length, get_elem?-lt,
}
use pkcs11_provider.Word.Masks.{
  constant_smaller_mask_lem, constant_equal_mask_far, constant_equal_mask_small,
}
use pkcs11_provider.Cipher.Unpad.{pad_loop, max_padding}
use pkcs11_provider.Word.{complement, constant_equal_mask, minus, constant_smaller_mask, ulong_max}
use pkcs11_provider.Word.Digits.{and-shift, zero-and, xor-shift}

-- All bits above the lowest byte are set.
abbrev IsHigh : ℕ → Type 0
IsHigh pass = pass / 2 ^ 8 ≡ 2 ^ 56 - 1

byte-and : (m y : ℕ) → m < 256 → bit_and m y < 256
byte-and m y l =
    let z : m / 2 ^ 8 ≡ 0 = omega arith in
    let e : bit_and m y / 2 ^ 8 ≡ 0 = rw (and-shift 8 m y, z, zero-and (y / 2 ^ 8)) refl in
    omega arith

complement-IsHigh : (pass x : ℕ) → x < 256 → IsHigh pass → IsHigh (bit_and pass (complement x))
complement-IsHigh pass x l high =
    let e : complement x / 2 ^ 8 ≡ 2 ^ 56 - 1 = omega arith in
    rw (and-shift 8 pass (complement x), high, e) refl

-- Whatever the bytes are, the loop reads within the buffer and changes only the lowest byte of `pass`.
module _ (out : List ℕ) (off olen padsize : ℕ) (whole : off + olen ≤ length out)
    (small : olen < 2 ^ 63) where
  pad_loop-IsHigh :
      (rounds i pass : ℕ)
      → i + rounds + 1 ≤ olen
      → IsHigh pass
      → (p : ℕ) × (pad_loop out off olen padsize rounds i pass ≡ some p) × IsHigh p
  unfolding pad_loop
  pad_loop-IsHigh zero i pass l high = (pass, refl, high)
  pad_loop-IsHigh (suc rounds) i pass l high =
      let (byte, there) = get_elem?-lt out (off + minus (minus olen i) 2) (omega arith) in
      let mask = constant_smaller_mask i padsize % 256 in
      rw (there, pad_loop)
        (pad_loop-IsHigh rounds (suc i) _ (omega arith) (
          complement-IsHigh pass (bit_and mask (bit_xor padsize byte))
            (byte-and mask (bit_xor padsize byte) (omega arith)) high))

  pad_loop-zero :
      (rounds i : ℕ) → i + rounds + 1 ≤ olen → pad_loop out off olen padsize rounds i 0 ≡ some 0
  unfolding pad_loop
  pad_loop-zero zero i l = refl
  pad_loop-zero (suc rounds) i l =
      let (byte, there) = get_elem?-lt out (off + minus (minus olen i) 2) (omega arith) in
      let mask = constant_smaller_mask i padsize % 256 in
      rw (there, pad_loop, zero-and (complement (bit_and mask (bit_xor padsize byte))))
        (pad_loop-zero rounds (suc i) (omega arith))

-- Such a `pass` differs from 0xff in its highest bit, and so it counts as equal to it.
equal_mask-IsHigh : (pass : ℕ) → IsHigh pass → constant_equal_mask pass 0xff ≡ ulong_max
equal_mask-IsHigh pass high =
    let top : bit_xor pass 0xff / 2 ^ 8 ≡ 2 ^ 56 - 1 = rw (xor-shift 8 pass 0xff, high) refl in
    constant_equal_mask_far pass 0xff (omega arith) (omega arith)

-- The mask behind the check is all ones if the padding with its length byte and the MAC fit into the
-- record, and all zeros if not. The padding bytes do not matter.
pub checked_mask :
    (out : List ℕ) (off olen padsize need : ℕ)
    → off + olen ≤ length out
    → olen < 2 ^ 63
    → need < 2 ^ 63
    → 0 < olen
    → (p : ℕ) × (pad_loop out off olen padsize
          ((if ltb olen max_padding then olen else max_padding) - 1)
          0
          (complement (constant_smaller_mask olen need))
        ≡ some p)
      × (constant_equal_mask p 0xff ≡ (if ltb olen need then 0 else ulong_max))
checked_mask out off olen padsize need whole small small' pos =
    let rounds = (if ltb olen max_padding then olen else max_padding) - 1 in
    let fits : rounds + 1 ≤ olen = ground arith in
    elim (Bool-cases (ltb olen need)) [
      | inl short ↦
          rw (constant_smaller_mask_lem olen need (omega arith) (omega arith), short)
            (
              0,
              pad_loop-zero out off olen padsize whole small rounds 0 (omega arith),
              constant_equal_mask_small 0 0xff (omega arith) (omega arith),
            )
      | inr enough ↦
          let (p, e, high) =
            pad_loop-IsHigh out off olen padsize whole small rounds 0 ulong_max (omega arith)
              refl in
          rw (constant_smaller_mask_lem olen need (omega arith) (omega arith), enough)
            (p, e, equal_mask-IsHigh p high)
    ]
