-- ===== src/Word.antt =====
-- The helpers of src/util.h that work without a branch on secret data, on a `CK_ULONG` of 64 bits, an
-- `int` of 32 and bytes. The files below relate them to the comparisons that they stand for.
pub mod Digits
pub mod Masks
use pkcs11_provider.Base.{ℕ, ◌+◌, ◌-◌, ◌/◌, ◌%◌, ◌^◌, bit_and, bit_or, bit_xor, List, [], ◌∷◌}

abbrev pub ulong_max : ℕ
ulong_max = 2 ^ 64 - 1

-- `~` and `-` on a `CK_ULONG`.
abbrev pub complement : ℕ → ℕ
complement a = ulong_max - a

abbrev pub minus : ℕ → ℕ → ℕ
minus a b = (a + 2 ^ 64 - b) % 2 ^ 64

-- All ones if `a` is smaller than `b`, all zeros if not.
pub constant_smaller_mask : ℕ → ℕ → ℕ
constant_smaller_mask a b =
    minus 0 (bit_xor a (bit_or (bit_xor a b) (bit_xor (minus a b) b)) / 2 ^ 63)

pub constant_equal : ℕ → ℕ → ℕ
constant_equal a b = minus (bit_xor a b) 1 / 2 ^ 63

pub constant_equal_mask : ℕ → ℕ → ℕ
unfolding constant_equal
constant_equal_mask a b = minus 0 (constant_equal a b)

-- On the bit patterns of two `int`s.
pub constant_select_int : ℕ → ℕ → ℕ → ℕ
constant_select_int cond a b =
    let mask = (2 ^ 32 - cond % 2 ^ 32) % 2 ^ 32 in
    bit_or (bit_and a mask) (bit_and b (2 ^ 32 - 1 - mask))

pub constant_select_byte_mask : ℕ → ℕ → ℕ → ℕ
constant_select_byte_mask a b mask = bit_or (bit_and a mask) (bit_and b (255 - mask))

-- The buffer that is written, from two buffers of the same length.
pub constant_select_buf : ℕ → List ℕ → List ℕ → List ℕ
unfolding constant_select_byte_mask
constant_select_buf cond [] bs = []
constant_select_buf cond (a ∷ as') [] = []
constant_select_buf cond (a ∷ as') (b ∷ bs) =
    constant_select_byte_mask a b ((256 - cond % 256) % 256) ∷ constant_select_buf cond as' bs
