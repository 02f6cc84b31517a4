-- ===== src/ByteSwap.antt =====
-- `byteswap_buf` of src/util.c, on a machine that stores numbers with the lowest byte first.
pub mod Reversed
mod Tests
use pkcs11_provider.Base.{
  ℕ, zero, suc, ◌+◌, ◌%◌, ◌^◌, Bool, ◌&&◌, Option, none, some, List, ltb, leb, if◌then◌else◌,
  length, get_elem?, set,
}

-- One round, with `s`, `e` and the two buffers; `none` is an access outside a buffer.
swap_at : ℕ → ℕ → List ℕ → List ℕ → Option (List ℕ)
swap_at s e src dest = elim (get_elem? src s) [
  | none ↦ none
  | some sb ↦ elim (get_elem? src e) [
    | none ↦ none
    | some eb ↦
        if ltb s (length dest) && ltb e (length dest) then some (set (set dest s eb) e sb) else none
  ]
]

-- The loop, with the number of bytes from `s` to `e`. Where the two buffers are one, the next round reads
-- what this one wrote.
swap_loop : Bool → ℕ → ℕ → List ℕ → List ℕ → Option (List ℕ)
unfolding swap_at
swap_loop in_place zero s src dest = some dest
swap_loop in_place (suc zero) s src dest = swap_at s s src dest
swap_loop in_place (suc (suc k)) s src dest = elim (swap_at s (s + suc k) src dest) [
  | none ↦ none
  | some dest' ↦ swap_loop in_place k (suc s) (if in_place then dest' else src) dest'
]

-- The number of bytes from 0 to `e`, where `e` is the `int` one below the length.
abbrev count_of : ℕ → ℕ
count_of len = let n = len % 2 ^ 32 in if leb n (2 ^ 31) then n else 0

-- Whether `dest` is `src`, the contents of the two, and the length: what `dest` then holds.
pub byteswap_buf : Bool → List ℕ → List ℕ → ℕ → Option (List ℕ)
unfolding swap_loop
byteswap_buf in_place src dest len = swap_loop in_place (count_of len) 0 src dest
