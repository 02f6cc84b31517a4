-- ===== src/Cipher/Unpad.antt =====
-- `tlsunpad` of src/cipher.c: the padding and the MAC at the end of a decrypted TLS record are found
-- without a branch on secret bytes.
pub mod Padding
pub mod Mac
pub mod Answer
pub mod Records
use pkcs11_provider.Base.{
  ℕ, zero, suc, ◌+◌, ◌-◌, ◌%◌, ◌^◌, bit_and, bit_or, bit_xor, Bool, not, Option, none, some, List,
  [], ◌∷◌, ltb, ◌==◌, if◌then◌else◌, get_elem?, replicate,
}
use pkcs11_provider.Codes.Rv
use pkcs11_provider.Word.{
  minus, complement, constant_select_byte_mask, constant_smaller_mask, constant_equal_mask,
  ulong_max,
}

-- `AESBLOCK` and the value of `MAX_PADDING`.
abbrev pub aes_block : ℕ
aes_block = 16

abbrev pub max_padding : ℕ
max_padding = 256

-- The version number of TLS 1.0, whose records have no explicit IV.
abbrev pub tls1_0 : ℕ
tls1_0 = 0x301

-- What `tlsunpad` asks of its surroundings: whether there is memory for the MAC, whether `RAND_bytes_ex`
-- succeeds, and the random bytes.
pub record Chance : Type 0 where
  pub room : Bool
  pub seeded : Bool
  pub randmac : List ℕ

-- The loop over the padding bytes, with the rounds left, `i` and `pass`. The buffer begins `off` bytes
-- into the list; `none` is a read behind its end, or before it, where the index has wrapped round.
pub pad_loop : List ℕ → ℕ → ℕ → ℕ → ℕ → ℕ → ℕ → Option ℕ
pad_loop out off olen padsize zero i pass = some pass
pad_loop out off olen padsize (suc rounds) i pass =
    elim (get_elem? out (off + minus (minus olen i) 2)) [
      | none ↦ none
      | some byte ↦
          let mask = constant_smaller_mask i padsize % 256 in
          pad_loop out off olen padsize rounds (suc i)
            (bit_and pass (complement (bit_and mask (bit_xor padsize byte))))
    ]

-- The mask for the byte `i` of the record and the byte `j` of the MAC.
pub mac_mask : ℕ → ℕ → ℕ → ℕ → ℕ
mac_mask mac_pos macsize i j =
    bit_and
      (bit_and (complement (constant_smaller_mask i mac_pos))
        (constant_smaller_mask i ((mac_pos + macsize) % 2 ^ 64)))
      (constant_equal_mask i ((j + mac_pos) % 2 ^ 64))
    % 256

-- The inner loop, from a byte `j` of the MAC on.
pub mix : ℕ → ℕ → ℕ → ℕ → ℕ → List ℕ → List ℕ
unfolding mac_mask
mix mac_pos macsize i byte j [] = []
mix mac_pos macsize i byte j (t ∷ ts) =
    bit_or t (bit_and byte (mac_mask mac_pos macsize i j)) ∷ mix mac_pos macsize i byte (suc j) ts

-- The outer loop, with the rounds left and `i`.
pub mac_loop : List ℕ → ℕ → ℕ → ℕ → ℕ → ℕ → List ℕ → Option (List ℕ)
unfolding mix
mac_loop out off mac_pos macsize zero i mac = some mac
mac_loop out off mac_pos macsize (suc rounds) i mac = elim (get_elem? out (off + i)) [
  | none ↦ none
  | some byte ↦ mac_loop out off mac_pos macsize rounds (suc i) (mix mac_pos macsize i byte 0 mac)
]

-- The last loop, over the bytes of the MAC.
pub select_mac : ℕ → List ℕ → List ℕ → List ℕ
select_mac pass [] rs = []
select_mac pass (t ∷ ts) [] = []
select_mac pass (t ∷ ts) (r ∷ rs) =
    constant_select_byte_mask t r (pass % 256) ∷ select_mac pass ts rs

-- The return value, `*outlen` and the MAC that was allocated, if one was.
abbrev pub Unpadded : Type 0
Unpadded = ℕ × ℕ × Option (List ℕ)

-- The part that copies the MAC, with `pass` as a mask and the position of the MAC.
pub extract : Chance → List ℕ → ℕ → ℕ → ℕ → ℕ → ℕ → ℕ → Option Unpadded
unfolding mac_loop select_mac
extract c out off olen macsize outlen pass mac_pos =
    let mac_area = if ltb (macsize + 256) olen then olen - macsize - 256 else 0 in
    let area = mac_loop out off mac_pos macsize (olen - mac_area) mac_area (replicate macsize 0) in
    if ltb 0 macsize
    then (if not c.room
        then some (Rv.general_error, outlen, none)
        else (if not c.seeded
            then some (Rv.general_error, outlen, some (replicate macsize 0))
            else elim area [
              | none ↦ none
              | some mac ↦ some (Rv.ok, mac_pos, some (select_mac pass mac c.randmac))
            ]))
    else some (if pass == ulong_max then Rv.ok else Rv.general_error, mac_pos, none)

-- Behind the check of the padding.
pub find_mac : Chance → List ℕ → ℕ → ℕ → ℕ → ℕ → ℕ → ℕ → Option Unpadded
find_mac c out off olen macsize padsize outlen pass =
    extract c out off olen macsize outlen pass
      (minus (minus olen macsize) (bit_and pass ((padsize + 1) % 2 ^ 64)))

-- Behind the explicit IV, on the `olen` bytes that begin `off` bytes into the buffer.
pub unpad_body : Chance → ℕ → List ℕ → ℕ → ℕ → ℕ → ℕ → Option Unpadded
unpad_body c macsize out off olen padsize outlen =
    let overhead = macsize + 1 in
    let maxcheck = if ltb olen max_padding then olen else max_padding in
    let pass = complement (constant_smaller_mask olen (overhead + padsize)) in
    let checked = pad_loop out off olen padsize (maxcheck - 1) 0 pass in
    if ltb olen overhead then some (Rv.buffer_too_small, outlen, none) else elim checked [
      | none ↦ none
      | some pass' ↦ find_mac c out off olen macsize padsize outlen (constant_equal_mask pass' 0xff)
    ]

-- With the TLS version, the size of the MAC, the buffer, its length `inlen` and the old `*outlen`.
-- `none` is a read outside the buffer.
pub tlsunpad : Chance → ℕ → ℕ → List ℕ → ℕ → ℕ → Option Unpadded
tlsunpad c tlsver macsize out inlen outlen = elim (get_elem? out (minus inlen 1)) [
  | none ↦ none
  | some padsize ↦
      let off = if tlsver == tls1_0 then 0 else aes_block in
      unpad_body c macsize out off (minus inlen off) padsize outlen
]
