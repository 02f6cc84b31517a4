-- ===== src/Signature/Der/Room.antt =====
-- The lengths of DER, for the buffers of src/sig/ecdsa.c.
use pkcs11_provider.Base.{
  ℕ, suc, ◌+◌, ◌*◌, ◌/◌, ◌≤◌, ◌<◌, ◌≡◌, refl, true, some, List, arith, ltb, leb, if◌then◌else◌,
  length, slice, length-slice,
}
use pkcs11_provider.Signature.Der.{Asn1, convert_raw_to_der}

-- The length of an element of DER with contents of `n` octets, below 2 ^ 16: a tag, one to three octets
-- of length, and the contents.
abbrev pub element : ℕ → ℕ
element n = (if ltb n 128 then 2 else (if ltb n 256 then 3 else 4)) + n

-- What X.690 says of the encoding of a signature, a sequence of two integers: an integer below 256 ^ n
-- has contents of at most `n + 1` octets.
pub record IsDer {B S : Type 0} (a : Asn1 B S) (octets : B → ℕ) : Type 0 where
  pub sequence :
      (r s : B) (x : S) (der : List ℕ)
      → a.set0 (some r) (some s) ≡ some x
      → a.i2d x ≡ some der
      → length der ≡ element (element (octets r) + element (octets s))
  pub contents : (bytes : List ℕ) (b : B) → a.bin2bn bytes ≡ some b → octets b ≤ suc (length bytes)

element_le : (n m : ℕ) → n ≤ suc m → m < 127 → element n ≤ m + 3
element_le n m small few = ground (arith, small, few)

element_room : (m n f : ℕ) → m ≤ f + 3 → n ≤ f + 3 → f < 127 → element (m + n) ≤ 3 + (f + 4) * 2
element_room m n f first second few = ground (arith, first, second, few)

-- OpenSSL encodes the two numbers of a raw signature: it has memory for them.
pub record Encodes {B S : Type 0} (a : Asn1 B S) (raw der : List ℕ) : Type 0 where
  pub r : B
  pub s : B
  pub sig : S
  pub memory : a.sig_new ≡ true
  pub r_read : a.bin2bn (slice raw 0 (length raw / 2)) ≡ some r
  pub s_read : a.bin2bn (slice raw (length raw / 2) (length raw / 2)) ≡ some s
  pub made : a.set0 (some r) (some s) ≡ some sig
  pub written : a.i2d sig ≡ some der

module _ {B S : Type 0} (a : Asn1 B S) (octets : B → ℕ) (der_of : IsDer a octets) where
  -- The text of two fields has room in `3 + (size of a field + 4) * 2` bytes.
  pub convert_raw_to_der_room :
      (raw der : List ℕ) (f dersize : ℕ)
      → Encodes a raw der
      → length raw ≡ 2 * f
      → f < 127
      → dersize ≡ 3 + (f + 4) * 2
      → convert_raw_to_der a raw dersize ≡ some der
  unfolding convert_raw_to_der
  convert_raw_to_der_room raw der f dersize e two few size_is =
      let half = length raw / 2 in
      let half_is : half ≡ f = omega (arith, two) in
      let r_size = der_of.contents (slice raw 0 half) e.r e.r_read in
      let s_size = der_of.contents (slice raw half half) e.s e.s_read in
      let r_length = length-slice raw 0 half (omega arith) in
      let s_length = length-slice raw half half (omega arith) in
      let r_room = element_le (octets e.r) f (omega (arith, r_size, r_length, half_is)) few in
      let s_room = element_le (octets e.s) f (omega (arith, s_size, s_length, half_is)) few in
      let both = element_room (element (octets e.r)) (element (octets e.s)) f r_room s_room few in
      let long = der_of.sequence e.r e.s e.sig der e.made e.written in
      let fits : leb (length der) dersize ≡ true = ground (arith, both, long, size_is) in
      rw (e.r_read, e.s_read, e.made, e.written, fits, e.memory) refl
