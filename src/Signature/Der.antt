-- ===== src/Signature/Der.antt =====
-- src/sig/ecdsa.c: between the signatures of the module, `r` and `s` behind each other, and those of
-- OpenSSL, which are in DER.
pub mod RoundTrip
pub mod Room
use pkcs11_provider.Base.{
  ℕ, ◌+◌, ◌*◌, ◌/◌, ◌≡◌, Bool, ◌||◌, Option, none, some, List, ltb, leb, ◌==◌, if◌then◌else◌,
  length, AreBytes, slice, overwrite,
}
use pkcs11_provider.Codes.{unavailable}

-- OpenSSL's numbers, `B`, and signatures, `S`: `ECDSA_SIG_new`, if it has memory, `BN_bin2bn`,
-- `ECDSA_SIG_set0`, `ECDSA_SIG_get0`, `i2d_ECDSA_SIG`, `d2i_ECDSA_SIG` and `BN_bn2binpad`. A null pointer
-- and a negative length are `none`.
pub record Asn1 (B S : Type 0) : Type 0 where
  pub sig_new : Bool
  pub bin2bn : List ℕ → Option B
  pub set0 : Option B → Option B → Option S
  pub get0 : S → B × B
  pub i2d : S → Option (List ℕ)
  pub d2i : List ℕ → Option S
  pub bn2binpad : B → ℕ → Option (List ℕ)

-- What OpenSSL documents of them: a signature keeps the numbers that it was made of, what was encoded is
-- decoded to the same numbers, and the padding of a number that was read from as many bytes restores
-- them.
pub record Documented {B S : Type 0} (a : Asn1 B S) : Type 0 where
  pub numbers :
      (r s : Option B) (x : S)
      → a.set0 r s ≡ some x
      → (r ≡ some (a.get0 x).0) × (s ≡ some (a.get0 x).1)
  pub decoded :
      (x : S) (der : List ℕ)
      → a.i2d x ≡ some der
      → (y : S) × ((a.d2i der ≡ some y) × (a.get0 y ≡ a.get0 x))
  pub padded :
      (bytes : List ℕ) (b : B)
      → AreBytes bytes
      → a.bin2bn bytes ≡ some b
      → a.bn2binpad b (length bytes) ≡ some bytes

-- `P11PROV_MAX_RAW_ECC_SIG_SIZE`, for fields of at most 661 bits.
abbrev pub max_raw_ecc_sig_size : ℕ
max_raw_ecc_sig_size = 2 * (661 + 7) / 8

module _ {B S : Type 0} (a : Asn1 B S) where
  -- The DER text, if it was written.
  unfoldable pub convert_raw_to_der : List ℕ → ℕ → Option (List ℕ)
  convert_raw_to_der raw dersize =
      let fieldlen = length raw / 2 in
      let r = a.bin2bn (slice raw 0 fieldlen) in
      let s = a.bin2bn (slice raw fieldlen fieldlen) in
      let text : Option (List ℕ) = elim (a.set0 r s) [
        | none ↦ none
        | some x ↦ elim (a.i2d x) [
          | none ↦ none
          | some der ↦ if leb (length der) dersize then some der else none
        ]
      ] in
      if a.sig_new then text else none

  -- A number at its place in the buffer, which keeps what it has where the number does not fit.
  put_field : B → ℕ → ℕ → List ℕ → List ℕ
  put_field b k fieldlen raw = elim (a.bn2binpad b fieldlen) [
    | none ↦ raw
    | some bytes ↦ overwrite raw k bytes
  ]

  -- Into a buffer, given with what it has before; its size is that of the list. A field has fewer than
  -- 2^63 bytes, or its length is not known, so that twice its length does not wrap around.
  unfoldable pub convert_der_to_raw : List ℕ → List ℕ → ℕ → Option (List ℕ)
  unfolding put_field
  convert_der_to_raw der raw fieldlen =
      let text : Option (List ℕ) = elim (a.d2i der) [
        | none ↦ none
        | some x ↦
            let (r, s) = a.get0 x in
            some (put_field s fieldlen fieldlen (put_field r 0 fieldlen raw))
      ] in
      if fieldlen == unavailable || ltb (length raw) (2 * fieldlen) then none else text
