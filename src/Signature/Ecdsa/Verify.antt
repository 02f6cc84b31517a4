-- ===== src/Signature/Ecdsa/Verify.antt =====
-- When src/sig/ecdsa.c calls a signature good.
use pkcs11_provider.Base.{
  ℕ, ◌*◌, ◌≡◌, refl, ap, ◌∙◌, inl, inr, Bool, true, false, Option, none, some, List, arith, ◌==◌,
  if◌then◌else◌, Bool-cases, set, slice,
}
use pkcs11_provider.Codes.Rv
use pkcs11_provider.Signature.Token.{Token}
use pkcs11_provider.Signature.Context.{Context, ckf_sign}
use pkcs11_provider.Signature.Der.{Asn1, convert_der_to_raw}
use pkcs11_provider.Signature.Run.Verified.{Asked, operate-Asked}
use pkcs11_provider.Signature.Ecdsa.{
  Keys, ckm_ecdsa, set_mechanism, verify, ecdsa_digest_map, operate,
}

-- Setting the mechanism leaves the operation.
pub set_mechanism-operation : (c : Context) → (set_mechanism c).1.operation ≡ c.operation
unfolding set_mechanism
set_mechanism-operation c = by_mech (ecdsa_digest_map c.digest)
  where
    by_mech :
        (o : Option ℕ)
        → (if c.mechtype == ckm_ecdsa
            then (if c.digest_op
                then (elim o as (λ o. ℕ × Context) [
                  | none ↦ (Rv.mechanism_invalid, record c { mechanism = c.mechtype })
                  | some m ↦ (Rv.ok, record c { mechanism = m })
                ])
                else (Rv.ok, record c { mechanism = c.mechtype }))
            else (Rv.data_invalid, record c { mechanism = c.mechtype })).1.operation
          ≡ c.operation
    by_mech none = elim (Bool-cases (c.mechtype == ckm_ecdsa)) [
      | inl e ↦ elim (Bool-cases c.digest_op) [ inl d ↦ rw (e, d) refl | inr d ↦ rw (e, d) refl ]
      | inr e ↦ rw e refl
    ]
    by_mech (some m) = elim (Bool-cases (c.mechtype == ckm_ecdsa)) [
      | inl e ↦ elim (Bool-cases c.digest_op) [ inl d ↦ rw (e, d) refl | inr d ↦ rw (e, d) refl ]
      | inr e ↦ rw e refl
    ]

set_mechanism_missing :
    (c : Context)
    → c.mechtype ≡ ckm_ecdsa
    → c.digest_op ≡ true
    → ecdsa_digest_map c.digest ≡ none
    → set_mechanism c ≡ (Rv.mechanism_invalid, record c { mechanism = c.mechtype })
unfolding set_mechanism
set_mechanism_missing c ecdsa digest missing =
    by_tests (c.mechtype == ckm_ecdsa) c.digest_op (ecdsa_digest_map c.digest) (ground arith) digest
      missing
  where
    by_tests :
        (e d : Bool) (o : Option ℕ)
        → e ≡ true
        → d ≡ true
        → o ≡ none
        → (if e
            then (if d
                then (elim o as (λ o. ℕ × Context) [
                  | none ↦ (Rv.mechanism_invalid, record c { mechanism = c.mechtype })
                  | some m ↦ (Rv.ok, record c { mechanism = m })
                ])
                else (Rv.ok, record c { mechanism = c.mechtype }))
            else (Rv.data_invalid, record c { mechanism = c.mechtype }))
          ≡ (Rv.mechanism_invalid, record c { mechanism = c.mechtype })
    by_tests e d o q r n = rw (q, r, n) refl

module _ {W B S : Type 0} (keys : Keys W) (a : Asn1 B S) (t : Token W) where
  -- What a verification that answers that a signature is good comes down to.
  pub record Good (raw sig tbs : List ℕ) (c : Context) (w : W) : Type 0 where
    pub bytes : List ℕ
    pub converted : convert_der_to_raw a sig raw (keys.key_size c.key w) ≡ some bytes
    pub asked :
        Asked t (set_mechanism c).1.mechanism (slice bytes 0 (2 * keys.key_size c.key w)) tbs

  -- A signature is called good only if it can be decoded and the module, having accepted the mechanism
  -- on a session, finds its raw form to be a signature of the data, on a context that does not sign and
  -- whose mechanism can be set.
  pub verify-Good :
      (raw sig tbs : List ℕ) (c : Context) (w : W)
      → (c.operation == ckf_sign) ≡ false
      → (set_mechanism c).0 ≡ Rv.ok
      → (verify keys a t raw sig tbs c w).0 ≡ true
      → Good raw sig tbs c w
  unfolding verify operate
  verify-Good raw sig tbs c w verifying set =
      by_bytes (convert_der_to_raw a sig raw (keys.key_size c.key w)) refl
    where
      by_bytes :
          (o : Option (List ℕ))
          → convert_der_to_raw a sig raw (keys.key_size c.key w) ≡ o
          → (elim o as (λ o. Bool × Context × W) [
            | none ↦ (false, c, w)
            | some bytes ↦
                let (ret, out, c1, w1) =
                  operate t
                    (some (slice bytes 0 (2 * keys.key_size c.key w)))
                    (2 * keys.key_size c.key w)
                    tbs
                    c
                    w in
                (ret == Rv.ok, c1, w1)
          ]).0
            ≡ true
          → Good raw sig tbs c w
      by_bytes none q e = cc
      by_bytes (some bytes) q e =
          let flen = keys.key_size c.key w in
          let c1 = (set_mechanism c).1 in
          let good : ((set_mechanism c).0 == Rv.ok) ≡ true = ground arith in
          let done = rw good at e in
          let verifying' = ap (λ n. n == ckf_sign) (set_mechanism-operation c) ∙ verifying in
          record {
            bytes = bytes;
            converted = q;
            asked =
                operate-Asked t (slice bytes 0 (2 * flen)) (2 * flen) tbs c1 w verifying'
                  (ground arith);
          }

  -- Where a digest was asked for that has no mechanism of its own with ECDSA, any signature that can be
  -- decoded is called good, and the module is not asked at all.
  pub verify_unasked :
      (raw sig tbs bytes : List ℕ) (c : Context) (w : W)
      → c.mechtype ≡ ckm_ecdsa
      → c.digest_op ≡ true
      → ecdsa_digest_map c.digest ≡ none
      → convert_der_to_raw a sig raw (keys.key_size c.key w) ≡ some bytes
      → verify keys a t raw sig tbs c w ≡ (true, record c { mechanism = c.mechtype }, w)
  unfolding verify operate
  verify_unasked raw sig tbs bytes c w ecdsa digest missing decoded =
      rw (verify, decoded, operate, set_mechanism_missing c ecdsa digest missing) refl
