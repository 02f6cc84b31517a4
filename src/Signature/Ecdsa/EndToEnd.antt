-- ===== src/Signature/Ecdsa/EndToEnd.antt =====
-- What src/sig/ecdsa.c signs, and what it then verifies.
use pkcs11_provider.Base.{
  ℕ, ◌*◌, ◌≤◌, ◌≡◌, refl, ap, ◌∙◌, inl, inr, true, false, some, List, arith, ◌==◌, if◌then◌else◌,
  Bool-cases, length, AreBytes,
}
use pkcs11_provider.Signature.Der.RoundTrip.{convert_der_to_raw-convert_raw_to_der}
use pkcs11_provider.Codes.Rv
use pkcs11_provider.Signature.Token.{Token}
use pkcs11_provider.Signature.Context.{Context, ckf_sign}
use pkcs11_provider.Signature.Context.Opens.{Opens, handle_of}
use pkcs11_provider.Signature.Run
use pkcs11_provider.Signature.Run.{finalized}
use pkcs11_provider.Signature.Run.Exact.{operate-signing, operate-verifying}
use pkcs11_provider.Signature.Der.{Asn1, Documented, convert_raw_to_der, max_raw_ecc_sig_size}
use pkcs11_provider.Signature.Ecdsa.{Keys, text, set_mechanism, sign, verify, operate}
use pkcs11_provider.Signature.Ecdsa.Verify.{set_mechanism-operation}

-- A context whose mechanism can be set, and that then gets as far as a session, in the state `ready`:
-- where an operation on it asks the module.
pub record Starts {W : Type 0} (t : Token W) (c : Context) (w : W) (session : ℕ) (ready : W)
    : Type 0 where
  pub mechanism_set : (set_mechanism c).0 ≡ Rv.ok
  pub opens : Opens t (set_mechanism c).1 w session ready

module _ {W B S : Type 0} (keys : Keys W) (a : Asn1 B S) (laws : Documented a) (t : Token W) where
  operate-Starts :
      (sig : List ℕ) (sigsize : ℕ) (tbs : List ℕ) (c : Context) (w : W) (s : ℕ) (v : W)
      → Starts t c w s v
      → operate t (some sig) sigsize tbs c w
        ≡ Run.operate t (some sig) sigsize tbs (set_mechanism c).1 w
  unfolding operate
  operate-Starts sig sigsize tbs c w s v o =
      let good : ((set_mechanism c).0 == Rv.ok) ≡ true = rw o.mechanism_set refl in
      rw (operate, good) refl

  verify-Starts :
      (raw stack der tbs : List ℕ) (c : Context) (w : W) (s : ℕ) (v : W) (sigsize : ℕ)
      → Starts t c w s v
      → (c.operation == ckf_sign) ≡ false
      → convert_raw_to_der a raw sigsize ≡ some der
      → AreBytes raw
      → length raw ≡ 2 * keys.key_size c.key w
      → length raw ≤ max_raw_ecc_sig_size
      → length stack ≡ max_raw_ecc_sig_size
      → let c1 = (set_mechanism c).1 in
        let (begun, v1) = t.verify_init s (some c1.mechanism) (handle_of t c1 w).0 v in
        let (found, v2) = t.verify (some s) tbs raw v1 in
        verify keys a t stack der tbs c w ≡ (
          if begun == Rv.ok
          then (found == Rv.ok, finalized c1, t.return_session (some s) v2)
          else (false, c1, t.return_session (some s) v1))
  unfolding verify
  verify-Starts raw stack der tbs c w s v sigsize o verifying converted are size fits room =
      let flen = keys.key_size c.key w in
      let c1 = (set_mechanism c).1 in
      let (begun, v1) = t.verify_init s (some c1.mechanism) (handle_of t c1 w).0 v in
      let verifying' = ap (λ n. n == ckf_sign) (set_mechanism-operation c) ∙ verifying in
      let (back, (decoded, same)) =
        convert_der_to_raw-convert_raw_to_der a laws raw stack sigsize flen der are size room
          (omega (arith, size, fits)) converted in
      let ran =
        operate-Starts raw (2 * flen) tbs c w s v o
        ∙ operate-verifying t raw (2 * flen) tbs c1 w s v o.opens verifying' in
      rw (verify, decoded, same, ran)
        (elim (Bool-cases (begun == Rv.ok)) [
          | inl good ↦ rw good refl
          | inr bad ↦ rw (bad, bad) refl
        ])

  sign-Starts :
      (stack raw : List ℕ) (sigsize : ℕ) (tbs der : List ℕ) (c : Context) (w : W) (s : ℕ) (v : W)
      → Starts t c w s v
      → (c.operation == ckf_sign) ≡ true
      → let c1 = (set_mechanism c).1 in
        let (begun, v1) = t.sign_init s (some c1.mechanism) (handle_of t c1 w).0 v in
        let (ret, out, v2) = t.sign (some s) tbs (length stack) v1 in
        begun ≡ Rv.ok
        → t.always_authenticate c1.key v1 ≡ false
        → ret ≡ Rv.ok
        → out ≡ raw
        → convert_raw_to_der a raw sigsize ≡ some der
        → sign keys a t stack (some sigsize) tbs c w
          ≡ ((true, text der), finalized c1, t.return_session (some s) v2)
  unfolding sign
  sign-Starts stack raw sigsize tbs der c w s v o signing accepted no_login signed made converted =
      let signing' = ap (λ n. n == ckf_sign) (set_mechanism-operation c) ∙ signing in
      let ran =
        operate-Starts stack (length stack) tbs c w s v o
        ∙ operate-signing t stack (length stack) tbs (set_mechanism c).1 w s v o.opens signing'
            accepted no_login signed in
      rw (sign, ran, made, converted) refl

  -- A context that signs and one that does not, for each of which a mechanism can be set, the provider is
  -- up, the key has a handle and a slot, and a session is had; signing asks for no login of its own. Where the module accepts the mechanism and makes a raw signature of the data,
  -- of bytes and of two fields as long as those of the verifying key, which fit into the provider's
  -- buffer, and its text is made within the size given, with an OpenSSL that works as documented: signing
  -- answers with that text, ends the operation and gives its session back. Verifying that text asks the
  -- module to accept the mechanism and, if it does, whether exactly that raw signature is one of the data
  -- to verify; the answer is whether both succeed, and its session is given back either way.
  pub verify-sign :
      (stack raw : List ℕ) (sigsize : ℕ) (tbs der : List ℕ) (c : Context) (w : W) (s : ℕ) (v : W)
      (stack' tbs' : List ℕ) (c' : Context) (w' : W) (s' : ℕ) (v' : W)
      → Starts t c w s v
      → (c.operation == ckf_sign) ≡ true
      → Starts t c' w' s' v'
      → (c'.operation == ckf_sign) ≡ false
      → AreBytes raw
      → length raw ≡ 2 * keys.key_size c'.key w'
      → length raw ≤ max_raw_ecc_sig_size
      → length stack' ≡ max_raw_ecc_sig_size
      → convert_raw_to_der a raw sigsize ≡ some der
      → let c1 = (set_mechanism c).1 in
        let (begun, v1) = t.sign_init s (some c1.mechanism) (handle_of t c1 w).0 v in
        let (ret, out, v2) = t.sign (some s) tbs (length stack) v1 in
        let c1' = (set_mechanism c').1 in
        let (begun', v1') = t.verify_init s' (some c1'.mechanism) (handle_of t c1' w').0 v' in
        let (found, v2') = t.verify (some s') tbs' raw v1' in
        begun ≡ Rv.ok
        → t.always_authenticate c1.key v1 ≡ false
        → ret ≡ Rv.ok
        → out ≡ raw
        → (sign keys a t stack (some sigsize) tbs c w
            ≡ ((true, text der), finalized c1, t.return_session (some s) v2))
          × (verify keys a t stack' der tbs' c' w' ≡ (
              if begun' == Rv.ok
              then (found == Rv.ok, finalized c1', t.return_session (some s') v2')
              else (false, c1', t.return_session (some s') v1')))
  verify-sign stack raw sigsize tbs der c w s v stack' tbs' c' w' s' v' starts signing starts'
        verifying are size fits room converted accepted no_login signed made =
      (
        sign-Starts stack raw sigsize tbs der c w s v starts signing accepted no_login signed made
            converted,
        verify-Starts raw stack' der tbs' c' w' s' v' sigsize starts' verifying converted are size
            fits room,
      )
