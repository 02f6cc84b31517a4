-- ===== src/Signature/Run/Verified.antt =====
-- What stands behind a signature that was found to be good.
use pkcs11_provider.Base.{ℕ, ◌≡◌, inl, inr, false, Option, some, List, arith, ◌==◌, Bool-cases}
use pkcs11_provider.Codes.Rv
use pkcs11_provider.Signature.Token.{Token}
use pkcs11_provider.Signature.Context.{Context, SessionState, ckf_sign, operate_init}
use pkcs11_provider.Signature.Context.Verifies.{operate_init-Verifies}
use pkcs11_provider.Signature.Run.{operate, operate_on}

module _ {W : Type 0} (t : Token W) where
  -- The module was asked, on one session: it accepted the mechanism and a key, and in the state behind
  -- that it found the signature to be one of the data.
  pub record Asked (mechanism : ℕ) (sig tbs : List ℕ) : Type 0 where
    pub session : ℕ
    pub handle : ℕ
    pub before : W
    pub accepted : (t.verify_init session (some mechanism) handle before).0 ≡ Rv.ok
    pub verified :
        (t.verify (some session) tbs sig (t.verify_init session (some mechanism) handle before).1).0
        ≡ Rv.ok

  operate_on-verified :
      (s : Option ℕ) (sig : List ℕ) (sigsize : ℕ) (tbs : List ℕ) (c : Context) (w : W)
      → (c.operation == ckf_sign) ≡ false
      → (operate_on t s sig sigsize tbs c w).0 ≡ Rv.ok
      → (t.verify s tbs sig w).0 ≡ Rv.ok
  unfolding operate_on
  operate_on-verified s sig sigsize tbs c w verifying = rw verifying (λ e. e)

  pub operate-Asked :
      (sig : List ℕ) (sigsize : ℕ) (tbs : List ℕ) (c : Context) (w : W)
      → (c.operation == ckf_sign) ≡ false
      → (operate t (some sig) sigsize tbs c w).0 ≡ Rv.ok
      → Asked c.mechanism sig tbs
  unfolding operate
  operate-Asked sig sigsize tbs c w verifying =
      let r = operate_init t false c w in
      elim (Bool-cases (r.0 == Rv.ok)) [
        | inr bad ↦ rw bad (λ e. absurd (ground arith))
        | inl good ↦
            let v = operate_init-Verifies t c w verifying (ground arith) in
            rw v.begun (λ e. record {
              session = v.session;
              handle = v.handle;
              before = v.before;
              accepted = v.accepted;
              verified =
                  operate_on-verified (some v.session) sig sigsize tbs
                    (record c { session_state = SessionState.initialized })
                    (t.verify_init v.session (some c.mechanism) v.handle v.before).1 verifying e;
            })
      ]
