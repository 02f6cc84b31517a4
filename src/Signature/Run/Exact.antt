-- ===== src/Signature/Run/Exact.antt =====
-- What signing and verifying in one piece does on a session that is had.
use pkcs11_provider.Base.{
  ℕ, ◌≡◌, refl, ◌∙◌, inl, inr, true, false, Option, none, some, List, ◌==◌, if◌then◌else◌,
  Bool-cases,
}
use pkcs11_provider.Codes.Rv
use pkcs11_provider.Signature.Token.{Token}
use pkcs11_provider.Signature.Context.{Context, ckf_sign, operate_init}
use pkcs11_provider.Signature.Context.Opens.{
  Opens, handle_of, operate_init-verifying, operate_init-signing,
}
use pkcs11_provider.Signature.Run.{operate, operate_on, finalized}

module _ {W : Type 0} (t : Token W) where
  -- Behind a start that succeeded, as `r` has it.
  operate_begun :
      (sig : List ℕ) (sigsize : ℕ) (tbs : List ℕ) (c : Context) (w : W)
      (r : ℕ × Option ℕ × Context × W)
      → operate_init t false c w ≡ r
      → operate t (some sig) sigsize tbs c w
        ≡ (if r.0 == Rv.ok then operate_on t r.1 sig sigsize tbs r.2 r.3 else (r.0, none, r.2, r.3))
  unfolding operate
  operate_begun sig sigsize tbs c w r e = rw (operate, e) refl

  pub operate-verifying :
      (sig : List ℕ) (sigsize : ℕ) (tbs : List ℕ) (c : Context) (w : W) (s : ℕ) (v : W)
      → Opens t c w s v
      → (c.operation == ckf_sign) ≡ false
      → let (begun, v1) = t.verify_init s (some c.mechanism) (handle_of t c w).0 v in
        let (found, v2) = t.verify (some s) tbs sig v1 in
        operate t (some sig) sigsize tbs c w ≡ (
          if begun == Rv.ok
          then (found, none, finalized c, t.return_session (some s) v2)
          else (begun, none, c, t.return_session (some s) v1))
  unfolding operate_on
  operate-verifying sig sigsize tbs c w s v o verifying =
      let (begun, v1) = t.verify_init s (some c.mechanism) (handle_of t c w).0 v in
      let start = operate_init-verifying t c w s v o verifying in
      operate_begun sig sigsize tbs c w _ start ∙ elim (Bool-cases (begun == Rv.ok)) [
        | inl good ↦ rw (good, operate_on, verifying) refl
        | inr bad ↦ rw (bad, bad) refl
      ]

  pub operate-signing :
      (sig : List ℕ) (sigsize : ℕ) (tbs : List ℕ) (c : Context) (w : W) (s : ℕ) (v : W)
      → Opens t c w s v
      → (c.operation == ckf_sign) ≡ true
      → let (begun, v1) = t.sign_init s (some c.mechanism) (handle_of t c w).0 v in
        let (ret, out, v2) = t.sign (some s) tbs sigsize v1 in
        begun ≡ Rv.ok
        → t.always_authenticate c.key v1 ≡ false
        → ret ≡ Rv.ok
        → operate t (some sig) sigsize tbs c w
          ≡ (Rv.ok, some out, finalized c, t.return_session (some s) v2)
  unfolding operate_on
  operate-signing sig sigsize tbs c w s v o signing accepted no_login signed =
      let start = operate_init-signing t c w s v o signing accepted no_login in
      operate_begun sig sigsize tbs c w _ start ∙ rw (operate_on, signing, signed) refl
