-- ===== src/Signature/Context/Verifies.antt =====
-- What a verification that was begun has asked of the module.
use pkcs11_provider.Base.{
  ℕ, ◌≡◌, refl, inl, inr, false, not, ◌&&◌, Option, some, arith, ◌==◌, Bool-cases,
}
use pkcs11_provider.Codes.{invalid_handle, unavailable}
use pkcs11_provider.Codes.Rv
use pkcs11_provider.Signature.Token.{Token}
use pkcs11_provider.Signature.Context.{
  Context, SessionState, ckf_sign, operate_init, start_on, init_call, login_call, settle,
}

module _ {W : Type 0} (t : Token W) where
  -- The module accepted the mechanism and a key on a session; the context is marked as begun.
  pub record Verifies (c : Context) (r : ℕ × Option ℕ × Context × W) : Type 0 where
    pub session : ℕ
    pub handle : ℕ
    pub before : W
    pub accepted : (t.verify_init session (some c.mechanism) handle before).0 ≡ Rv.ok
    pub begun : r ≡ (
      Rv.ok,
      some session,
      record c { session_state = SessionState.initialized },
      (t.verify_init session (some c.mechanism) handle before).1,
    )

  start_on-Verifies :
      (handle s : ℕ) (c : Context) (w : W)
      → (c.operation == ckf_sign) ≡ false
      → (start_on t handle s c w).0 ≡ Rv.ok
      → Verifies c (start_on t handle s c w)
  unfolding start_on init_call login_call settle
  start_on-Verifies handle s c w verifying =
      let (ret, w1) = t.verify_init s (some c.mechanism) handle w in
      elim (Bool-cases (ret == Rv.ok)) [
        | inl good ↦
            rw (verifying, good)
              (λ e. record {
                session = s;
                handle = handle;
                before = w;
                accepted = ground arith;
                begun = refl;
              })
        | inr bad ↦ rw (verifying, bad) (λ e. absurd (ground arith))
      ]

  pub operate_init-Verifies :
      (c : Context) (w : W)
      → (c.operation == ckf_sign) ≡ false
      → (operate_init t false c w).0 ≡ Rv.ok
      → Verifies c (operate_init t false c w)
  unfolding operate_init
  operate_init-Verifies c w verifying =
      let (status, w1) = t.status w in
      let (handle, w2) = t.get_handle c.key w1 in
      let slotid = t.get_slotid c.key w2 in
      let (ret, s, w3) = t.try_session_ref c.key c.mechanism (c.operation == ckf_sign) w2 in
      let no_digest : (ret == Rv.mechanism_invalid && (false && not (c.mechanism == c.mechtype)))
          ≡ false =
        ground arith in
      elim (Bool-cases (status == Rv.ok)) [
        | inr bad ↦ rw bad (λ e. absurd (ground arith))
        | inl good ↦ elim (Bool-cases (handle == invalid_handle)) [
          | inl bad ↦ rw (good, bad) (λ e. absurd (ground arith))
          | inr there ↦ elim (Bool-cases (slotid == unavailable)) [
            | inl bad ↦ rw (good, there, bad) (λ e. absurd (ground arith))
            | inr slot ↦ elim (Bool-cases (ret == Rv.ok)) [
              | inl had ↦ rw (good, there, slot, had) (start_on-Verifies handle s c w3 verifying)
              | inr had_none ↦
                  rw (good, there, slot, had_none, no_digest) (λ e. absurd (ground arith))
            ]
          ]
        ]
      ]
