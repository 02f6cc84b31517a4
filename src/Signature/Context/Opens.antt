-- ===== src/Signature/Context/Opens.antt =====
-- Where an operation of src/sig/signature.c gets as far as a session.
use pkcs11_provider.Base.{
  ℕ, ◌≡◌, refl, ◌∙◌, inl, inr, true, false, none, some, ◌==◌, if◌then◌else◌, Bool-cases,
}
use pkcs11_provider.Codes.{invalid_handle, unavailable}
use pkcs11_provider.Codes.Rv
use pkcs11_provider.Signature.Token.{Token}
use pkcs11_provider.Signature.Context.{
  Context, SessionState, ckf_sign, operate_init, start_on, init_call, login_call, settle,
}

module _ {W : Type 0} (t : Token W) where
  -- The handle of the context's key, and the state behind fetching it.
  abbrev pub handle_of : Context → W → ℕ × W
  handle_of c w = t.get_handle c.key (t.status w).1

  -- The provider is up, the key has a handle and a slot, and a session is had, in the state `ready`.
  pub record Opens (c : Context) (w : W) (session : ℕ) (ready : W) : Type 0 where
    pub up : (t.status w).0 ≡ Rv.ok
    pub valid : ((handle_of c w).0 == invalid_handle) ≡ false
    pub slot : (t.get_slotid c.key (handle_of c w).1 == unavailable) ≡ false
    pub taken :
        t.try_session_ref c.key c.mechanism (c.operation == ckf_sign) (handle_of c w).1
        ≡ (Rv.ok, session, ready)

  operate_init-Opens :
      (c : Context) (w : W) (s : ℕ) (v : W)
      → Opens c w s v
      → operate_init t false c w ≡ start_on t (handle_of c w).0 s c v
  unfolding operate_init
  operate_init-Opens c w s v o =
      let up : ((t.status w).0 == Rv.ok) ≡ true = rw o.up refl in
      rw (up, o.valid, o.slot, o.taken) refl

  -- To verify: the module's init call decides.
  pub operate_init-verifying :
      (c : Context) (w : W) (s : ℕ) (v : W)
      → Opens c w s v
      → (c.operation == ckf_sign) ≡ false
      → let (ret, v1) = t.verify_init s (some c.mechanism) (handle_of c w).0 v in
        operate_init t false c w ≡ (
          if ret == Rv.ok
          then (Rv.ok, some s, record c { session_state = SessionState.initialized }, v1)
          else (ret, none, c, t.return_session (some s) v1))
  unfolding start_on init_call login_call settle
  operate_init-verifying c w s v o verifying =
      let (ret, v1) = t.verify_init s (some c.mechanism) (handle_of c w).0 v in
      operate_init-Opens c w s v o ∙ elim (Bool-cases (ret == Rv.ok)) [
        | inl good ↦ rw (start_on, verifying, good) refl
        | inr bad ↦ rw (start_on, verifying, bad) refl
      ]

  -- To sign with a key that asks for no login of its own, where the module accepts the mechanism.
  pub operate_init-signing :
      (c : Context) (w : W) (s : ℕ) (v : W)
      → Opens c w s v
      → (c.operation == ckf_sign) ≡ true
      → let (ret, v1) = t.sign_init s (some c.mechanism) (handle_of c w).0 v in
        ret ≡ Rv.ok
        → t.always_authenticate c.key v1 ≡ false
        → operate_init t false c w
          ≡ (Rv.ok, some s, record c { session_state = SessionState.initialized }, v1)
  unfolding start_on init_call login_call settle
  operate_init-signing c w s v o signing accepted no_login =
      let (ret, v1) = t.sign_init s (some c.mechanism) (handle_of c w).0 v in
      let good : (ret == Rv.ok) ≡ true = rw accepted refl in
      operate_init-Opens c w s v o ∙ rw (start_on, signing, no_login, good) refl
