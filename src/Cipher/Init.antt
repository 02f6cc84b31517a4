-- ===== src/Cipher/Init.antt =====
-- src/cipher.c: how an operation begins, first with the key and the IV, then with a session.
pub mod Kept
use pkcs11_provider.Base.{
  ℕ, Bool, false, not, ◌&&◌, ◌||◌, Option, none, some, List, [], ◌∷◌, ◌==◌, if◌then◌else◌,
}
use pkcs11_provider.Codes.Rv
use pkcs11_provider.Cipher.Params.{
  Params, Context, SessionState, ckf_encrypt, ckf_decrypt, aes_ecb, aes_cbc, aes_cbc_pad, aes_cts,
  set_ctx_params,
}
use pkcs11_provider.Cipher.Token.{Token}

-- In TLS, the padding of CBC is not left to the module.
abbrev unpadded : Context → Context
unpadded c =
    if not (c.tlsver == 0) && c.mechanism == aes_cbc_pad
    then record c { mechanism = aes_cbc }
    else c

module _ {W : Type 0} (t : Token W) where
  -- An IV that is null or empty only clears the parameter.
  set_iv : Option (List ℕ) → Context → W → ℕ × Context × W
  set_iv none c w = (Rv.ok, record c { param = none }, w)
  set_iv (some []) c w = (Rv.ok, record c { param = none }, w)
  set_iv (some (b ∷ bs)) c w =
      let (there, w') = t.memdup w in
      if there
      then (Rv.ok, record c { param = some (b ∷ bs) }, w')
      else (Rv.host_memory, record c { param = none }, w')

  -- With the IV and the parameters. All mechanisms but ECB, CBC and CTS are refused.
  prep_mech : Option (List ℕ) → Params → Context → W → ℕ × Context × W
  unfolding set_iv
  prep_mech iv p c w =
      let set_params : Context → W → ℕ × Context × W = (λ c w.
        let (done, c') = set_ctx_params p c in
        (if done then Rv.ok else Rv.mechanism_param_invalid, c', w)) in
      let (rv, c1, w1) = set_iv iv c w in
      if c.mechanism == aes_ecb
      then set_params c w
      else (if c.mechanism == aes_cbc || (c.mechanism == aes_cbc_pad || c.mechanism == aes_cts)
          then (if rv == Rv.ok then set_params c1 w1 else (rv, c1, w1))
          else (Rv.mechanism_invalid, c, w))

  -- With the key, the operation, the IV and the parameters.
  unfoldable pub op_init : Option ℕ → ℕ → Option (List ℕ) → Params → Context → W → ℕ × Context × W
  unfolding prep_mech
  op_init key op iv p c w =
      let (status, w1) = t.status w in
      let (rv, c2, w2) = prep_mech iv p (record c { operation = op }) w1 in
      let keyed : ℕ × Context × W = elim key [
        | none ↦ (Rv.ok, c2, w2)
        | some k ↦
            let (ref, w3) = t.obj_ref k w2 in
            (elim ref [ none ↦ Rv.key_needed | some r ↦ Rv.ok ], record c2 { key = ref }, w3)
      ] in
      if not (status == Rv.ok)
      then (status, c, w1)
      else (if rv == Rv.ok then keyed else (rv, c2, w2))

  -- With an imported key, which is then given up, or none.
  with_key : Option ℕ → ℕ → Option (List ℕ) → Params → Context → W → Bool × Context × W
  unfolding op_init
  with_key skey op iv p c w =
      let (rv, c', w') = op_init skey op iv p c w in (rv == Rv.ok, c', t.obj_free skey w')

  -- The bytes of the key are imported, unless the key is null or empty.
  import_and_init :
      Option (List ℕ) → ℕ → Option (List ℕ) → Params → Context → W → Bool × Context × W
  unfolding with_key
  import_and_init none op iv p c w = with_key none op iv p c w
  import_and_init (some []) op iv p c w = with_key none op iv p c w
  import_and_init (some (b ∷ bs)) op iv p c w =
      let (skey, w2) = t.import_secret_key (b ∷ bs) w in
      elim skey [ none ↦ (false, c, w2) | some k ↦ with_key (some k) op iv p c w2 ]

  -- With the operation, the bytes of the key, the IV and the parameters: whether it succeeds.
  pub legacy_init :
      ℕ → Option (List ℕ) → Option (List ℕ) → Params → Context → W → Bool × Context × W
  unfolding import_and_init
  legacy_init op key iv p c w =
      let (status, w1) = t.status w in
      let rest = import_and_init key op iv p c w1 in
      if not (status == Rv.ok) then (false, c, w1) else rest

  -- The module's init call, on a context with a session.
  start_operation : ℕ → Context → W → ℕ × W
  start_operation s c w =
      let m = some (c.mechanism, c.param) in
      if c.operation == ckf_encrypt
      then t.encrypt_init s m c.key w
      else (if c.operation == ckf_decrypt
          then t.decrypt_init s m c.key w
          else (Rv.general_error, w))

  -- The session goes into the context, whether or not the operation starts on it.
  start_on : ℕ → Context → W → ℕ × Context × W
  unfolding start_operation
  start_on s c w =
      let c1 = record c { session = some s } in
      let (rv, w1) = start_operation s c1 w in
      (
        rv,
        if rv == Rv.ok then record c1 { session_state = SessionState.sess_initialized } else c1,
        w1,
      )

  -- With the answer of `p11prov_try_session_ref`: the return value and the session. That gives a session
  -- whenever it succeeds; the return value for a success without one stands for a case that cannot occur.
  start_with : ℕ → Option ℕ → Context → W → ℕ × Context × W
  unfolding start_on
  start_with rv none c w = (if rv == Rv.ok then Rv.general_error else rv, c, w)
  start_with rv (some s) c w = if rv == Rv.ok then start_on s c w else (rv, c, w)

  unfoldable pub session_init : Context → W → ℕ × Context × W
  unfolding start_with
  session_init c w =
      let c1 = unpadded c in
      let (rv, got, w1) = t.try_session_ref c1.key c1.mechanism w in start_with rv got c1 w1
