-- ===== src/Signature/Context.antt =====
-- src/sig/signature.c: the context of a signature, and how an operation is chosen for it.
pub mod Counted
pub mod Verifies
pub mod Opens
use pkcs11_provider.Base.{ℕ, Bool, false, not, ◌&&◌, Option, none, some, List, ◌==◌, if◌then◌else◌}
use pkcs11_provider.Codes.{unavailable, invalid_handle}
use pkcs11_provider.Codes.Rv
use pkcs11_provider.Digests.{get_name, get_by_name}
use pkcs11_provider.Signature.Token.{Token}

-- `CKF_SIGN` and `CKF_VERIFY`.
abbrev pub ckf_sign : ℕ
ckf_sign = 0x800

abbrev pub ckf_verify : ℕ
ckf_verify = 0x2000

-- `CKO_PUBLIC_KEY` and `CKO_PRIVATE_KEY`.
abbrev pub cko_public_key : ℕ
cko_public_key = 2

abbrev pub cko_private_key : ℕ
cko_private_key = 3

pub data SessionState : Type 0 where
  unused : SessionState
  initialized : SessionState
  finalized : SessionState

-- `struct p11prov_sig_ctx`, without the parameters that only one kind of signature has and without
-- `fallback_operate`, which is an argument where it is called. `mechanism` is the type in the mechanism.
pub record Context : Type 0 where
  pub key : Option ℕ
  pub mechtype : ℕ
  pub digest : ℕ
  pub operation : ℕ
  pub session : Option ℕ
  pub session_state : SessionState
  pub signature : Option (List ℕ)
  pub digest_op : Bool
  pub mechanism : ℕ
  pub fallback_digest : Option ℕ

-- What `p11prov_sig_newctx` fills in.
abbrev pub fresh : ℕ → Context
fresh mechtype = record {
  key = none;
  mechtype = mechtype;
  digest = 0;
  operation = 0;
  session = none;
  session_state = SessionState.unused;
  signature = none;
  digest_op = false;
  mechanism = unavailable;
  fallback_digest = none;
}

-- The context behind an init call with a return value.
abbrev begun_if : ℕ → Context → Context
begun_if ret c = if ret == Rv.ok then record c { session_state = SessionState.initialized } else c

module _ {W : Type 0} (t : Token W) where
  -- The key for an operation: the private one to sign, the public one of the pair to verify.
  pick_key : Option ℕ → ℕ → W → ℕ × Option ℕ × W
  pick_key key operation w =
      let class = t.get_class key w in
      let (other, w1) = t.find_associated key cko_public_key w in
      if operation == ckf_sign
      then (if class == cko_private_key
          then (Rv.ok, key, w)
          else (Rv.key_type_inconsistent, none, w))
      else (if operation == ckf_verify
          then (if class == cko_public_key
              then (Rv.ok, key, w)
              else (elim other [ none ↦ Rv.key_type_inconsistent | some k ↦ Rv.ok ], other, w1))
          else (Rv.general_error, none, w))

  -- The digest of a name, if one was given, with `OPENSSL_strcasecmp` against 0.
  set_digest : (List ℕ → List ℕ → Bool) → Option (List ℕ) → Context → ℕ × Context
  set_digest same none c = (Rv.ok, c)
  set_digest same (some name) c =
      let (ret, found) = get_by_name same name in
      (ret, elim found [ none ↦ c | some d ↦ record c { digest = d } ])

  unfoldable pub op_init :
      (List ℕ → List ℕ → Bool) → Option ℕ → ℕ → Option (List ℕ) → Context → W → ℕ × Context × W
  unfolding pick_key set_digest
  op_init same provkey operation digest c w =
      let (status, w1) = t.status w in
      let (ret, key, w2) = pick_key provkey operation w1 in
      let (ref, w3) = t.obj_ref key w2 in
      let c1 = record c { key = ref } in
      let (ret', c2) = set_digest same digest (record c1 { operation = operation }) in
      if not (status == Rv.ok)
      then (status, c, w1)
      else (if not (ret == Rv.ok)
          then (ret, c, w2)
          else elim ref [ none ↦ (Rv.key_needed, c1, w3) | some k ↦ (ret', c2, w3) ])

  -- The digest of OpenSSL in place of a mechanism that the token does not have.
  pub mech_fallback_init : ℕ → Context → W → ℕ × Context × W
  mech_fallback_init slotid c w =
      let (ret, name) = get_name c.digest in
      elim name [
        | none ↦ (ret, c, w)
        | some digest ↦
            let (fetched, w1) = t.md_fetch digest w in
            let (ctx, w2) = t.md_new w1 in
            let c' = record c { fallback_digest = ctx } in
            if not fetched then (Rv.general_error, c, w1) else elim ctx [
              | none ↦ (Rv.host_memory, c', w2)
              | some m ↦
                  let (begun, w3) = t.md_init m digest slotid w2 in
                  (if begun then Rv.ok else Rv.general_error, c', w3)
            ]
      ]

  -- The module's init call on a session.
  init_call : ℕ → ℕ → Context → W → ℕ × W
  init_call handle s c w =
      if c.operation == ckf_sign
      then t.sign_init s (some c.mechanism) handle w
      else t.verify_init s (some c.mechanism) handle w

  -- The login for one signature, where the key asks for it; its return value replaces that of the init
  -- call.
  login_call : ℕ → ℕ → Context → W → ℕ × W
  login_call ret s c w =
      if c.operation == ckf_sign && t.always_authenticate c.key w
      then t.context_specific_login s w
      else (ret, w)

  -- What becomes of the session.
  settle : ℕ → ℕ → Context → W → ℕ × Option ℕ × Context × W
  settle ret s c w =
      if ret == Rv.ok then (Rv.ok, some s, c, w) else (ret, none, c, t.return_session (some s) w)

  start_on : ℕ → ℕ → Context → W → ℕ × Option ℕ × Context × W
  unfolding init_call login_call settle
  start_on handle s c w =
      let (ret, w1) = init_call handle s c w in
      let (ret', w2) = login_call ret s c w1 in settle ret' s (begun_if ret c) w2

  -- Whether a digest is to be computed too: the return value and the session, which is null where the
  -- digest is left to OpenSSL.
  unfoldable pub operate_init : Bool → Context → W → ℕ × Option ℕ × Context × W
  unfolding mech_fallback_init start_on
  operate_init digest_op c w =
      let (status, w1) = t.status w in
      let (handle, w2) = t.get_handle c.key w1 in
      let slotid = t.get_slotid c.key w2 in
      let (ret, s, w3) = t.try_session_ref c.key c.mechanism (c.operation == ckf_sign) w2 in
      let (ret', c', w4) = mech_fallback_init slotid c w3 in
      if not (status == Rv.ok)
      then (status, none, c, w1)
      else (if handle == invalid_handle
          then (Rv.key_handle_invalid, none, c, w2)
          else (if slotid == unavailable
              then (Rv.slot_id_invalid, none, c, w2)
              else (if ret == Rv.ok
                  then start_on handle s c w3
                  else (if ret == Rv.mechanism_invalid
                        && (digest_op && not (c.mechanism == c.mechtype))
                      then (ret', none, c', t.return_session none w4)
                      else (ret, none, c, t.return_session none w3)))))
