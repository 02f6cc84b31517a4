-- ===== src/Signature/Ecdsa/Ledger.antt =====
-- The sessions of a context of src/sig/ecdsa.c, from its making to its end.
use pkcs11_provider.Base.{ℕ, Bool, Option, List, [], ◌∷◌}
use pkcs11_provider.Codes.Rv
use pkcs11_provider.Signature.Token.{Token}
use pkcs11_provider.Signature.Context.{Context, fresh}
use pkcs11_provider.Signature.Run.{freectx}
use pkcs11_provider.Signature.Der.{Asn1}
use pkcs11_provider.Signature.Run
use pkcs11_provider.Signature.Ecdsa.{
  Keys, Params, ckm_ecdsa, set_ctx_params, sign_init, verify_init, digest_sign_init,
  digest_verify_init, digest_update, sign, verify, digest_sign_final, digest_verify_final,
  verify_message_final,
}

-- The calls on a context. Those that sign or verify have the buffer on the stack, as it is before.
pub data Call : Type 0 where
  sign_inits : Option ℕ → Option Params → Call
  verify_inits : Option ℕ → Option Params → Call
  signs : List ℕ → Option ℕ → List ℕ → Call
  verifies : List ℕ → List ℕ → List ℕ → Call
  digest_sign_inits : Option (List ℕ) → Option ℕ → Option Params → Call
  digest_verify_inits : Option (List ℕ) → Option ℕ → Option Params → Call
  digest_updates : List ℕ → Call
  digest_sign_finals : List ℕ → Option ℕ → Call
  digest_verify_finals : List ℕ → List ℕ → Call
  verify_message_finals : List ℕ → Call
  sets_ctx_params : Option Params → Call

abbrev left_by : {A W : Type 0} → A × Context × W → Context × W
left_by (answer, c, w) = (c, w)

module _ {W B S : Type 0} (keys : Keys W) (a : Asn1 B S) (t : Token W)
    (same : List ℕ → List ℕ → Bool) where
  -- The context and the state behind a call, whatever it answers.
  pub call : Call → Context → W → Context × W
  call (sign_inits key params) c w = left_by (sign_init t same key params c w)
  call (verify_inits key params) c w = left_by (verify_init t same key params c w)
  call (signs raw size tbs) c w = left_by (sign keys a t raw size tbs c w)
  call (verifies raw sig tbs) c w = left_by (verify keys a t raw sig tbs c w)
  call (digest_sign_inits digest key params) c w =
      left_by (digest_sign_init t same digest key params c w)
  call (digest_verify_inits digest key params) c w =
      left_by (digest_verify_init t same digest key params c w)
  call (digest_updates bytes) c w = left_by (digest_update t bytes c w)
  call (digest_sign_finals raw size) c w = left_by (digest_sign_final keys a t same raw size c w)
  call (digest_verify_finals raw sig) c w = left_by (digest_verify_final keys a t same raw sig c w)
  call (verify_message_finals raw) c w = left_by (verify_message_final keys a t same raw c w)
  call (sets_ctx_params params) c w = ((set_ctx_params same params c).1, w)

  pub calls : List Call → Context → W → Context × W
  calls [] c w = (c, w)
  calls (x ∷ xs) c w = let (c1, w1) = call x c w in calls xs c1 w1

  -- A context that is made, used and freed.
  pub lifetime : List Call → W → W
  lifetime xs w = let (c, w1) = calls xs (fresh ckm_ecdsa) w in freectx t c w1
