-- ===== src/Signature/Copy.antt =====
-- `p11prov_sig_dupctx` of src/sig/signature.c: a context is copied, and the session moves to the copy.
pub mod Counted
use pkcs11_provider.Base.{ℕ, not, ◌||◌, Option, none, some, List, ◌==◌, if◌then◌else◌}
use pkcs11_provider.Codes.{unavailable, invalid_handle}
use pkcs11_provider.Codes.Rv
use pkcs11_provider.Signature.Token.{Token}
use pkcs11_provider.Signature.Context.{Context, SessionState, ckf_sign, ckf_verify, fresh}
use pkcs11_provider.Signature.Run.{freectx}

-- The copy without what needs memory and without the session, with its own reference to the key.
abbrev pub copied : Option ℕ → Context → Context
copied key c = record (fresh c.mechtype) { key = key; digest = c.digest; operation = c.operation }

-- A context that is left without a session has none in use.
abbrev settled : Context → Context
settled c = elim c.session [ none ↦ record c { session_state = SessionState.unused } | some s ↦ c ]

module _ {W : Type 0} (t : Token W) where
  -- The old context takes a second session and the saved state; with the slot and the key's handle.
  restore : ℕ → ℕ → List ℕ → Context → W → Context × W
  restore slotid handle state c w =
      let (ret, s, w1) = t.get_session slotid c.mechtype (c.operation == ckf_sign) w in
      let (ret', w2) = t.set_operation_state s state handle w1 in
      if not (ret == Rv.ok)
      then (c, w1)
      else (if ret' == Rv.ok
          then (record c { session = some s }, w2)
          else (c, t.return_session (some s) w2))

  -- Behind the move of the session `s` to the new context.
  save : ℕ → ℕ → ℕ → Context → W → Context × W
  unfolding restore
  save slotid handle s c w =
      let (ret, len, w1) = t.operation_state_length s w in
      let (room, w2) = t.malloc w1 in
      let (ret', state, w3) = t.operation_state s w2 in
      if not (ret == Rv.ok)
      then (c, w1)
      else (if not room
          then (c, w2)
          else (if ret' == Rv.ok then restore slotid handle state c w3 else (c, w3)))

  -- The old context, the new one and the world, when the new one has all but the session.
  move_session : ℕ → ℕ → Context → Context → W → Context × Option Context × W
  unfolding save
  move_session slotid handle c new w = elim c.session [
    | none ↦ (c, some new, w)
    | some s ↦
        let new' = record new { session = some s; session_state = c.session_state } in
        let c' = record c { session = none } in
        let (c'', w1) = save slotid handle s c' w in
        if slotid == unavailable || handle == invalid_handle
        then (settled c', some new', w)
        else (settled c'', some new', w1)
  ]

  -- The copy of the digest of OpenSSL's; where that fails, the new context is freed.
  copy_digest : ℕ → ℕ → Context → Context → W → Context × Option Context × W
  unfolding move_session
  copy_digest slotid handle c new w = elim c.fallback_digest [
    | none ↦ move_session slotid handle c new w
    | some m ↦
        let (ctx, w1) = t.md_new w in
        elim ctx [
          | none ↦ (c, none, freectx t new w1)
          | some n ↦
              let (done, w2) = t.md_copy n m w1 in
              let new' = record new { fallback_digest = some n } in
              if done then move_session slotid handle c new' w2 else (c, none, freectx t new' w2)
        ]
  ]

  -- The copy of the signature that is to be verified.
  copy_signature : ℕ → ℕ → Context → Context → W → Context × Option Context × W
  unfolding copy_digest
  copy_signature slotid handle c new w = elim c.signature [
    | none ↦ copy_digest slotid handle c (record new { digest_op = c.digest_op }) w
    | some bytes ↦
        let (room, w1) = t.malloc w in
        let new' = record new { signature = some bytes; digest_op = c.digest_op } in
        let rest = copy_digest slotid handle c new' w1 in
        if room then rest else (c, none, freectx t new w1)
  ]

  -- The old context and, if all goes well, the new one.
  pub dupctx : Context → W → Context × Option Context × W
  unfolding copy_signature
  dupctx c w =
      let slotid = t.get_slotid c.key w in
      let (handle, w1) = t.get_handle c.key w in
      let (room, w2) = t.malloc w1 in
      let (key, w3) = t.obj_ref c.key w2 in
      let rest = copy_signature slotid handle c (copied key c) w3 in
      if c.operation == ckf_sign || c.operation == ckf_verify
      then (if room then rest else (c, none, w2))
      else (c, none, w)
