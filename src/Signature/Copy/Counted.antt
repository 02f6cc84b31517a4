-- ===== src/Signature/Copy/Counted.antt =====
-- How the copy of a context changes the number of sessions that are taken.
use pkcs11_provider.Base.{
  ℕ, ◌+◌, ◌≡◌, refl, ap, ◌∙◌, inl, inr, ◌||◌, Option, none, some, List, arith, ◌==◌, if◌then◌else◌,
  Bool-cases, set,
}
use pkcs11_provider.Codes.{unavailable, invalid_handle}
use pkcs11_provider.Codes.Rv
use pkcs11_provider.Signature.Token.{Token, Counts}
use pkcs11_provider.Signature.Context.{Context, ckf_sign, ckf_verify}
use pkcs11_provider.Signature.Context.Counted.{one_for}
use pkcs11_provider.Signature.Run.{freectx}
use pkcs11_provider.Signature.Run.Counted.{freectx-held}
use pkcs11_provider.Signature.Copy.{
  restore, save, settled, move_session, copy_digest, copy_signature, dupctx, copied,
}

-- The sessions of a copy, if there is one.
abbrev pub sessions_of : Option Context → ℕ
sessions_of none = 0
sessions_of (some c) = one_for c.session

-- What a step of the copy leaves, where the sessions that others have taken number `n`.
abbrev Copied : {W : Type 0} → (W → ℕ) → ℕ → Context × Option Context × W → Type 0
Copied held n (c, new, w) = held w ≡ n + one_for c.session + sessions_of new

settled-session : (c : Context) → one_for (settled c).session ≡ one_for c.session
settled-session c = by_session c.session
  where
    by_session : (o : Option ℕ) → one_for (settled (record c { session = o })).session ≡ one_for o
    by_session none = refl
    by_session (some s) = refl

module _ {W : Type 0} (t : Token W) (held : W → ℕ) (laws : Counts t held) where
  restore-held :
      (slotid handle : ℕ) (state : List ℕ) (c : Context) (w : W)
      → c.session ≡ none
      → let (c', w') = restore t slotid handle state c w in held w' ≡ held w + one_for c'.session
  unfolding restore
  restore-held slotid handle state c w free =
      let signing = c.operation == ckf_sign in
      let (ret, s, w1) = t.get_session slotid c.mechtype signing w in
      let (ret', w2) = t.set_operation_state s state handle w1 in
      let e = laws.set_held s state handle w1 in
      let r = laws.returned s w2 in
      let none' = ap one_for free in
      elim (Bool-cases (ret == Rv.ok)) [
        | inr bad ↦
            let same = laws.not_taken slotid c.mechtype signing w (ground arith) in
            rw bad (omega (arith, same, none'))
        | inl good ↦
            let more = laws.taken slotid c.mechtype signing w (ground arith) in
            elim (Bool-cases (ret' == Rv.ok)) [
              | inl set ↦ rw (good, set) (omega (arith, e, more))
              | inr failed ↦ rw (good, failed) (omega (arith, e, more, r, none'))
            ]
      ]

  save-held :
      (slotid handle s : ℕ) (c : Context) (w : W)
      → c.session ≡ none
      → let (c', w') = save t slotid handle s c w in held w' ≡ held w + one_for c'.session
  unfolding save
  save-held slotid handle s c w free =
      let (ret, len, w1) = t.operation_state_length s w in
      let (room, w2) = t.malloc w1 in
      let (ret', state, w3) = t.operation_state s w2 in
      let e1 = laws.length_held s w in
      let e2 = laws.malloc_held w1 in
      let e3 = laws.state_held s w2 in
      let none' = ap one_for free in
      let r = restore-held slotid handle state c w3 free in
      elim (Bool-cases (ret == Rv.ok)) [
        | inr bad ↦ rw bad (omega (arith, e1, none'))
        | inl good ↦ elim (Bool-cases room) [
          | inr full_memory ↦ rw (good, full_memory) (omega (arith, e1, e2, none'))
          | inl there ↦ elim (Bool-cases (ret' == Rv.ok)) [
            | inr bad ↦ rw (good, there, bad) (omega (arith, e1, e2, e3, none'))
            | inl saved ↦ rw (good, there, saved) (omega (arith, e1, e2, e3, r))
          ]
        ]
      ]

  module _ (slotid handle n : ℕ) where
    move_session-Copied :
        (c new : Context) (w : W)
        → new.session ≡ none
        → held w ≡ n + one_for c.session
        → Copied held n (move_session t slotid handle c new w)
    unfolding move_session
    move_session-Copied c new w free one = by_session c.session one
      where
        by_session :
            (o : Option ℕ)
            → held w ≡ n + one_for o
            → Copied held n (move_session t slotid handle (record c { session = o }) new w)
        by_session none one = let none' = ap one_for free in omega (arith, one, none')
        by_session (some s) one =
            let c' = record c { session = none } in
            let r = save-held slotid handle s c' w refl in
            let e1 = settled-session (save t slotid handle s c' w).0 in
            elim (Bool-cases (slotid == unavailable || handle == invalid_handle)) [
              | inl bad ↦ rw bad (omega (arith, one))
              | inr good ↦ rw good (omega (arith, one, r, e1))
            ]

    -- Where a step fails, the new context is freed, and has no session.
    freed-Copied :
        (c new : Context) (w : W)
        → new.session ≡ none
        → held w ≡ n + one_for c.session
        → Copied held n (c, none, freectx t new w)
    freed-Copied c new w free one =
        let none' = ap one_for free in
        let e = freectx-held t held laws (held w) new w (omega (arith, none')) in
        omega (arith, e, one)

    copy_digest-Copied :
        (c new : Context) (w : W)
        → new.session ≡ none
        → held w ≡ n + one_for c.session
        → Copied held n (copy_digest t slotid handle c new w)
    unfolding copy_digest
    copy_digest-Copied c new w free one = by_digest c.fallback_digest
      where
        by_copy :
            (m : ℕ) (ctx : Option ℕ) (v : W)
            → held v ≡ n + one_for c.session
            → let c0 = record c { fallback_digest = some m } in
              let r : Context × Option Context × W = elim ctx [
                | none ↦ (c0, none, freectx t new v)
                | some k ↦
                    let (done, w2) = t.md_copy k m v in
                    let new' = record new { fallback_digest = some k } in
                    if done
                    then move_session t slotid handle c0 new' w2
                    else (c0, none, freectx t new' w2)
              ] in
              Copied held n r
        by_copy m none v e = freed-Copied c new v free e
        by_copy m (some k) v e =
            let c0 = record c { fallback_digest = some m } in
            let new' = record new { fallback_digest = some k } in
            let (done, w2) = t.md_copy k m v in
            let e2 = laws.md_copy_held k m v ∙ e in
            elim (Bool-cases done) [
              | inl good ↦ rw good (move_session-Copied c0 new' w2 free e2)
              | inr bad ↦ rw bad (freed-Copied c0 new' w2 free e2)
            ]

        by_digest :
            (o : Option ℕ)
            → Copied held n (copy_digest t slotid handle (record c { fallback_digest = o }) new w)
        by_digest none = move_session-Copied (record c { fallback_digest = none }) new w free one
        by_digest (some m) = by_copy m (t.md_new w).0 (t.md_new w).1 (laws.new_held w ∙ one)

    copy_signature-Copied :
        (c new : Context) (w : W)
        → new.session ≡ none
        → held w ≡ n + one_for c.session
        → Copied held n (copy_signature t slotid handle c new w)
    unfolding copy_signature
    copy_signature-Copied c new w free one = by_signature c.signature
      where
        by_signature :
            (o : Option (List ℕ))
            → Copied held n (copy_signature t slotid handle (record c { signature = o }) new w)
        by_signature none =
            copy_digest-Copied (record c { signature = none })
              (record new { digest_op = c.digest_op }) w free one
        by_signature (some bytes) =
            let c0 = record c { signature = some bytes } in
            let new' = record new { signature = some bytes; digest_op = c.digest_op } in
            let (room, w1) = t.malloc w in
            let e = laws.malloc_held w ∙ one in
            elim (Bool-cases room) [
              | inl there ↦ rw there (copy_digest-Copied c0 new' w1 free e)
              | inr full_memory ↦ rw full_memory (freed-Copied c0 new w1 free e)
            ]

  -- Neither context loses a session, whichever step of the copy fails.
  pub dupctx-held :
      (n : ℕ) (c : Context) (w : W)
      → held w ≡ n + one_for c.session
      → let (c', new, w') = dupctx t c w in held w' ≡ n + one_for c'.session + sessions_of new
  unfolding dupctx
  dupctx-held n c w one =
      let slotid = t.get_slotid c.key w in
      let (handle, w1) = t.get_handle c.key w in
      let (room, w2) = t.malloc w1 in
      let (key, w3) = t.obj_ref c.key w2 in
      let e1 = laws.handle_held c.key w in
      let e2 = laws.malloc_held w1 in
      let e3 = laws.ref_held c.key w2 in
      let r = copy_signature-Copied slotid handle n c (copied key c) w3 refl (e3 ∙ e2 ∙ e1 ∙ one) in
      elim (Bool-cases (c.operation == ckf_sign || c.operation == ckf_verify)) [
        | inr neither ↦ rw neither (omega (arith, one))
        | inl known ↦ elim (Bool-cases room) [
          | inl there ↦ rw (known, there) r
          | inr full_memory ↦ rw (known, full_memory) (omega (arith, e1, e2, one))
        ]
      ]
