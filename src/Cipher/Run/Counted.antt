-- ===== src/Cipher/Run/Counted.antt =====
-- How sending data and ending an operation change the number of sessions that are taken.
use pkcs11_provider.Base.{
  ℕ, ◌+◌, ◌%◌, ◌≡◌, refl, ◌∙◌, inl, inr, not, ◌&&◌, Option, none, some, List, [], ◌++◌, arith, ◌==◌,
  Bool-cases,
}
use pkcs11_provider.Cipher.Init.{session_init}
use pkcs11_provider.Codes.Rv
use pkcs11_provider.Cipher.Unpad.{tlsunpad, Unpadded, aes_block}
use pkcs11_provider.Cipher.Params.{Context, ckf_encrypt, ckf_decrypt, SessionState}
use pkcs11_provider.Cipher.Params.Kept.{IsSmall}
use pkcs11_provider.Cipher.Token.{Token, Counts}
use pkcs11_provider.Cipher.Init.Kept.{holds_session, session_init-counted}
use pkcs11_provider.Cipher.Run.{
  declined, run_started, Chunk, Done, final, freectx, abandon, run, tls_encrypt, tls_decrypt,
  tls_padding, after_unpad, update, is_record,
}

-- The sessions that are taken by others number `n`, behind a call and before it.
pub record Counted {W : Type 0} (held : W → ℕ) (n : ℕ) (c : Context) (d : Done W) : Type 0 where
  pub count : held d.world ≡ n + holds_session d.ctx
  pub small : IsSmall c → IsSmall d.ctx

-- The same for a call that may read outside the buffer.
abbrev pub Answered : {W : Type 0} → (W → ℕ) → ℕ → Context → Option (Done W) → Type 0
Answered held n c none = Unit
Answered held n c (some d) = Counted held n c d

module _ {W : Type 0} (t : Token W) (held : W → ℕ) (laws : Counts t held) where
  -- On a context with a session, which is counted.
  module _ (s n : ℕ) (k : Chunk) (c : Context) (w : W) (here : c.session ≡ some s)
      (one : held w ≡ n + 1) where
    tls_encrypt-Counted : (bytes : List ℕ) → Counted held n c (tls_encrypt t s bytes k c w)
    unfolding tls_encrypt
    tls_encrypt-Counted bytes =
        let (o, w1) = t.encrypt s (bytes ++ tls_padding k.inlen) k.outsize w in
        let e = laws.encrypt_held s (bytes ++ tls_padding k.inlen) k.outsize w in
        let r = laws.returned s w1 in
        record { count = ground (arith, e, r); small = λ h. ground (arith, h) }

    declined-Counted : Counted held n c (declined c w)
    declined-Counted = record { count = rw (holds_session, here) one; small = λ h. h }

    after_unpad-Answered :
        (out : List ℕ) (v : W) (u : Option Unpadded)
        → held v ≡ n
        → Answered held n c (after_unpad out c v u)
    unfolding after_unpad
    after_unpad-Answered out v none e = tt
    after_unpad-Answered out v (some (rv, len, mac)) e = record {
      count = omega (arith, e);
      small = λ h. h;
    }

    tls_decrypt-Answered : (bytes : List ℕ) → Answered held n c (tls_decrypt t s bytes k c w)
    unfolding tls_decrypt
    tls_decrypt-Answered bytes =
        let (o, w1) = t.decrypt s bytes k.outsize w in
        let w2 = t.return_session s w1 in
        let (chance, w3) = t.chance w2 in
        let e = laws.decrypt_held s bytes k.outsize w in
        let r = laws.returned s w1 in
        let q = laws.chance_held w2 in
        let unpadded = tlsunpad chance c.tlsver c.tlsmacsize o.out k.inlen o.outlen in
        let inner = after_unpad-Answered o.out w3 unpadded (omega (arith, e, r, q)) in
        elim (Bool-cases (k.inlen % aes_block == 0)) [
          | inr odd ↦ rw odd declined-Counted
          | inl whole ↦ elim (Bool-cases (o.rv == Rv.ok)) [
            | inr bad ↦ rw (whole, bad) (record { count = omega (arith, e, r); small = λ h. h })
            | inl good ↦ rw (whole, good) inner
          ]
        ]

    run-Answered : Answered held n c (run t s k c w)
    unfolding run
    run-Answered =
        let bytes : List ℕ = elim k.input [ none ↦ [] | some bytes ↦ bytes ] in
        let e = laws.encrypt_update_held s k.input k.inlen k.outsize w in
        let d = laws.decrypt_update_held s k.input k.inlen k.outsize w in
        elim (Bool-cases (c.operation == ckf_encrypt)) [
          | inl enc ↦ elim (Bool-cases (c.tlsver == 0)) [
            | inl plain ↦
                rw (enc, plain)
                  (record { count = rw (holds_session, here) (e ∙ one); small = λ h. h })
            | inr tls ↦ rw (enc, tls) (tls_encrypt-Counted bytes)
          ]
          | inr not_enc ↦ elim (Bool-cases (c.operation == ckf_decrypt)) [
            | inr neither ↦ rw (not_enc, neither) declined-Counted
            | inl dec ↦ elim (Bool-cases (c.tlsver == 0)) [
              | inl plain ↦
                  rw (not_enc, dec, plain)
                    (record { count = rw (holds_session, here) (d ∙ one); small = λ h. h })
              | inr tls ↦ rw (not_enc, dec, tls) (tls_decrypt-Answered bytes)
            ]
          ]
        ]

  pub final-Counted :
      (outsize n : ℕ) (c : Context) (w : W)
      → held w ≡ n + holds_session c
      → Counted held n c (final t outsize c w)
  unfolding final
  final-Counted outsize n c w one = by_session c.session one
    where
      by_session :
          (o : Option ℕ)
          → held w ≡ n + elim o [ none ↦ 0 | some s ↦ 1 ]
          → let c' = record c { session = o } in Counted held n c' (final t outsize c' w)
      by_session none one = record { count = one; small = λ h. h }
      by_session (some s) one =
          let (eo, ew) = t.encrypt_final s outsize w in
          let (de, dw) = t.decrypt_final s outsize w in
          let e = laws.encrypt_final_held s outsize w in
          let d = laws.decrypt_final_held s outsize w in
          let re = laws.returned s ew in
          let rd = laws.returned s dw in
          let r = laws.returned s w in
          record { count = ground (arith, e, d, re, rd, r); small = λ h. ground (arith, h) }

  abandon-held : (s : ℕ) (c : Context) (w : W) → held (abandon t s c w) ≡ held w
  unfolding abandon
  abandon-held s c w =
      let e = laws.encrypt_init_held s none none w in
      let d = laws.decrypt_init_held s none none w in
      let ce = laws.cancel_held s c.operation (t.encrypt_init s none none w).1 in
      let cd = laws.cancel_held s c.operation (t.decrypt_init s none none w).1 in
      let be =
        laws.broken_held s (t.session_cancel s c.operation (t.encrypt_init s none none w).1).1 in
      let bd =
        laws.broken_held s (t.session_cancel s c.operation (t.decrypt_init s none none w).1).1 in
      ground (arith, e, d, ce, cd, be, bd)

  -- Freeing a context gives its session back, whatever state the session is in.
  pub freectx-held :
      (n : ℕ) (c : Context) (w : W) → held w ≡ n + holds_session c → held (freectx t c w) ≡ n
  unfolding freectx
  freectx-held n c w one = by_session c.session c.session_state one
    where
      by_session :
          (o : Option ℕ) (st : SessionState)
          → held w ≡ n + elim o [ none ↦ 0 | some s ↦ 1 ]
          → held (freectx t (record c { session = o; session_state = st }) w) ≡ n
      by_session none st one = omega (arith, one, laws.free_held c.key w)
      by_session (some s) SessionState.sess_initialized one =
          let c' = record c { session = some s } in
          let v = abandon t s c' w in
          omega (
            arith,
            one,
            laws.free_held c.key (t.return_session s v),
            laws.returned s v,
            abandon-held s c' w,
          )
      by_session (some s) SessionState.sess_unused one =
          omega (arith, one, laws.free_held c.key (t.return_session s w), laws.returned s w)
      by_session (some s) SessionState.sess_finalized one =
          omega (arith, one, laws.free_held c.key (t.return_session s w), laws.returned s w)

  run_started-Answered :
      (rv : ℕ) (k : Chunk) (n : ℕ) (c : Context) (w : W)
      → held w ≡ n + holds_session c
      → Answered held n c (run_started t rv k c w)
  unfolding run_started
  run_started-Answered rv k n c w one = by_session c.session one
    where
      by_session :
          (o : Option ℕ)
          → held w ≡ n + elim o [ none ↦ 0 | some s ↦ 1 ]
          → let c' = record c { session = o } in Answered held n c' (run_started t rv k c' w)
      by_session none one = record { count = one; small = λ h. h }
      by_session (some s) one =
          let c' = record c { session = some s } in
          elim (Bool-cases (rv == Rv.ok)) [
            | inr bad ↦ rw bad (record { count = one; small = λ h. h })
            | inl good ↦ rw good (run-Answered s n k c' w refl one)
          ]

  pub update-Answered :
      (k : Chunk) (n : ℕ) (c : Context) (w : W)
      → held w ≡ n + holds_session c
      → Answered held n c (update t k c w)
  unfolding update
  update-Answered k n c w one = by_session c.session one
    where
      Answered-from :
          (c c' : Context) (o : Option (Done W))
          → (IsSmall c → IsSmall c')
          → Answered held n c' o
          → Answered held n c o
      Answered-from c c' none is a = tt
      Answered-from c c' (some d) is a = record { count = a.count; small = λ h. a.small (is h) }

      by_session :
          (o : Option ℕ)
          → held w ≡ n + elim o [ none ↦ 0 | some s ↦ 1 ]
          → let c' = record c { session = o } in Answered held n c' (update t k c' w)
      by_session o one =
          let c' = record c { session = o } in
          elim (Bool-cases (not (c.tlsver == 0) && not (is_record c' k))) [
            | inl bad ↦ rw bad (record { count = one; small = λ h. h })
            | inr good ↦ rw good (past o one)
          ]
        where
          past :
              (o : Option ℕ)
              → held w ≡ n + elim o [ none ↦ 0 | some s ↦ 1 ]
              → let c' = record c { session = o } in
                let (rv, c1, w1) = session_init t c' w in
                Answered held n c'
                  (elim o [ none ↦ run_started t rv k c1 w1 | some s ↦ run t s k c' w ])
          past none one =
              let c' = record c { session = none } in
              let (rv, c1, w1) = session_init t c' w in
              let (count, small) = session_init-counted t held laws c' w refl in
              Answered-from c' c1 (run_started t rv k c1 w1) small
                (run_started-Answered rv k n c1 w1 (omega (arith, count, one)))
          past (some s) one = run-Answered s n k (record c { session = some s }) w refl one
