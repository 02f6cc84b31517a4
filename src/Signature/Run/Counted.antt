-- ===== src/Signature/Run/Counted.antt =====
-- How signing and verifying change the number of sessions that are taken.
use pkcs11_provider.Base.{
  ℕ, ◌+◌, ◌≡◌, refl, ap, ◌∙◌, inl, inr, Bool, true, false, Option, none, some, List, arith, ◌==◌,
  Bool-cases,
}
use pkcs11_provider.Codes.{invalid_handle}
use pkcs11_provider.Codes.Rv
use pkcs11_provider.Signature.Token.{Token, Counts}
use pkcs11_provider.Signature.Context.{Context, SessionState, ckf_sign, operate_init}
use pkcs11_provider.Signature.Context.Counted.{one_for, Kept, operate_init-Begun}
use pkcs11_provider.Signature.Run.{
  Operate, operate_on, operate, update_on, needs_session, digest_update, abandon, freectx,
}

-- A way to sign or verify in one piece that gives back what it takes.
abbrev pub Neutral : {W : Type 0} → (W → ℕ) → Operate W → Type 0
Neutral {W} held f =
    (sig : Option (List ℕ)) (n : ℕ) (tbs : List ℕ) (c : Context) (w : W)
    → let (ret, out, c', w') = f sig n tbs c w in Kept held c w c' w'

module _ {W : Type 0} (t : Token W) (held : W → ℕ) (laws : Counts t held) where
  pub given_back :
      (s : Option ℕ) (n : ℕ) (w : W) → held w ≡ n + one_for s → held (t.return_session s w) ≡ n
  given_back none n w one = omega (arith, one, laws.none_returned w)
  given_back (some s) n w one = omega (arith, one, laws.returned s w)

  operate_on-Kept :
      (s : Option ℕ) (sig : List ℕ) (sigsize : ℕ) (tbs : List ℕ) (c : Context) (w v : W)
      → held w ≡ held v + one_for s
      → let (ret, out, c', w') = operate_on t s sig sigsize tbs c w in Kept held c v c' w'
  unfolding operate_on
  operate_on-Kept s sig sigsize tbs c w v one =
      let e =
        given_back s (held v) (t.sign s tbs sigsize w).2 (laws.sign_held s tbs sigsize w ∙ one) in
      let d = given_back s (held v) (t.verify s tbs sig w).1 (laws.verify_held s tbs sig w ∙ one) in
      elim (Bool-cases (c.operation == ckf_sign)) [
        | inl signing ↦ rw signing (record { session = refl; count = e })
        | inr verifying ↦ rw verifying (record { session = refl; count = d })
      ]

  pub operate-Neutral : Neutral held (operate t)
  unfolding operate
  operate-Neutral none sigsize tbs c w = record { session = refl; count = refl }
  operate-Neutral (some sig) sigsize tbs c w =
      let (ret, s, c1, w1) = operate_init t false c w in
      let b = operate_init-Begun t held laws false c w in
      let k = operate_on-Kept s sig sigsize tbs c1 w1 w b.count in
      elim (Bool-cases (ret == Rv.ok)) [
        | inl good ↦ rw good (record { session = k.session ∙ b.session; count = k.count })
        | inr bad ↦
            let no_session = ap one_for (b.failed bad) in
            rw bad (record { session = b.session; count = omega (arith, b.count, no_session) })
      ]

  update_on-held :
      (bytes : List ℕ) (n : ℕ) (c : Context) (w : W)
      → held w ≡ n + one_for c.session
      → let (done, c', w') = update_on t bytes c w in held w' ≡ n + one_for c'.session
  unfolding update_on
  update_on-held bytes n c w one = by_digest c.fallback_digest c.session one
    where
      by_digest :
          (m s : Option ℕ)
          → held w ≡ n + one_for s
          → let c0 = record c { fallback_digest = m; session = s } in
            let (done, c', w') = update_on t bytes c0 w in held w' ≡ n + one_for c'.session
      by_digest (some m) s one = laws.md_update_held m bytes w ∙ one
      by_digest none none one = one
      by_digest none (some s) one =
          let e = laws.sign_update_held s bytes w in
          let d = laws.verify_update_held s bytes w in
          let re = laws.returned s (t.sign_update s bytes w).1 in
          let rd = laws.returned s (t.verify_update s bytes w).1 in
          ground (arith, e, d, re, rd, one)

  -- A context that is begun here has no session.
  needs_session-none : (c : Context) → needs_session c ≡ true → c.session ≡ none
  unfolding needs_session
  needs_session-none c need = by_digest c.fallback_digest c.session need
    where
      by_digest :
          (m s : Option ℕ)
          → (elim m as (λ x. Bool) [
            | some m ↦ false
            | none ↦ elim s as (λ x. Bool) [ none ↦ true | some s ↦ false ]
          ])
            ≡ true
          → s ≡ none
      by_digest (some m) s need = cc
      by_digest none none need = refl
      by_digest none (some s) need = cc

  pub digest_update-held :
      (bytes : List ℕ) (n : ℕ) (c : Context) (w : W)
      → held w ≡ n + one_for c.session
      → let (done, c', w') = digest_update t bytes c w in held w' ≡ n + one_for c'.session
  unfolding digest_update
  digest_update-held bytes n c w one =
      let (ret, s, c1, w1) = operate_init t true c w in
      let b = operate_init-Begun t held laws true c w in
      elim (Bool-cases (needs_session c)) [
        | inr running ↦ rw running (update_on-held bytes n c w one)
        | inl need ↦
            let free = ap one_for (needs_session-none c need) in
            let same = ap one_for b.session in
            elim (Bool-cases (ret == Rv.ok)) [
              | inl good ↦
                  rw (need, good)
                    (update_on-held bytes n (record c1 { session = s }) w1
                      (omega (arith, b.count, one, free)))
              | inr bad ↦
                  let no_session = ap one_for (b.failed bad) in
                  rw (need, bad) (omega (arith, b.count, no_session, one, same))
            ]
      ]

  abandon-held : (s : ℕ) (c : Context) (w : W) → held (abandon t s c w) ≡ held w
  unfolding abandon
  abandon-held s c w =
      let v1 = (t.sign_init s none invalid_handle w).1 in
      let v2 = (t.verify_init s none invalid_handle w).1 in
      let e = laws.sign_init_held s none invalid_handle w in
      let d = laws.verify_init_held s none invalid_handle w in
      let ce = laws.cancel_held s c.operation v1 in
      let cd = laws.cancel_held s c.operation v2 in
      let be = laws.broken_held s (t.session_cancel s c.operation v1).1 in
      let bd = laws.broken_held s (t.session_cancel s c.operation v2).1 in
      ground (arith, e, d, ce, cd, be, bd)

  -- Freeing a context gives its session back.
  pub freectx-held :
      (n : ℕ) (c : Context) (w : W) → held w ≡ n + one_for c.session → held (freectx t c w) ≡ n
  unfolding freectx
  freectx-held n c w one = by_session c.session c.session_state one
    where
      freed : (v : W) → held v ≡ n → held (t.obj_free c.key (t.md_free c.fallback_digest v)) ≡ n
      freed v e =
          laws.free_held c.key (t.md_free c.fallback_digest v)
          ∙ laws.md_free_held c.fallback_digest v
          ∙ e

      by_session :
          (o : Option ℕ) (st : SessionState)
          → held w ≡ n + one_for o
          → held (freectx t (record c { session = o; session_state = st }) w) ≡ n
      by_session none st one = freed w (omega (arith, one))
      by_session (some s) SessionState.initialized one =
          let c' = record c { session = some s; session_state = SessionState.initialized } in
          let v = abandon t s c' w in
          freed (t.return_session (some s) v)
            (omega (arith, one, laws.returned s v, abandon-held s c' w))
      by_session (some s) SessionState.unused one =
          freed (t.return_session (some s) w) (omega (arith, one, laws.returned s w))
      by_session (some s) SessionState.finalized one =
          freed (t.return_session (some s) w) (omega (arith, one, laws.returned s w))
