-- ===== src/Signature/Context/Counted.antt =====
-- How choosing and beginning an operation change the number of sessions that are taken.
use pkcs11_provider.Base.{
  ℕ, ◌+◌, ◌≡◌, refl, ap, ◌∙◌, inl, inr, Bool, false, not, ◌&&◌, Option, none, some, List, arith,
  ◌==◌, if◌then◌else◌, Bool-cases,
}
use pkcs11_provider.Codes.{invalid_handle, unavailable}
use pkcs11_provider.Codes.Rv
use pkcs11_provider.Digests.{get_name, get_by_name}
use pkcs11_provider.Signature.Token.{Token, Counts}
use pkcs11_provider.Signature.Context.{
  begun_if, Context, cko_public_key, pick_key, set_digest, op_init, mech_fallback_init, start_on,
  operate_init, init_call, login_call, settle, ckf_sign,
}

-- One for a session.
abbrev pub one_for : Option ℕ → ℕ
one_for none = 0
one_for (some s) = 1

-- A call that takes no session and leaves the context's.
pub record Kept {W : Type 0} (held : W → ℕ) (c : Context) (w : W) (c' : Context) (w' : W)
    : Type 0 where
  pub session : c'.session ≡ c.session
  pub count : held w' ≡ held w

-- A call that may take a session, `s`, for its caller.
pub record Begun {W : Type 0} (held : W → ℕ) (c : Context) (w : W) (ret : ℕ) (s : Option ℕ)
    (c' : Context) (w' : W) : Type 0 where
  pub session : c'.session ≡ c.session
  pub count : held w' ≡ held w + one_for s
  pub failed : (ret == Rv.ok) ≡ false → s ≡ none

module _ {W : Type 0} (t : Token W) (held : W → ℕ) (laws : Counts t held) where
  pick_key-held :
      (key : Option ℕ) (operation : ℕ) (w : W) → held (pick_key t key operation w).2 ≡ held w
  unfolding pick_key
  pick_key-held key operation w =
      let e = laws.associated_held key cko_public_key w in ground (arith, e)

  set_digest-session :
      (same : List ℕ → List ℕ → Bool) (digest : Option (List ℕ)) (c : Context)
      → (set_digest t same digest c).1.session ≡ c.session
  unfolding set_digest
  set_digest-session same none c = refl
  set_digest-session same (some name) c = by_found (get_by_name same name).1
    where
      by_found :
          (found : Option ℕ)
          → (elim found as (λ x. Context) [ none ↦ c | some d ↦ record c { digest = d } ]).session
            ≡ c.session
      by_found none = refl
      by_found (some d) = refl

  pub op_init-Kept :
      (same : List ℕ → List ℕ → Bool) (key : Option ℕ) (operation : ℕ) (digest : Option (List ℕ))
      (c : Context) (w : W)
      → let (ret, c', w') = op_init t same key operation digest c w in Kept held c w c' w'
  unfolding op_init
  op_init-Kept same provkey operation digest c w =
      let (status, w1) = t.status w in
      let (ret, key, w2) = pick_key t provkey operation w1 in
      let e1 = laws.status_held w in
      let e2 = pick_key-held provkey operation w1 in
      let e3 = laws.ref_held key w2 in
      elim (Bool-cases (status == Rv.ok)) [
        | inr bad ↦ rw bad (record { session = refl; count = e1 })
        | inl good ↦ elim (Bool-cases (ret == Rv.ok)) [
          | inr bad ↦ rw (good, bad) (record { session = refl; count = e2 ∙ e1 })
          | inl picked ↦
              rw (good, picked) (by_ref (t.obj_ref key w2).0 (t.obj_ref key w2).1 (e3 ∙ e2 ∙ e1))
        ]
      ]
    where
      by_ref :
          (ref : Option ℕ) (v : W)
          → held v ≡ held w
          → let c1 = record c { key = ref } in
            let (ret', c2) = set_digest t same digest (record c1 { operation = operation }) in
            let r : ℕ × Context × W = elim ref [
              | none ↦ (Rv.key_needed, c1, v)
              | some k ↦ (ret', c2, v)
            ] in
            Kept held c w r.1 r.2
      by_ref none v e = record { session = refl; count = e }
      by_ref (some k) v e = record {
        session = set_digest-session same digest (record c { key = some k; operation = operation });
        count = e;
      }

  mech_fallback_init-Kept :
      (slotid : ℕ) (c : Context) (w : W)
      → let (ret, c', w') = mech_fallback_init t slotid c w in Kept held c w c' w'
  unfolding mech_fallback_init
  mech_fallback_init-Kept slotid c w = by_name (get_name c.digest).0 (get_name c.digest).1
    where
      by_md :
          (ctx : Option ℕ) (digest : List ℕ) (v : W)
          → held v ≡ held w
          → let c' = record c { fallback_digest = ctx } in
            let r : ℕ × Context × W = elim ctx [
              | none ↦ (Rv.host_memory, c', v)
              | some m ↦
                  let (begun, w3) = t.md_init m digest slotid v in
                  (if begun then Rv.ok else Rv.general_error, c', w3)
            ] in
            Kept held c w r.1 r.2
      by_md none digest v e = record { session = refl; count = e }
      by_md (some m) digest v e = record {
        session = refl;
        count = laws.md_init_held m digest slotid v ∙ e;
      }

      by_name :
          (ret : ℕ) (name : Option (List ℕ))
          → let r : ℕ × Context × W = elim name [
            | none ↦ (ret, c, w)
            | some digest ↦
                let (fetched, w1) = t.md_fetch digest w in
                let (ctx, w2) = t.md_new w1 in
                let c' = record c { fallback_digest = ctx } in
                if not fetched then (Rv.general_error, c, w1) else elim ctx [
                  | none ↦ (Rv.host_memory, c', w2)
                  | some m ↦
                      let (begun, w3) = t.md_init m digest slotid w2 in
                      (if begun then Rv.ok else Rv.general_error, c', w3)
                ]
          ] in
            Kept held c w r.1 r.2
      by_name ret none = record { session = refl; count = refl }
      by_name ret (some digest) =
          let (fetched, w1) = t.md_fetch digest w in
          let e1 = laws.fetch_held digest w in
          let e2 = laws.new_held w1 in
          elim (Bool-cases fetched) [
            | inr missing ↦ rw missing (record { session = refl; count = e1 })
            | inl there ↦ rw there (by_md (t.md_new w1).0 digest (t.md_new w1).1 (e2 ∙ e1))
          ]

  init_call-held : (handle s : ℕ) (c : Context) (w : W) → held (init_call t handle s c w).1 ≡ held w
  unfolding init_call
  init_call-held handle s c w =
      let e = laws.sign_init_held s (some c.mechanism) handle w in
      let d = laws.verify_init_held s (some c.mechanism) handle w in ground (arith, e, d)

  login_call-held : (ret s : ℕ) (c : Context) (w : W) → held (login_call t ret s c w).1 ≡ held w
  unfolding login_call
  login_call-held ret s c w = let e = laws.login_held s w in ground (arith, e)

  begun_if-session : (ret : ℕ) (c : Context) → (begun_if ret c).session ≡ c.session
  begun_if-session ret c = ground arith

  settle-Begun :
      (ret s : ℕ) (c c' : Context) (w v : W)
      → c'.session ≡ c.session
      → held w ≡ held v + 1
      → let (ret', o, d, w') = settle t ret s c' w in Begun held c v ret' o d w'
  unfolding settle
  settle-Begun ret s c c' w v same one =
      let r = laws.returned s w in
      elim (Bool-cases (ret == Rv.ok)) [
        | inl good ↦ rw good (record { session = same; count = one; failed = λ bad. absurd cc })
        | inr bad ↦
            rw bad (record { session = same; count = omega (arith, r, one); failed = λ f. refl })
      ]

  start_on-Begun :
      (handle s : ℕ) (c : Context) (w v : W)
      → held w ≡ held v + 1
      → let (ret, o, c', w') = start_on t handle s c w in Begun held c v ret o c' w'
  unfolding start_on
  start_on-Begun handle s c w v one =
      let (ret, w1) = init_call t handle s c w in
      let (ret', w2) = login_call t ret s c w1 in
      settle-Begun ret' s c (begun_if ret c) w2 v (begun_if-session ret c)
        (login_call-held ret s c w1 ∙ init_call-held handle s c w ∙ one)

  refused-Begun :
      (ret : ℕ) (c c' : Context) (w w' : W)
      → c'.session ≡ c.session
      → held w' ≡ held w
      → Begun held c w ret none c' w'
  refused-Begun ret c c' w w' same e = record {
    session = same;
    count = omega (arith, e);
    failed = λ f. refl;
  }

  -- The calls in front of the request for a session.
  prepared-held : (c : Context) (w : W) → held (t.get_handle c.key (t.status w).1).1 ≡ held w
  prepared-held c w = laws.handle_held c.key (t.status w).1 ∙ laws.status_held w

  pub operate_init-Begun :
      (digest_op : Bool) (c : Context) (w : W)
      → let (ret, s, c', w') = operate_init t digest_op c w in Begun held c w ret s c' w'
  unfolding operate_init
  operate_init-Begun digest_op c w =
      let (status, w1) = t.status w in
      let (handle, w2) = t.get_handle c.key w1 in
      let slotid = t.get_slotid c.key w2 in
      let signing = c.operation == ckf_sign in
      let (ret, s, w3) = t.try_session_ref c.key c.mechanism signing w2 in
      let e2 = prepared-held c w in
      let k = mech_fallback_init-Kept slotid c w3 in
      let (ret', c', w4) = mech_fallback_init t slotid c w3 in
      elim (Bool-cases (status == Rv.ok)) [
        | inr bad ↦ rw bad (refused-Begun status c c w w1 refl (laws.status_held w))
        | inl good ↦ elim (Bool-cases (handle == invalid_handle)) [
          | inl bad ↦ rw (good, bad) (refused-Begun Rv.key_handle_invalid c c w w2 refl e2)
          | inr there ↦ elim (Bool-cases (slotid == unavailable)) [
            | inl bad ↦ rw (good, there, bad) (refused-Begun Rv.slot_id_invalid c c w w2 refl e2)
            | inr slot ↦ elim (Bool-cases (ret == Rv.ok)) [
              | inl had ↦
                  let more = laws.ref_taken c.key c.mechanism signing w2 (ground arith) in
                  rw (good, there, slot, had)
                    (start_on-Begun handle s c w3 w (more ∙ ap (λ n. n + 1) e2))
              | inr had_none ↦
                  let same = laws.ref_not_taken c.key c.mechanism signing w2 (ground arith) in
                  elim (Bool-cases (
                    ret == Rv.mechanism_invalid
                    && (digest_op && not (c.mechanism == c.mechtype)))) [
                      | inl falls_back ↦
                          rw (good, there, slot, had_none, falls_back)
                            (refused-Begun ret' c c' w (t.return_session none w4) k.session
                              (laws.none_returned w4 ∙ k.count ∙ same ∙ e2))
                      | inr stays ↦
                          rw (good, there, slot, had_none, stays)
                            (refused-Begun ret c c w (t.return_session none w3) refl
                              (laws.none_returned w3 ∙ same ∙ e2))
                    ]
            ]
          ]
        ]
      ]
