-- ===== src/Signature/Run/Ending.antt =====
-- How the end of an operation changes the number of sessions that are taken.
use pkcs11_provider.Base.{
  ℕ, ◌+◌, ◌≡◌, refl, ap, ◌∙◌, inl, inr, Bool, false, ◌&&◌, Option, none, some, List, arith, ◌==◌,
  Bool-cases, length,
}
use pkcs11_provider.Codes.{invalid_handle}
use pkcs11_provider.Codes.Rv
use pkcs11_provider.Digests.{get_name, get_digest_size}
use pkcs11_provider.Signature.Token.{Token, Counts}
use pkcs11_provider.Signature.Context.{Context, ckf_sign, ckf_verify, fresh, op_init}
use pkcs11_provider.Signature.Context.Counted.{one_for, Kept, op_init-Kept}
use pkcs11_provider.Signature.Run.{
  Operate, operate, sub_operate, mech_fallback_final, session_final, fallback_final, ending,
  digest_final,
}
use pkcs11_provider.Signature.Run.Counted.{Neutral, given_back, operate-Neutral, freectx-held}

module _ {W : Type 0} (t : Token W) (held : W → ℕ) (laws : Counts t held)
    (same : List ℕ → List ℕ → Bool) (fallback_operate : Option (Operate W))
    (neutral : (f : Operate W) → fallback_operate ≡ some f → Neutral held f) where
  -- The way that is taken.
  way : Operate W
  way = elim fallback_operate [ none ↦ operate t | some f ↦ f ]

  way-Neutral : Neutral held way
  unfolding way
  way-Neutral = by_way fallback_operate neutral
    where
      by_way :
          (o : Option (Operate W))
          → ((f : Operate W) → o ≡ some f → Neutral held f)
          → Neutral held (elim o [ none ↦ operate t | some f ↦ f ])
      by_way none n = operate-Neutral t held laws
      by_way (some f) n = n f refl

  sub_operate-held :
      (sig : Option (List ℕ)) (sigsize : ℕ) (digest : List ℕ) (c : Context) (w : W)
      → held (sub_operate t same fallback_operate sig sigsize digest c w).2 ≡ held w
  unfolding sub_operate way
  sub_operate-held sig sigsize digest c w =
      let sub = fresh c.mechtype in
      let (ret, name) = get_name c.digest in
      let (ret', sub1, w1) = op_init t same c.key c.operation name sub w in
      let k1 = op_init-Kept t held laws same c.key c.operation name sub w in
      let (ret'', out, sub2, w2) = way sig sigsize digest sub1 w1 in
      let k2 = way-Neutral sig sigsize digest sub1 w1 in
      let none1 = ap one_for k1.session in
      let none2 = ap one_for (k2.session ∙ k1.session) in
      elim (Bool-cases (ret == Rv.ok)) [
        | inr unnamed ↦ rw unnamed (freectx-held t held laws (held w) sub w (omega arith))
        | inl named ↦ elim (Bool-cases (ret' == Rv.ok)) [
          | inl good ↦
              rw (named, good)
                (freectx-held t held laws (held w) sub2 w2
                  (omega (arith, k1.count, k2.count, none2)))
          | inr bad ↦
              rw (named, bad)
                (freectx-held t held laws (held w) sub1 w1 (omega (arith, k1.count, none1)))
        ]
      ]

  mech_fallback_final-held :
      (m : ℕ) (sig : Option (List ℕ)) (sigsize mdsize : ℕ) (c : Context) (w : W)
      → held (mech_fallback_final t same fallback_operate m sig sigsize mdsize c w).2 ≡ held w
  unfolding mech_fallback_final
  mech_fallback_final-held m sig sigsize mdsize c w =
      let (done, digest, w1) = t.md_final m w in
      let (handle, w2) = t.get_handle c.key w1 in
      let (room, w3) = t.malloc w2 in
      let e1 = laws.md_final_held m w in
      let e2 = laws.handle_held c.key w1 in
      let e3 = laws.malloc_held w2 in
      let r = sub_operate-held sig sigsize digest c w3 in
      elim (Bool-cases (done && length digest == mdsize)) [
        | inr bad ↦ rw bad e1
        | inl good ↦ elim (Bool-cases (handle == invalid_handle)) [
          | inl bad ↦ rw (good, bad) (e2 ∙ e1)
          | inr there ↦ elim (Bool-cases room) [
            | inl memory ↦ rw (good, there, memory) (r ∙ e3 ∙ e2 ∙ e1)
            | inr full_memory ↦ rw (good, there, full_memory) (e3 ∙ e2 ∙ e1)
          ]
        ]
      ]

  ending-Kept :
      (sig : List ℕ) (sigsize : ℕ) (c : Context) (w : W)
      → let (done, out, c', w') = ending t same fallback_operate sig sigsize c w in
        Kept held c w c' w'
  unfolding ending session_final fallback_final
  ending-Kept sig sigsize c w = by_digest c.fallback_digest c.session (get_digest_size c.digest).1
    where
      by_digest :
          (m s size : Option ℕ)
          → let c0 = record c { fallback_digest = m; session = s } in
            let r : Bool × Option (List ℕ) × Context × W = elim m [
              | some m ↦ elim size [
                | none ↦ (false, none, c0, w)
                | some mdsize ↦
                    let (ret', out, w1) =
                      mech_fallback_final t same fallback_operate m
                        (some sig)
                        sigsize
                        mdsize
                        c0
                        w in
                    (ret' == Rv.ok, out, c0, w1)
              ]
              | none ↦ session_final t same fallback_operate sig sigsize c0 w
            ] in
            Kept held c0 w r.2 r.3
      by_digest (some m) s none = record { session = refl; count = refl }
      by_digest (some m) s (some mdsize) = record {
        session = refl;
        count =
            mech_fallback_final-held m (some sig) sigsize mdsize
              (record c { fallback_digest = some m; session = s }) w;
      }
      by_digest none none size = record { session = refl; count = refl }
      by_digest none (some s) size =
          let e = laws.sign_final_held s sigsize w in
          let d = laws.verify_final_held s sig w in
          elim (Bool-cases (c.operation == ckf_sign)) [
            | inl signing ↦ rw signing (record { session = refl; count = e })
            | inr verifying ↦ rw verifying (record { session = refl; count = d })
          ]

  -- The end of an operation gives the session back on every path.
  pub digest_final-held :
      (sig : Option (List ℕ)) (sigsize n : ℕ) (c : Context) (w : W)
      → held w ≡ n + one_for c.session
      → let (done, out, c', w') = digest_final t same fallback_operate sig sigsize c w in
        held w' ≡ n
  unfolding digest_final
  digest_final-held none sigsize n c w one = given_back t held laws c.session n w one
  digest_final-held (some bytes) sigsize n c w one =
      let (done, out, c1, w1) = ending t same fallback_operate bytes sigsize c w in
      let k = ending-Kept bytes sigsize c w in
      let kept = ap one_for k.session in
      elim (Bool-cases (c.operation == ckf_verify && sigsize == 0)) [
        | inl empty ↦ rw empty (given_back t held laws c.session n w one)
        | inr full ↦
            rw full (given_back t held laws c1.session n w1 (omega (arith, k.count, kept, one)))
      ]

  pub digest_final-none :
      (sig : Option (List ℕ)) (sigsize : ℕ) (c : Context) (w : W)
      → let (done, out, c', w') = digest_final t same fallback_operate sig sigsize c w in
        c'.session ≡ none
  unfolding digest_final
  digest_final-none sig sigsize c w = refl
