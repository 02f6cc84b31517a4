-- ===== src/Signature/Ecdsa/Owned.antt =====
-- The session of a context of src/sig/ecdsa.c behind its single steps.
use pkcs11_provider.Base.{
  ℕ, ◌+◌, ◌≡◌, refl, ap, subst, ◌∙◌, inl, inr, Bool, true, Option, none, some, some-injective, List,
  arith, ◌==◌, Bool-cases,
}
use pkcs11_provider.Codes.Rv
use pkcs11_provider.Signature.Run.Ending.{digest_final-held, digest_final-none}
use pkcs11_provider.Signature.Run.Counted.{Neutral, digest_update-held, operate-Neutral}
use pkcs11_provider.Codes.{unavailable}
use pkcs11_provider.Signature.Token.{Token, Counts}
use pkcs11_provider.Signature.Context.{Context, op_init}
use pkcs11_provider.Signature.Context.Counted.{Kept, one_for, op_init-Kept}
use pkcs11_provider.Signature.Run.{Operate}
use pkcs11_provider.Signature.Run
use pkcs11_provider.Signature.Ecdsa.{
  begin_digest, Params, set_mechanism, set_ctx_params, set_digest_param, set_signature_param,
  digest_update, operate, init_params, or_sha256,
}

module _ {W : Type 0} (held : W → ℕ) where
  -- All sessions but `n` are those of the context.
  abbrev pub Owns : ℕ → Context → W → Type 0
  Owns n c w = held w ≡ n + one_for c.session

  pub Kept→Owns :
      (n : ℕ) (c c' : Context) (w w' : W) → Kept held c w c' w' → Owns n c w → Owns n c' w'
  Kept→Owns n c c' w w' k one = let e = ap one_for k.session in omega (arith, k.count, e, one)

  pub renamed : (n : ℕ) (c c' : Context) (w : W) → c'.session ≡ c.session → Owns n c w → Owns n c' w
  renamed n c c' w q one = let e = ap one_for q in omega (arith, e, one)

pub set_mechanism-session : (c : Context) → (set_mechanism c).1.session ≡ c.session
unfolding set_mechanism
set_mechanism-session c = ground arith

pub set_ctx_params-session :
    (same : List ℕ → List ℕ → Bool) (params : Option Params) (c : Context)
    → (set_ctx_params same params c).1.session ≡ c.session
unfolding set_ctx_params set_digest_param set_signature_param
set_ctx_params-session same none c = refl
set_ctx_params-session same (some ps) c = ground arith

module _ {W : Type 0} (t : Token W) (held : W → ℕ) (laws : Counts t held)
    (same : List ℕ → List ℕ → Bool) where
  pub operate-Kept : Neutral held (operate t)
  unfolding operate
  operate-Kept sig n tbs c w =
      let (rv, c1) = set_mechanism c in
      let k = operate-Neutral t held laws sig n tbs c1 w in
      elim (Bool-cases (rv == Rv.ok)) [
        | inl good ↦
            rw good (record { session = k.session ∙ set_mechanism-session c; count = k.count })
        | inr bad ↦ rw bad (record { session = set_mechanism-session c; count = refl })
      ]

  pub init_params-Owns :
      (params : Option Params) (ret n : ℕ) (c : Context) (w : W)
      → Owns held n c w
      → let (done, c', w') = init_params t same params ret c w in Owns held n c' w'
  unfolding init_params
  init_params-Owns params ret n c w one =
      let chosen =
        renamed held n c (set_ctx_params same params c).1 w (set_ctx_params-session same params c)
          one in
      elim (Bool-cases (ret == Rv.ok)) [ inl good ↦ rw good chosen | inr bad ↦ rw bad one ]

  pub inits-Owns :
      (key : Option ℕ) (operation : ℕ) (digest : Option (List ℕ)) (n : ℕ) (c : Context) (w : W)
      → Owns held n c w
      → let (ret, c', w') = op_init t same key operation digest c w in Owns held n c' w'
  inits-Owns key operation digest n c w =
      let (ret, c', w') = op_init t same key operation digest c w in
      Kept→Owns held n c c' w w' (op_init-Kept t held laws same key operation digest c w)

  pub begin_digest-Owns :
      (operation : ℕ) (digest : Option (List ℕ)) (key : Option ℕ) (params : Option Params) (n : ℕ)
      (c : Context) (w : W)
      → Owns held n c w
      → let (done, c', w') = begin_digest t same operation digest key params c w in
        Owns held n c' w'
  unfolding begin_digest
  begin_digest-Owns operation digest key params n c w one =
      let (ret, c1, w1) = op_init t same key operation (some (or_sha256 digest)) c w in
      let begun = inits-Owns key operation (some (or_sha256 digest)) n c w one in
      let c2 = record c1 { digest_op = true } in
      let chosen =
        renamed held n c1 (set_ctx_params same params c2).1 w1
          (set_ctx_params-session same params c2) begun in
      elim (Bool-cases (ret == Rv.ok)) [ inl good ↦ rw good chosen | inr bad ↦ rw bad begun ]

  pub digest_update-Owns :
      (bytes : List ℕ) (n : ℕ) (c : Context) (w : W)
      → Owns held n c w
      → let (done, c', w') = digest_update t bytes c w in Owns held n c' w'
  unfolding digest_update
  digest_update-Owns bytes n c w one =
      let (rv, c1) = set_mechanism c in
      let chosen = renamed held n c c1 w (set_mechanism-session c) one in
      elim (Bool-cases (c.mechanism == unavailable)) [
        | inr there ↦ rw there (digest_update-held t held laws bytes n c w one)
        | inl unset ↦ elim (Bool-cases (rv == Rv.ok)) [
          | inl good ↦ rw (unset, good) (digest_update-held t held laws bytes n c1 w chosen)
          | inr bad ↦ rw (unset, bad) chosen
        ]
      ]

  pub digest_final-Owns :
      (sig : Option (List ℕ)) (size n : ℕ) (c : Context) (w : W)
      → Owns held n c w
      → let (done, out, c', w') = Run.digest_final t same (some (operate t)) sig size c w in
        Owns held n c' w'
  digest_final-Owns sig size n c w one =
      let neutral : (f : Operate W) → some (operate t) ≡ some f → Neutral held f =
        λ f e. subst (Neutral held) (some-injective (operate t) f e) operate-Kept in
      let free =
        ap one_for (digest_final-none t held laws same (some (operate t)) neutral sig size c w) in
      let left = digest_final-held t held laws same (some (operate t)) neutral sig size n c w one in
      omega (arith, free, left)
