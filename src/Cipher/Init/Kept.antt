-- ===== src/Cipher/Init/Kept.antt =====
-- How beginning an operation changes the context's session and the number of sessions that are taken.
use pkcs11_provider.Base.{
  ℕ, ◌+◌, ◌≡◌, refl, ◌∙◌, ◌≢◌, inl, inr, Bool, false, Option, none, some, List, [], ◌∷◌, arith,
  ◌==◌, Bool-cases,
}
use pkcs11_provider.Codes.Rv
use pkcs11_provider.Cipher.Params.{Params, Context}
use pkcs11_provider.Cipher.Params.Kept.{set_ctx_params-session, set_ctx_params-IsSmall, IsSmall}
use pkcs11_provider.Cipher.Token.{Token, Counts}
use pkcs11_provider.Cipher.Init.{
  prep_mech, set_iv, op_init, legacy_init, with_key, import_and_init, session_init, unpadded,
  start_on, start_operation, start_with,
}

-- One for a context with a session.
abbrev pub holds_session : Context → ℕ
holds_session c = elim c.session [ none ↦ 0 | some s ↦ 1 ]

-- What is kept from one context to another.
pub record Kept {W : Type 0} (held : W → ℕ) (c : Context) (w : W) (c' : Context) (w' : W)
    : Type 0 where
  pub session : c'.session ≡ c.session
  pub small : IsSmall c → IsSmall c'
  pub count : held w' ≡ held w

unpadded-session : (c : Context) → (unpadded c).session ≡ c.session
unpadded-session c = ground arith

unpadded-IsSmall : (c : Context) → IsSmall c → IsSmall (unpadded c)
unpadded-IsSmall c h = ground arith

module _ {W : Type 0} (t : Token W) (held : W → ℕ) (laws : Counts t held) where
  set_iv-Kept :
      (iv : Option (List ℕ)) (c : Context) (w : W)
      → Kept held c w (set_iv t iv c w).1 (set_iv t iv c w).2
  unfolding set_iv
  set_iv-Kept none c w = record { session = refl; small = λ h. h; count = refl }
  set_iv-Kept (some []) c w = record { session = refl; small = λ h. h; count = refl }
  set_iv-Kept (some (b ∷ bs)) c w = elim (Bool-cases (t.memdup w).0) [
    | inl e ↦ rw e (record { session = refl; small = λ h. h; count = laws.memdup_held w })
    | inr e ↦ rw e (record { session = refl; small = λ h. h; count = laws.memdup_held w })
  ]

  prep_mech-Kept :
      (iv : Option (List ℕ)) (p : Params) (c : Context) (w : W)
      → Kept held c w (prep_mech t iv p c w).1 (prep_mech t iv p c w).2
  unfolding prep_mech
  prep_mech-Kept iv p c w =
      let k = set_iv-Kept iv c w in
      let c1 = (set_iv t iv c w).1 in
      let e = set_ctx_params-session p c in
      let e1 = set_ctx_params-session p c1 in
      let h = set_ctx_params-IsSmall p c in
      let h1 = set_ctx_params-IsSmall p c1 in
      record {
        session = ground (arith, k.session);
        small = λ is. let i1 = k.small is in ground (arith, h is, h1 i1);
        count = ground (arith, k.count);
      }

  pub op_init-Kept :
      (key : Option ℕ) (op : ℕ) (iv : Option (List ℕ)) (p : Params) (c : Context) (w : W)
      → Kept held c w (op_init t key op iv p c w).1 (op_init t key op iv p c w).2
  unfolding op_init
  op_init-Kept none op iv p c w =
      let w1 = (t.status w).1 in
      let k = prep_mech-Kept iv p (record c { operation = op }) w1 in
      let e = laws.status_held w in
      record {
        session = ground (arith, k.session);
        small = λ is. let i = k.small is in ground (arith, is, i);
        count = ground (arith, k.count, e);
      }
  op_init-Kept (some n) op iv p c w =
      let w1 = (t.status w).1 in
      let k = prep_mech-Kept iv p (record c { operation = op }) w1 in
      let e = laws.status_held w in
      let r = laws.ref_held n (prep_mech t iv p (record c { operation = op }) w1).2 in
      record {
        session = ground (arith, k.session);
        small = λ is. let i = k.small is in ground (arith, is, i);
        count = ground (arith, k.count, e, r);
      }

  Kept-trans :
      {c c' : Context} {w v w' : W} → held v ≡ held w → Kept held c v c' w' → Kept held c w c' w'
  Kept-trans e k = record { session = k.session; small = k.small; count = k.count ∙ e }

  Kept-refl : (c : Context) {w w' : W} → held w' ≡ held w → Kept held c w c w'
  Kept-refl c e = record { session = refl; small = λ h. h; count = e }

  with_key-Kept :
      (skey : Option ℕ) (op : ℕ) (iv : Option (List ℕ)) (p : Params) (c : Context) (w : W)
      → Kept held c w (with_key t skey op iv p c w).1 (with_key t skey op iv p c w).2
  unfolding with_key
  with_key-Kept skey op iv p c w =
      let k = op_init-Kept skey op iv p c w in
      record {
        session = k.session;
        small = k.small;
        count = laws.free_held skey (op_init t skey op iv p c w).2 ∙ k.count;
      }

  import_and_init-Kept :
      (key : Option (List ℕ)) (op : ℕ) (iv : Option (List ℕ)) (p : Params) (c : Context) (w : W)
      → Kept held c w (import_and_init t key op iv p c w).1 (import_and_init t key op iv p c w).2
  unfolding import_and_init
  import_and_init-Kept none op iv p c w = with_key-Kept none op iv p c w
  import_and_init-Kept (some []) op iv p c w = with_key-Kept none op iv p c w
  import_and_init-Kept (some (b ∷ bs)) op iv p c w =
      let e = laws.import_held (b ∷ bs) w in
      by_import (t.import_secret_key (b ∷ bs) w).0 (t.import_secret_key (b ∷ bs) w).1 e
    where
      by_import :
          (skey : Option ℕ) (v : W)
          → held v ≡ held w
          → let r : Bool × Context × W = elim skey [
            | none ↦ (false, c, v)
            | some k ↦ with_key t (some k) op iv p c v
          ] in
            Kept held c w r.1 r.2
      by_import none v e = Kept-refl c e
      by_import (some k) v e = Kept-trans e (with_key-Kept (some k) op iv p c v)

  pub legacy_init-Kept :
      (op : ℕ) (key iv : Option (List ℕ)) (p : Params) (c : Context) (w : W)
      → Kept held c w (legacy_init t op key iv p c w).1 (legacy_init t op key iv p c w).2
  unfolding legacy_init
  legacy_init-Kept op key iv p c w =
      let e = laws.status_held w in
      elim (Bool-cases ((t.status w).0 == Rv.ok)) [
        | inr bad ↦ rw bad (Kept-refl c e)
        | inl good ↦ rw good (Kept-trans e (import_and_init-Kept key op iv p c (t.status w).1))
      ]

  start_on-session : (s : ℕ) (c : Context) (w : W) → (start_on t s c w).1.session ≡ some s
  unfolding start_on
  start_on-session s c w = ground arith

  start_on-IsSmall : (s : ℕ) (c : Context) (w : W) → IsSmall c → IsSmall (start_on t s c w).1
  unfolding start_on
  start_on-IsSmall s c w h = ground arith

  start_on-held : (s : ℕ) (c : Context) (w : W) → held (start_on t s c w).2 ≡ held w
  unfolding start_on start_operation
  start_on-held s c w =
      let e = laws.encrypt_init_held s (some (c.mechanism, c.param)) c.key w in
      let d = laws.decrypt_init_held s (some (c.mechanism, c.param)) c.key w in ground (arith, e, d)

  start_with-counted :
      (rv : ℕ) (got : Option ℕ) (n : ℕ) (c : Context) (w : W)
      → c.session ≡ none
      → (rv ≡ Rv.ok → (s : ℕ) × (got ≡ some s) × (held w ≡ n + 1))
      → (rv ≢ Rv.ok → held w ≡ n)
      → (held (start_with t rv got c w).2 ≡ n + holds_session (start_with t rv got c w).1)
        × (IsSmall c → IsSmall (start_with t rv got c w).1)
  unfolding start_with
  start_with-counted rv none n c w free taken not_taken = elim (Bool-cases (rv == Rv.ok)) [
    | inl good ↦ let (s, there, more) = taken (ground arith) in cc
    | inr bad ↦ rw (holds_session, free) (omega (arith, not_taken (ground arith)), λ h. h)
  ]
  start_with-counted rv (some s) n c w free taken not_taken = elim (Bool-cases (rv == Rv.ok)) [
    | inl good ↦
        let (s', there, more) = taken (ground arith) in
        rw (good, holds_session, start_on-session s c w)
          (start_on-held s c w ∙ more, start_on-IsSmall s c w)
    | inr bad ↦ rw (bad, holds_session, free) (omega (arith, not_taken (ground arith)), λ h. h)
  ]

  -- `session_init` puts the session that it takes into the context, also when the module then refuses
  -- the operation.
  pub session_init-counted :
      (c : Context) (w : W)
      → c.session ≡ none
      → let r = session_init t c w in
        (held r.2 ≡ held w + holds_session r.1) × (IsSmall c → IsSmall r.1)
  unfolding session_init
  session_init-counted c w free =
      let c1 = unpadded c in
      let (rv, got, w1) = t.try_session_ref c1.key c1.mechanism w in
      let (n, i) =
        start_with-counted rv got (held w) c1 w1 (unpadded-session c ∙ free)
          (laws.taken c1.key c1.mechanism w) (laws.not_taken c1.key c1.mechanism w) in
      (n, λ h. i (unpadded-IsSmall c h))

-- Whatever the token does, the size of the MAC stays small.
module _ {W : Type 0} (t : Token W) where
  start_with-IsSmall :
      (rv : ℕ) (got : Option ℕ) (c : Context) (w : W)
      → IsSmall c
      → IsSmall (start_with t rv got c w).1
  unfolding start_with start_on
  start_with-IsSmall rv none c w h = h
  start_with-IsSmall rv (some s) c w h = ground (arith, h)

  pub session_init-IsSmall : (c : Context) (w : W) → IsSmall c → IsSmall (session_init t c w).1
  unfolding session_init
  session_init-IsSmall c w h =
      let c1 = unpadded c in
      let (rv, got, w1) = t.try_session_ref c1.key c1.mechanism w in
      start_with-IsSmall rv got c1 w1 (unpadded-IsSmall c h)
