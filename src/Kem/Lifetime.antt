-- ===== src/Kem/Lifetime.antt =====
-- What a context of src/kem.c takes and gives back: references to keys, sessions and keys on the token.
use pkcs11_provider.Base.{
  ℕ, ◌+◌, ◌≡◌, ◌∙◌, inl, inr, Bool, false, Option, none, some, List, [], ◌∷◌, arith, ◌==◌,
  if◌then◌else◌, Bool-cases,
}
use pkcs11_provider.Codes.Rv
use pkcs11_provider.Kem.{
  init_with, Token, Context, newctx, encapsulate_init, decapsulate_init, encapsulate, decapsulate,
  freectx, Operation, ckk_ml_kem, set_ctx_params,
}
use pkcs11_provider.Kem.Weights.{weight_of, Weighs, encapsulate-held, decapsulate-held}

-- The calls on a context.
pub data Call : Type 0 where
  encapsulate_inits : Option ℕ → Bool → Call
  decapsulate_inits : Option ℕ → Bool → Call
  encapsulates : Option (ℕ × ℕ) → Call
  decapsulates : Option ℕ → List ℕ → Call

module _ {W : Type 0} (t : Token W) where
  -- The context and the state behind a call, whatever it answers.
  pub call : Call → Context → W → Context × W
  call (encapsulate_inits key ikme) c w =
      let (done, c1, w1) = encapsulate_init t key ikme c w in (c1, w1)
  call (decapsulate_inits key ikme) c w =
      let (done, c1, w1) = decapsulate_init t key ikme c w in (c1, w1)
  call (encapsulates buffers) c w = (c, (encapsulate t buffers c w).1)
  call (decapsulates buffer ct) c w = (c, (decapsulate t buffer ct c w).1)

  pub calls : List Call → Context → W → Context × W
  calls [] c w = (c, w)
  calls (x ∷ xs) c w = let (c1, w1) = call x c w in calls xs c1 w1

  -- A context that is made, used and freed.
  pub lifetime : List Call → W → W
  lifetime xs w = let (c, w1) = calls xs newctx w in freectx t c w1

module _ {W : Type 0} (t : Token W) (ref session object : ℕ) (held : W → ℕ)
    (laws : Weighs t ref session object held) where
  -- All but `n` is the reference of the context.
  abbrev Owns : ℕ → Context → W → Type 0
  Owns n c w = held w ≡ n + weight_of ref c.key

  given_back :
      (o : Option ℕ) (n : ℕ) (w : W) → held w ≡ n + weight_of ref o → held (t.obj_free o w) ≡ n
  given_back none n w one = omega (arith, one, laws.none_freed w)
  given_back (some k) n w one = omega (arith, one, laws.freed k w)

  init_with-Owns :
      (op : Operation) (key : Option ℕ) (ikme : Bool) (n : ℕ) (c : Context) (w : W)
      → Owns n c w
      → let (done, c', w') = init_with t op key ikme c w in Owns n c' w'
  unfolding init_with
  init_with-Owns op none ikme n c w one = one
  init_with-Owns op (some k) ikme n c w one =
      let (status, w1) = t.status w in
      let (key, w2) = t.obj_ref k (t.obj_free c.key w1) in
      let e1 = laws.status_held w in
      let free = given_back c.key n w1 (omega (arith, e1, one)) in
      let e2 = laws.referenced k (t.obj_free c.key w1) in
      elim (Bool-cases (status == Rv.ok)) [
        | inr bad ↦ rw bad (omega (arith, e1, one))
        | inl good ↦ rw good (by_ref key (omega (arith, e2, free)))
      ]
    where
      by_ref :
          {v : W} (o : Option ℕ)
          → held v ≡ n + weight_of ref o
          → let r = elim o as (λ o. Bool × Context × W) [
            | none ↦ (false, record c { key = o }, v)
            | some r ↦
                if t.key_type r v == ckk_ml_kem
                then (set_ctx_params ikme, record c { key = o; op = op }, v)
                else (false, record c { key = o }, v)
          ] in
            Owns n r.1 r.2
      by_ref none e = e
      by_ref {v} (some r) e = elim (Bool-cases (t.key_type r v == ckk_ml_kem)) [
        | inl good ↦ rw good e
        | inr bad ↦ rw bad e
      ]

  call-Owns :
      (x : Call) (n : ℕ) (c : Context) (w : W)
      → Owns n c w
      → let (c', w') = call t x c w in Owns n c' w'
  unfolding call encapsulate_init decapsulate_init
  call-Owns (encapsulate_inits key ikme) n c w one =
      let begun = init_with-Owns Operation.encapsulation key ikme n c w one in
      elim (Bool-cases (t.get_class key w == 2)) [ inl good ↦ rw good begun | inr bad ↦ rw bad one ]
  call-Owns (decapsulate_inits key ikme) n c w one =
      let begun = init_with-Owns Operation.decapsulation key ikme n c w one in
      elim (Bool-cases (t.get_class key w == 3)) [ inl good ↦ rw good begun | inr bad ↦ rw bad one ]
  call-Owns (encapsulates buffers) n c w one =
      encapsulate-held t ref session object held laws buffers c w ∙ one
  call-Owns (decapsulates buffer ct) n c w one =
      decapsulate-held t ref session object held laws buffer ct c w ∙ one

  calls-Owns :
      (xs : List Call) (n : ℕ) (c : Context) (w : W)
      → Owns n c w
      → let (c', w') = calls t xs c w in Owns n c' w'
  unfolding calls
  calls-Owns [] n c w one = one
  calls-Owns (x ∷ xs) n c w one =
      let (c1, w1) = call t x c w in calls-Owns xs n c1 w1 (call-Owns x n c w one)

  -- Whatever calls are made of a context for ML-KEM between its making and its end, in any order and
  -- whichever fail: by any weights of references, sessions and keys of secrets, where only the calls that
  -- are meant to take and give back do so, no more and no less is taken behind its end than before it
  -- was made.
  pub lifetime-weighs : (xs : List Call) (w : W) → held (lifetime t xs w) ≡ held w
  unfolding lifetime
  lifetime-weighs xs w =
      let (c, w1) = calls t xs newctx w in
      given_back c.key (held w) w1 (calls-Owns xs (held w) newctx w (omega arith))
