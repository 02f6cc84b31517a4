-- ===== src/Signature/Ledger.antt =====
-- Any number of signature contexts, and the sessions that they hold.
use pkcs11_provider.Base.{
  ℕ, ◌+◌, ◌≡◌, refl, ap, subst, Bool, Option, none, some, List, [], ◌∷◌, ◌++◌, arith, total,
  total-mid,
}
use pkcs11_provider.Signature.Token.{Token, Counts}
use pkcs11_provider.Signature.Context.{Context, fresh, op_init}
use pkcs11_provider.Signature.Context.Counted.{one_for, op_init-Kept}
use pkcs11_provider.Signature.Run.{Operate, operate, digest_update, digest_final, freectx}
use pkcs11_provider.Signature.Run.Ending.{digest_final-held, digest_final-none}
use pkcs11_provider.Signature.Run.Counted.{
  Neutral, operate-Neutral, digest_update-held, freectx-held,
}
use pkcs11_provider.Signature.Copy.{dupctx}
use pkcs11_provider.Signature.Copy.Counted.{sessions_of, dupctx-held}

abbrev pub holds_session : Context → ℕ
holds_session c = one_for c.session

abbrev pub copies : Option Context → List Context
copies none = []
copies (some c) = c ∷ []

-- The sessions of a list of contexts.
abbrev pub all_sessions : List Context → ℕ
all_sessions = total holds_session

module _ {W : Type 0} (t : Token W) (same : List ℕ → List ℕ → Bool)
    (fallback_operate : Option (Operate W)) where
  -- What a call makes of a context. Each kind of signature sets its parameters and the mechanism, which
  -- are no business of the sessions.
  pub data Act (c : Context) (w : W) : List Context → W → Type 0 where
    inits :
        (key : Option ℕ) (operation : ℕ) (digest : Option (List ℕ))
        → Act c w
            ((op_init t same key operation digest c w).1 ∷ [])
            (op_init t same key operation digest c w).2
    configures : (c' : Context) → c'.session ≡ c.session → Act c w (c' ∷ []) w
    operates :
        (sig : Option (List ℕ)) (sigsize : ℕ) (tbs : List ℕ)
        → Act c w ((operate t sig sigsize tbs c w).2 ∷ []) (operate t sig sigsize tbs c w).3
    updates :
        (bytes : List ℕ)
        → Act c w ((digest_update t bytes c w).1 ∷ []) (digest_update t bytes c w).2
    finals :
        (sig : Option (List ℕ)) (sigsize : ℕ)
        → Act c w
            ((digest_final t same fallback_operate sig sigsize c w).2 ∷ [])
            (digest_final t same fallback_operate sig sigsize c w).3
    dups : Act c w ((dupctx t c w).0 ∷ copies (dupctx t c w).1) (dupctx t c w).2
    frees : Act c w [] (freectx t c w)

  -- A call on one of the contexts that there are, or a new context.
  pub data Step (cs : List Context) (w : W) : List Context → W → Type 0 where
    creates : (mechtype : ℕ) → Step cs w (fresh mechtype ∷ cs) w
    acts :
        (xs : List Context) (c : Context) (ys ds : List Context) (v : W)
        → cs ≡ xs ++ (c ∷ ys)
        → Act c w ds v
        → Step cs w (xs ++ (ds ++ ys)) v

  pub data Reach (w : W) : List Context → W → Type 0 where
    start : Reach w [] w
    later :
        {cs : List Context} {v : W} {cs' : List Context} {v' : W}
        → Reach w cs v
        → Step cs v cs' v'
        → Reach w cs' v'

module _ {W : Type 0} (t : Token W) (held : W → ℕ) (laws : Counts t held)
    (same : List ℕ → List ℕ → Bool) (fallback_operate : Option (Operate W))
    (neutral : (f : Operate W) → fallback_operate ≡ some f → Neutral held f) where
  Act-held :
      {c : Context} {w : W} {ds : List Context} {v : W} (n : ℕ)
      → Act t same fallback_operate c w ds v
      → held w ≡ n + holds_session c
      → held v ≡ n + all_sessions ds
  Act-held {c} {w} n (inits key operation digest) one =
      let k = op_init-Kept t held laws same key operation digest c w in
      let e = ap one_for k.session in omega (arith, k.count, e, one)
  Act-held {c} {w} n (configures c' q) one = let e = ap one_for q in omega (arith, e, one)
  Act-held {c} {w} n (operates sig sigsize tbs) one =
      let k = operate-Neutral t held laws sig sigsize tbs c w in
      let e = ap one_for k.session in omega (arith, k.count, e, one)
  Act-held {c} {w} n (updates bytes) one =
      omega (arith, digest_update-held t held laws bytes n c w one)
  Act-held {c} {w} n (finals sig sigsize) one =
      let e = digest_final-held t held laws same fallback_operate neutral sig sigsize n c w one in
      let free =
        ap one_for (digest_final-none t held laws same fallback_operate neutral sig sigsize c w) in
      omega (arith, e, free)
  Act-held {c} {w} n dups one =
      let e = dupctx-held t held laws n c w one in
      let q = all_copies (dupctx t c w).1 in omega (arith, e, q)
    where
      all_copies : (o : Option Context) → all_sessions (copies o) ≡ sessions_of o
      all_copies none = refl
      all_copies (some d) = omega arith
  Act-held {c} {w} n frees one = omega (arith, freectx-held t held laws n c w one)

  Step-held :
      {cs : List Context} {w : W} {cs' : List Context} {w' : W} (n : ℕ)
      → Step t same fallback_operate cs w cs' w'
      → held w ≡ n + all_sessions cs
      → held w' ≡ n + all_sessions cs'
  Step-held n (creates mechtype) one = omega (arith, one)
  Step-held {cs} {w} n (acts xs c ys ds v at act) one =
      let one' = subst (λ l. held w ≡ n + all_sessions l) at one in
      let before = total-mid holds_session xs (c ∷ []) ys in
      let behind = total-mid holds_session xs ds ys in
      let e = Act-held (n + all_sessions (xs ++ ys)) act (omega (arith, one', before)) in
      omega (arith, e, behind)

  -- After any calls on any number of signature contexts that begin with none, copies included, where
  -- sessions are taken and given back only by the requests and `p11prov_return_session`, and where the
  -- way to sign a digest that was made by OpenSSL gives back what it takes: there are as many more
  -- sessions taken as contexts that have one, whichever calls failed and wherever they did.
  pub held_of_Reach :
      (w : W) {cs : List Context} {v : W}
      → Reach t same fallback_operate w cs v
      → held v ≡ held w + all_sessions cs
  held_of_Reach w start = omega arith
  held_of_Reach w (later r s) = Step-held (held w) s (held_of_Reach w r)
