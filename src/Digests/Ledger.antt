-- ===== src/Digests/Ledger.antt =====
-- Any number of digest contexts, and the sessions that they hold.
use pkcs11_provider.Base.{
  ℕ, ◌+◌, ◌≡◌, refl, subst, ◌∙◌, true, Option, none, some, List, [], ◌∷◌, ◌++◌, arith, total,
  total-mid,
}
use pkcs11_provider.Digests.Context.{Token, Context, newctx, init, update, final, dupctx, freectx}
use pkcs11_provider.Digests.Context.Counted.{
  Counts, holds_session, init-held, update-held, final-held, dupctx-held, freectx-held,
}

-- The sessions of a list of contexts.
abbrev pub all_sessions : List Context → ℕ
all_sessions = total holds_session

module _ {W : Type 0} (t : Token W) where
  -- The calls that OpenSSL makes, each on one of the contexts that there are. A context is only
  -- initialised when it has no session.
  pub data Step (cs : List Context) (w : W) : List Context → W → Type 0 where
    creates : (mech : ℕ) → Step cs w (newctx mech ∷ cs) w
    inits :
        (xs : List Context) (c : Context) (ys : List Context) (param : Option (Option ℕ))
        → cs ≡ xs ++ (c ∷ ys)
        → c.session ≡ none
        → Step cs w (xs ++ ((init t param c w).1 ∷ ys)) (init t param c w).2
    updates : (c : Context) (bytes : List ℕ) → Step cs w cs (update t bytes c w).1
    finals : (c : Context) (buf_size : ℕ) → Step cs w cs (final t buf_size c w).3
    dups :
        (xs : List Context) (c : Context) (ys : List Context)
        → cs ≡ xs ++ (c ∷ ys)
        → Step cs w (xs ++ ((dupctx t c w).0 ∷ (dupctx t c w).1 ∷ ys)) (dupctx t c w).2
    frees :
        (xs : List Context) (c : Context) (ys : List Context)
        → cs ≡ xs ++ (c ∷ ys)
        → Step cs w (xs ++ ys) (freectx t c w)

  pub data Reach (w : W) : List Context → W → Type 0 where
    start : Reach w [] w
    later :
        {cs : List Context} {v : W} {cs' : List Context} {v' : W}
        → Reach w cs v
        → Step cs v cs' v'
        → Reach w cs' v'

module _ {W : Type 0} (t : Token W) (held : W → ℕ) (laws : Counts t held) where
  Step-held :
      {cs : List Context} {w : W} {cs' : List Context} {w' : W} (n : ℕ)
      → Step t cs w cs' w'
      → held w ≡ n + all_sessions cs
      → held w' ≡ n + all_sessions cs'
  Step-held n (creates mech) one = omega (arith, one)
  Step-held {cs} {w} {cs'} {w'} n (inits xs c ys param at free) one =
      let (r, x, y) = init-held t held laws param c w in
      let before = total-mid holds_session xs (c ∷ []) ys in
      let behind = total-mid holds_session xs ((init t param c w).1 ∷ []) ys in
      let none' : holds_session c ≡ 0 = rw (holds_session, free) refl in
      let one' = subst (λ l. held w ≡ n + all_sessions l) at one in
      omega (arith, one', r free, before, behind, none')
  Step-held {w = w} n (updates c bytes) one = update-held t held laws bytes c w ∙ one
  Step-held {w = w} n (finals c buf_size) one = final-held t held laws buf_size c w ∙ one
  Step-held {cs} {w} {cs'} {w'} n (dups xs c ys at) one =
      let (c', d, w') = dupctx t c w in
      let before = total-mid holds_session xs (c ∷ []) ys in
      let behind = total-mid holds_session xs (c' ∷ d ∷ []) ys in
      let one' = subst (λ l. held w ≡ n + all_sessions l) at one in
      omega (
        arith,
        behind,
        dupctx-held t held laws (n + all_sessions (xs ++ ys)) c w (omega (arith, one', before)),
      )
  Step-held {cs} {w} {cs'} {w'} n (frees xs c ys at) one =
      let before = total-mid holds_session xs (c ∷ []) ys in
      let one' = subst (λ l. held w ≡ n + all_sessions l) at one in
      freectx-held t held laws (n + all_sessions (xs ++ ys)) c w (omega (arith, one', before))

  -- After any calls on any number of digest contexts that begin with none, where `init` is called on
  -- contexts without a session only, and sessions are taken and given back only by
  -- `p11prov_get_session` and `p11prov_return_session`: there are as many more sessions taken as
  -- contexts that have one, also where a context was copied and where calls failed.
  pub Reach-held :
      (w : W) {cs : List Context} {v : W} → Reach t w cs v → held v ≡ held w + all_sessions cs
  Reach-held w start = omega arith
  Reach-held w (later r s) = Step-held (held w) s (Reach-held w r)

  -- Where sessions are taken and given back only by `p11prov_get_session` and `p11prov_return_session`:
  -- for a context that has a session already, among `n` that are taken by others, where `init` succeeds and the context is then freed,
  -- `n + 1` sessions are taken: the one that the context had before is not given back.
  pub freectx-init :
      (param : Option (Option ℕ)) (c : Context) (w : W) (s n : ℕ)
      → c.session ≡ some s
      → held w ≡ n + 1
      → (init t param c w).0 ≡ true
      → held (freectx t (init t param c w).1 (init t param c w).2) ≡ n + 1
  freectx-init param c w s n had one done =
      let (x, more, there) = init-held t held laws param c w in
      let (begun, c', w') = init t param c w in
      freectx-held t held laws (n + 1) c' w' (omega (arith, more done, there done, one))
