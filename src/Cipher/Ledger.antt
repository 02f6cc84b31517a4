-- ===== src/Cipher/Ledger.antt =====
-- Which calls on a cipher's context take a session and give it back.
use pkcs11_provider.Base.{ℕ, ◌+◌, ◌≡◌, subst, ◌∙◌, Option, some, List, arith}
use pkcs11_provider.Cipher.Run.Counted.{freectx-held, Answered, update-Answered, final-Counted}
use pkcs11_provider.Cipher.Params.Kept.{IsSmall, set_ctx_params-session, set_ctx_params-IsSmall}
use pkcs11_provider.Cipher.Init.Kept.{holds_session, op_init-Kept, Kept, legacy_init-Kept}
use pkcs11_provider.Cipher.Params.{Params, Context, newctx, set_ctx_params}
use pkcs11_provider.Cipher.Token.{Token, Counts}
use pkcs11_provider.Cipher.Init.{op_init, legacy_init}
use pkcs11_provider.Cipher.Run.{Chunk, Done, update, final, freectx}

-- The calls that OpenSSL makes on a context, in any order and with any arguments.
module _ {W : Type 0} (t : Token W) where
  pub data Step (c : Context) (w : W) : Context → W → Type 0 where
    inits :
        (key : Option ℕ) (op : ℕ) (iv : Option (List ℕ)) (p : Params)
        → Step c w (op_init t key op iv p c w).1 (op_init t key op iv p c w).2
    legacy_inits :
        (op : ℕ) (key iv : Option (List ℕ)) (p : Params)
        → Step c w (legacy_init t op key iv p c w).1 (legacy_init t op key iv p c w).2
    sets : (p : Params) → Step c w (set_ctx_params p c).1 w
    updates : (k : Chunk) (d : Done W) → update t k c w ≡ some d → Step c w d.ctx d.world
    finals : (outsize : ℕ) → Step c w (final t outsize c w).ctx (final t outsize c w).world

  -- What can become of a context that was made in a world.
  pub data Reach (size mechanism : ℕ) (w : W) : Context → W → Type 0 where
    start : Reach size mechanism w (newctx size mechanism) w
    later :
        {c c' : Context} {v v' : W}
        → Reach size mechanism w c v
        → Step c v c' v'
        → Reach size mechanism w c' v'

module _ {W : Type 0} (t : Token W) (held : W → ℕ) (laws : Counts t held) where
  -- A context, among `n` sessions that are taken by others.
  pub record Balanced (n : ℕ) (c : Context) (w : W) : Type 0 where
    pub count : held w ≡ n + holds_session c
    pub small : IsSmall c

  Kept-Balanced :
      {n : ℕ} {c c' : Context} {w w' : W} → Kept held c w c' w' → Balanced n c w → Balanced n c' w'
  Kept-Balanced k b = record {
    count = rw (holds_session, k.session) (k.count ∙ b.count);
    small = k.small b.small;
  }

  Step-Balanced :
      {n : ℕ} {c : Context} {w : W} {c' : Context} {w' : W}
      → Step t c w c' w'
      → Balanced n c w
      → Balanced n c' w'
  Step-Balanced {c = c} {w = w} (inits key op iv p) b =
      Kept-Balanced (op_init-Kept t held laws key op iv p c w) b
  Step-Balanced {c = c} {w = w} (legacy_inits op key iv p) b =
      Kept-Balanced (legacy_init-Kept t held laws op key iv p c w) b
  Step-Balanced {c = c} (sets p) b = record {
    count = rw (holds_session, set_ctx_params-session p c) b.count;
    small = set_ctx_params-IsSmall p c b.small;
  }
  Step-Balanced {n = n} {c = c} {w = w} (updates k d e) b =
      let a = subst (Answered held n c) e (update-Answered t held laws k n c w b.count) in
      record { count = a.count; small = a.small b.small }
  Step-Balanced {n = n} {c = c} {w = w} (finals outsize) b =
      let a = final-Counted t held laws outsize n c w b.count in
      record { count = a.count; small = a.small b.small }

  -- Of a context that was made in some world, after any calls on it with any arguments, where a session
  -- is taken only by `p11prov_try_session_ref` and given back only by `p11prov_return_session`: it has
  -- taken one session more than it gave back if it has a session, and as many if it has none; and the
  -- size of its MAC is at most that of the largest digest.
  pub Reach-Balanced :
      (size mechanism : ℕ) (w : W) {c : Context} {v : W}
      → Reach t size mechanism w c v
      → Balanced (held w) c v
  Reach-Balanced size mechanism w start = record { count = omega arith; small = omega arith }
  Reach-Balanced size mechanism w (later r s) = Step-Balanced s (Reach-Balanced size mechanism w r)

  -- Where sessions are taken only by `p11prov_try_session_ref`, when it succeeds, and given back only by
  -- `p11prov_return_session`: when a context of a cipher that was made, and on which any calls then began
  -- operations, set parameters, sent data without a read outside the buffer, or finished, in any order,
  -- is freed, every session that it took has been given back.
  pub freectx_of_Reach :
      (size mechanism : ℕ) (w : W) {c : Context} {v : W}
      → Reach t size mechanism w c v
      → held (freectx t c v) ≡ held w
  freectx_of_Reach size mechanism w {c} {v} r =
      freectx-held t held laws (held w) c v (Reach-Balanced size mechanism w r).count
