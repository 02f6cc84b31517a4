-- ===== src/Session/Fetch/Bounds.antt =====
-- How large `fetch_session` lets a pool become.
use pkcs11_provider.Base.{
  ℕ, suc, ◌+◌, ◌<◌, ◌≡◌, refl, ap, ◌∙◌, ◌⊎◌, inl, inr, Bool, Option, List, [], ◌∷◌, arith, length,
  length-append,
}
use pkcs11_provider.Session.Fetch.Scan.{Looking, Pass-cases, Look-cases, fetch_session_cases}
use pkcs11_provider.Session.Fetch.New.{Made, refusal, more, session_new-Made}
use pkcs11_provider.Session.Fetch.{scan, passes, fetch_session, looks}
use pkcs11_provider.Session.{Host, Pool, Session}

module _ {W : Type 0} (h : Host W) where
  length-scan :
      (look : Looking W) (i : ℕ) (ss : List Session) (w : W)
      → length (scan h look i ss w).1 ≡ length ss
  unfolding scan
  length-scan look i [] w = refl
  length-scan look i (s ∷ ss) w =
      let rest = length-scan look (suc i) ss (look i s w).2 in
      elim (Look-cases (look i s w).0) [
        | inl e ↦ rw (e, scan) (ap suc rest)
        | inr (inl e) ↦ rw (e, scan)
        | inr (inr (rv, e)) ↦ rw (e, scan)
      ]

  pub length-passes :
      (looks : List (Looking W)) (ss : List Session) (w : W)
      → length (passes h looks ss w).1 ≡ length ss
  unfolding passes
  length-passes [] ss w = refl
  length-passes (look ∷ looks) ss w =
      let first = length-scan look 0 ss w in
      let rest = length-passes looks (scan h look 0 ss w).1 (scan h look 0 ss w).2 in
      elim (Pass-cases (scan h look 0 ss w).0) [
        | inl e ↦ rw (e, passes) (rest ∙ first)
        | inr (inl (k, e)) ↦ rw (e, passes) first
        | inr (inr (rv, e)) ↦ rw (e, passes) first
      ]

  -- The limits of a pool, and its number of sessions, after a call.
  pub record Grown (p : Pool) (r : ℕ × Option ℕ × Pool × W) : Type 0 where
    pub slot : r.2.slotid ≡ p.slotid
    pub limit : r.2.max_sessions ≡ p.max_sessions
    pub cache : r.2.max_cached_sessions ≡ p.max_cached_sessions
    pub size :
        (length r.2.sessions ≡ length p.sessions)
        ⊎ ((length r.2.sessions ≡ length p.sessions + 1) × (length p.sessions < p.max_sessions))

  Made-Grown : (p : Pool) {r : ℕ × Option ℕ × Pool × W} → Made h p r → Grown p r
  Made-Grown p (refusal rv w bad) = record {
    slot = refl;
    limit = refl;
    cache = refl;
    size = inl refl;
  }
  Made-Grown p (more w space) = record {
    slot = refl;
    limit = refl;
    cache = refl;
    size = inr (length-append p.sessions _ ∙ omega arith, space);
  }

  -- A scan before the call changes no number.
  regrown :
      (p : Pool) (ss : List Session) {r : ℕ × Option ℕ × Pool × W}
      → length ss ≡ length p.sessions
      → Grown (record p { sessions = ss }) r
      → Grown p r
  regrown p ss {r} same g = record {
    slot = g.slot;
    limit = g.limit;
    cache = g.cache;
    size = rw same at (g.size);
  }

  -- A call of `fetch_session` adds at most one session, and only below the pool's maximum; it changes
  -- no limit of the pool.
  pub fetch_session-Grown :
      (p : Pool) (flags : ℕ) (login_session : Bool) (w : W)
      → Grown p (fetch_session h p flags login_session w)
  fetch_session-Grown p flags login w =
      let w0 = (h.lock_pool w).1 in
      let out = passes h (looks h flags login) p.sessions w0 in
      let same = length-passes (looks h flags login) p.sessions w0 in
      fetch_session_cases h (Grown p) p flags login w
        (λ e. record { slot = refl; limit = refl; cache = refl; size = inl refl })
        (λ e. regrown p out.1 same (Made-Grown _ (session_new-Made h _ _)))
        (λ k e. record { slot = refl; limit = refl; cache = refl; size = inl same })
        (λ rv e. record { slot = refl; limit = refl; cache = refl; size = inl same })
