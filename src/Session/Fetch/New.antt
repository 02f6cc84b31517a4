-- ===== src/Session/Fetch/New.antt =====
-- The outcomes of `session_new` of src/session.c.
use pkcs11_provider.Base.{
  ℕ, ◌<◌, ◌≡◌, ◌≢◌, ◌⊎◌, inl, inr, true, Option, none, some, [], ◌∷◌, ◌++◌, arith, leb, ◌==◌,
  Bool-cases, length,
}
use pkcs11_provider.Codes.Rv
use pkcs11_provider.Session.Fetch.{session_new_bare, session_new, grow}
use pkcs11_provider.Session.{Host, Pool, bare_session}

module _ {W : Type 0} (h : Host W) where
  -- The outcomes of `session_new`.
  pub data Made (p : Pool) : ℕ × Option ℕ × Pool × W → Type 0 where
    refusal : (rv : ℕ) (w : W) → rv ≢ Rv.ok → Made p (rv, none, p, w)
    more :
        (w : W)
        → length p.sessions < p.max_sessions
        → Made p (
          Rv.ok,
          some (length p.sessions),
          record p { sessions = p.sessions ++ (record bare_session { in_use = true } ∷ []) },
          w,
        )

  bare_cases :
      (w : W)
      → (((session_new_bare h w).1 ≡ none) × ((session_new_bare h w).0 ≢ Rv.ok))
        ⊎ ((session_new_bare h w).1 ≡ some bare_session)
  unfolding session_new_bare
  bare_cases w = elim (Bool-cases (h.alloc w).0) [
    | inr fails ↦ inl (ground arith, ground arith)
    | inl got ↦ elim (Bool-cases ((h.mutex_init (h.alloc w).1).0 == 0)) [
      | inr fails ↦ inl (ground arith, ground arith)
      | inl locks ↦ inr (ground arith)
    ]
  ]

  -- `session_new` refuses and leaves the pool as it is, or it adds one session below the maximum.
  pub session_new-Made : (p : Pool) (w : W) → Made p (session_new h p w)
  unfolding session_new
  session_new-Made p w = elim (Bool-cases (leb p.max_sessions (length p.sessions))) [
    | inl full ↦ rw full (refusal Rv.session_count w (ground arith))
    | inr space ↦ rw space (elim (bare_cases w) [
      | inl (lacks, bad) ↦ rw (lacks, session_new) (refusal (session_new_bare h w).0 _ bad)
      | inr makes ↦
          rw (makes, session_new)
            (elim (Bool-cases (grow h p (session_new_bare h w).2).0) [
              | inl room ↦ rw (room, session_new) (more _ (ground arith))
              | inr tight ↦ rw (tight, session_new) (refusal Rv.host_memory _ (ground arith))
            ])
    ])
  ]
