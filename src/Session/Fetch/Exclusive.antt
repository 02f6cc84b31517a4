-- ===== src/Session/Fetch/Exclusive.antt =====
-- To whom a session belongs that `fetch_session` of src/session.c hands out.
use pkcs11_provider.Base.{
  ℕ, ◌≡◌, refl, subst, ◌⊎◌, inl, inr, Bool, true, false, Option, none, some, arith, get_elem?,
  get_elem?-append_end, All,
}
use pkcs11_provider.Session.Handle.{token_session_close}
use pkcs11_provider.Session.Fetch.New.{Made, session_new-Made, refusal, more}
use pkcs11_provider.Codes.Rv
use pkcs11_provider.Session.Fetch.Scan.{Takes, passes-TakenAt, fetch_session_cases}
use pkcs11_provider.Session.Fetch.{look_login, look_free, look_broken, looks, fetch_session}
use pkcs11_provider.Session.{Host, Session, Pool, bare_session}

module _ {W : Type 0} (h : Host W) where
  -- What a caller gets from a lock that showed a session: nobody used it, and it is now marked as
  -- used. A broken one had no references, and its handle was closed.
  pub record Handed (lock : ℕ × Session × W) (s' : Session) : Type 0 where
    pub locked : lock.0 ≡ 0
    pub idle : lock.1.in_use ≡ false
    pub state :
        ((lock.1.is_broken ≡ false) × (s' ≡ record (lock.1) { in_use = true }))
        ⊎ ((lock.1.is_broken ≡ true)
            × (lock.1.refcnt ≡ 0)
            × (s' ≡ record (token_session_close h lock.1 lock.2).0 { in_use = true }))

  -- Such a lock was had on the session with an index.
  abbrev pub Owned : ℕ → Session → Type 0
  Owned i s' = (w : W) × (s : Session) × Handed (h.lock_session w i s) s'

  look_login-Takes : Takes h Owned (look_login h)
  unfolding look_login
  look_login-Takes i s w e =
      (w, s, record { locked = ground arith; idle = ground arith; state = inl (ground arith) })

  look_free-Takes : (test : Session → Bool) → Takes h Owned (look_free h test)
  unfolding look_free
  look_free-Takes test i s w e =
      (w, s, record { locked = ground arith; idle = ground arith; state = inl (ground arith) })

  look_broken-Takes : Takes h Owned (look_broken h)
  unfolding look_broken
  look_broken-Takes i s w e =
      (w, s, record { locked = ground arith; idle = ground arith; state = inr (ground arith) })

  plain-Takes : (flags : ℕ) → All (Takes h Owned) (looks h flags false)
  unfolding looks
  plain-Takes flags =
      (look_free-Takes _, (look_free-Takes _, (look_free-Takes _, (look_broken-Takes, tt))))

  looks-Takes : (flags : ℕ) (login : Bool) → All (Takes h Owned) (looks h flags login)
  unfolding looks
  looks-Takes flags false = plain-Takes flags
  looks-Takes flags true = (look_login-Takes, plain-Takes flags)

  -- A session that is the caller's, in the state in which it is handed out.
  pub record Given (i : ℕ) (s : Session) : Type 0 where
    pub marked : s.in_use ≡ true
    pub origin : Owned i s ⊎ (s ≡ record bare_session { in_use = true })

  -- With a session comes `CKR_OK`, and the session is in the array.
  abbrev pub Gives : ℕ × Option ℕ × Pool × W → Type 0
  Gives (rv, none, p, w) = Unit {0}
  Gives (rv, some i, p, w) =
      (rv ≡ Rv.ok) × ((s : Session) × (get_elem? p.sessions i ≡ some s) × Given i s)

  Gives-some :
      (i : ℕ) (r : ℕ × Option ℕ × Pool × W)
      → r.1 ≡ some i
      → Gives r
      → (r.0 ≡ Rv.ok) × ((s : Session) × (get_elem? r.2.sessions i ≡ some s) × Given i s)
  Gives-some i (rv, none, p, w) e g = cc
  Gives-some i (rv, some j, p, w) e g =
      subst (λ k. (rv ≡ Rv.ok) × ((s : Session) × (get_elem? p.sessions k ≡ some s) × Given k s))
        (ground arith) g

  Owned-Given : {i : ℕ} {s : Session} → Owned i s → Given i s
  Owned-Given (w, s0, handed) = record {
    marked = ground (arith, handed.state);
    origin = inl (w, s0, handed);
  }

  Made-Gives : (p : Pool) {r : ℕ × Option ℕ × Pool × W} → Made h p r → Gives r
  Made-Gives p (refusal rv w bad) = tt
  Made-Gives p (more w space) = (
    refl,
    (
      record bare_session { in_use = true },
      get_elem?-append_end p.sessions (record bare_session { in_use = true }),
      record { marked = refl; origin = inr refl },
    ),
  )

  pub fetch_session-Gives :
      (p : Pool) (flags : ℕ) (login : Bool) (w : W) → Gives (fetch_session h p flags login w)
  fetch_session-Gives p flags login w =
      let w0 = (h.lock_pool w).1 in
      let ls = looks h flags login in
      let took = passes-TakenAt h Owned ls (looks-Takes flags login) p.sessions w0 in
      fetch_session_cases h Gives p flags login w (λ e. tt)
        (λ e. Made-Gives _ (session_new-Made h _ _))
        (λ k e. let (s, at, own) = rw e at took in (refl, (s, at, Owned-Given own))) (λ rv e. tt)

  -- A session that `fetch_session` returns comes with `CKR_OK`, is in the array and is marked as used.
  -- It is either a new one, or one of the old ones that no thread used at the moment at which its mutex
  -- was taken, whatever other threads did before; a broken one had no references and was closed.
  pub fetch_session-Given :
      (p : Pool) (flags : ℕ) (login_session : Bool) (w : W) (i : ℕ)
      → let (rv, r, p', w') = fetch_session h p flags login_session w in
        r ≡ some i → (rv ≡ Rv.ok) × ((s : Session) × (get_elem? p'.sessions i ≡ some s) × Given i s)
  fetch_session-Given p flags login w i e =
      Gives-some i (fetch_session h p flags login w) e (fetch_session-Gives p flags login w)
