-- ===== src/Session/Release/Idle.antt =====
-- What a session and its pool are like once `p11prov_return_session` has run.
use pkcs11_provider.Base.{
  ℕ, ◌<◌, ◌≡◌, refl, ◌≢◌, ◌⊎◌, true, false, none, some, arith, get_elem?, set, count_if,
  get_elem?-set_self, get_elem?-set_ne, lt-get_elem?,
}
use pkcs11_provider.Codes.{invalid_handle}
use pkcs11_provider.Session.Handle.{token_session_close}
use pkcs11_provider.Session.Release.{
  close_if_idle, set_callback, has_ref, is_open, return_session, give_back,
}
use pkcs11_provider.Session.Fetch.Reuse.{IsQuiet}
use pkcs11_provider.Session.{Host, Pool, Session}

-- Of the mutexes that the call takes: they can be had, and nobody else changes the session.
module _ {W : Type 0} (h : Host W) (quiet : IsQuiet h) where
  -- What becomes of the session that is given back.
  pub record Settled (p : Pool) (s : Session) (s' : Session) : Type 0 where
    pub idle : s'.in_use ≡ false
    pub silent : (s'.cb ≡ none) × (s'.cbarg ≡ 0)
    pub refs : s'.refcnt ≡ s.refcnt
    pub handle : (s'.handle ≡ s.handle) ⊎ (s'.handle ≡ invalid_handle)
    pub spare :
        has_ref s ≡ false
        → is_open s' ≡ true
        → (s.is_broken ≡ false) × (count_if is_open p.sessions < p.max_cached_sessions)

  closed : Pool → Session → W → Session
  closed p s w = (close_if_idle h p s w).0

  module _ (p : Pool) (s : Session) (w : W) (pooled : s.pooled ≡ true) where
    closed_same :
        ((closed p s w).cb ≡ s.cb)
        × ((closed p s w).cbarg ≡ s.cbarg)
        × ((closed p s w).refcnt ≡ s.refcnt)
        × ((closed p s w).pooled ≡ true)
    unfolding closed close_if_idle token_session_close
    closed_same = (ground arith, ground arith, ground arith, ground arith)

    closed_handle : ((closed p s w).handle ≡ s.handle) ⊎ ((closed p s w).handle ≡ invalid_handle)
    unfolding closed close_if_idle token_session_close
    closed_handle = ground arith

    closed_spare :
        has_ref s ≡ false
        → is_open (closed p s w) ≡ true
        → (s.is_broken ≡ false) × (count_if is_open p.sessions < p.max_cached_sessions)
    unfolding closed close_if_idle token_session_close
    closed_spare r o = (ground (arith, quiet.pool_locks w), ground (arith, quiet.pool_locks w))

  settled : Pool → Session → W → Session
  unfolding closed
  settled p s w = record (closed p (set_callback none 0 s) w) { in_use = false }

  settled-Settled : (p : Pool) (s : Session) (w : W) → s.pooled ≡ true → Settled p s (settled p s w)
  unfolding settled
  settled-Settled p s w pooled =
      let t = set_callback none 0 s in
      let same = closed_same p t w pooled in
      record {
        idle = refl;
        silent = (same.0, same.1);
        refs = same.2;
        handle = closed_handle p t w pooled;
        spare = closed_spare p t w pooled;
      }

  gives_back :
      (i : ℕ) (s : Session) (w : W)
      → s.pooled ≡ true
      → (give_back h i s w).0 ≡ some (record s { in_use = false })
  unfolding give_back
  gives_back i s w pooled = ground (arith, quiet.session_locks w i s, quiet.session_stays w i s)

  returned :
      (p : Pool) (i : ℕ) (s : Session) (w : W)
      → get_elem? p.sessions i ≡ some s
      → s.pooled ≡ true
      → (return_session h p (some i) w).0 ≡ record p { sessions = set p.sessions i (settled p s w) }
  unfolding return_session settled
  returned p i s w at pooled =
      let s0 = set_callback none 0 s in
      let w1 = (close_if_idle h p s0 w).1 in
      rw (at, return_session, gives_back i (closed p s0 w) w1 (closed_same p s0 w pooled).3)

  -- With no interference, returning a session of a pool makes it idle and takes its callback away.
  -- It keeps its references, and its handle or none at all: without references it keeps an open
  -- handle only if it is not broken and the pool had fewer than `max_cached_sessions` open ones.
  -- The other sessions are untouched.
  pub return_session-Settled :
      (p : Pool) (i : ℕ) (s : Session) (w : W)
      → get_elem? p.sessions i ≡ some s
      → s.pooled ≡ true
      → let p' = (return_session h p (some i) w).0 in
        ((s' : Session) × (get_elem? p'.sessions i ≡ some s') × Settled p s s')
        × ((j : ℕ) → i ≢ j → get_elem? p'.sessions j ≡ get_elem? p.sessions j)
  return_session-Settled p i s w at pooled = rw (returned p i s w at pooled) (
    (
      settled p s w,
      get_elem?-set_self p.sessions i _ (lt-get_elem? p.sessions i s at),
      settled-Settled p s w pooled,
    ),
    λ j ne. get_elem?-set_ne p.sessions i j _ ne,
  )
