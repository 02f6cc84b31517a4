-- ===== src/Session/Lifecycle.antt =====
-- The pool's life in src/session.c: its making, its reset after a fork, and its end.
pub mod Forks
pub mod Limits
use pkcs11_provider.Base.{
  ℕ, suc, ◌+◌, ◌-◌, ◌%◌, Bool, true, false, not, ◌&&◌, Option, none, some, List, [], ◌∷◌, ltb, ◌==◌,
  if◌then◌else◌,
}
use pkcs11_provider.Codes.{unavailable, effectively_infinite, max_concurrent_sessions, ulong_mod}
use pkcs11_provider.Codes.Rv
use pkcs11_provider.Session.{Session, Pool, Host}
use pkcs11_provider.Session.Handle.{reset_handle, session_free}
use pkcs11_provider.Session.Fetch.{session_new_bare}

-- The bounds that `p11prov_session_pool_init` sets, from the token's `ulMaxSessionCount` and the
-- configured number of sessions to cache.
pub session_limit : ℕ → ℕ
session_limit max_session_count =
    if not (max_session_count == effectively_infinite) && not (max_session_count == unavailable)
    then max_session_count
    else max_concurrent_sessions

pub cache_limit : ℕ → ℕ → ℕ
cache_limit max_sessions cache_sessions =
    if ltb max_sessions cache_sessions
    then (max_sessions + (ulong_mod - 1)) % ulong_mod
    else cache_sessions

-- The session as a fork leaves it, up to its mutex.
pub forked : Session → Session
forked s = record (reset_handle s) { in_use = false; cb = none; cbarg = 0; is_login = false }

module _ {W : Type 0} (h : Host W) where
  pub session_pool_init : ℕ → ℕ → ℕ → W → ℕ × Option Pool × W
  unfolding session_limit cache_limit
  session_pool_init max_session_count cache_sessions id w =
      let (got, w') = h.alloc w in
      let (err, w'') = h.mutex_init w' in
      let most = session_limit max_session_count in
      let pool : Pool = record {
        slotid = id;
        max_sessions = most;
        max_cached_sessions = cache_limit most cache_sessions;
        sessions = [];
      } in
      if got
      then (if err == 0 then (Rv.ok, some pool, w'') else (Rv.cant_lock, none, w''))
      else (Rv.host_memory, none, w')

  -- One round of the loop of `p11prov_session_pool_fork_reset`. The replacement that it makes when
  -- the mutex cannot be made again goes to a local variable only.
  pub fork_reset_one : Session → W → Session × W
  unfolding forked
  fork_reset_one s w =
      let (err, w') = h.mutex_init w in
      let (ret, spare, w'') = session_new_bare h w' in
      let s' = forked s in
      if err == 0
      then (s', w')
      else (if ret == Rv.ok
          then (record s' { pooled = false }, w'')
          else (record s' { pooled = true }, w''))

  fork_reset_all : List Session → W → List Session × W
  fork_reset_all [] w = ([], w)
  fork_reset_all (s ∷ ss) w =
      let (s', w') = fork_reset_one s w in let (ss', w'') = fork_reset_all ss w' in (s' ∷ ss', w'')

  pub fork_reset : Pool → W → Pool × W
  unfolding fork_reset_all fork_reset_one
  fork_reset p w =
      let (err, w') = h.lock_pool w in
      let (ss, w'') = fork_reset_all p.sessions w' in
      if err == 0 then (record p { sessions = ss }, w'') else (p, w')

  -- The sessions that are orphaned, not freed: their holders still use them.
  free_all : ℕ → List Session → W → List Session × W
  free_all i [] w = ([], w)
  free_all i (s ∷ ss) w =
      let (left, w') = session_free h i s w in
      let (rest, w'') = free_all (suc i) ss w' in
      elim left [ none ↦ (rest, w'') | some o ↦ (o ∷ rest, w'') ]

  -- Whether the pool itself was freed, and the orphans.
  pub session_pool_free : Pool → W → Bool × List Session × W
  unfolding free_all
  session_pool_free p w =
      let (err, w') = h.lock_pool w in
      let (orphans, w'') = free_all 0 p.sessions w' in
      if err == 0 then (true, orphans, w'') else (false, [], w')
