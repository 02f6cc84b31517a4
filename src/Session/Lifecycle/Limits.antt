-- ===== src/Session/Lifecycle/Limits.antt =====
-- The bounds that `p11prov_session_pool_init` sets.
use pkcs11_provider.Base.{ℕ, ◌≤◌, ◌<◌, ◌≡◌, some, [], arith}
use pkcs11_provider.Codes.{ulong_mod}
use pkcs11_provider.Session.{Host, Pool}
use pkcs11_provider.Session.Lifecycle.{session_pool_init}

-- For a token whose limit is a `CK_ULONG`, a new pool is empty, may have sessions, and caches no
-- more than it may have or than is configured: the subtraction of one does not wrap round.
pub session_pool_init_limits :
    {W : Type 0} (h : Host W) (max_session_count cache_sessions id : ℕ) (w : W) (p : Pool)
    → max_session_count < ulong_mod
    → (session_pool_init h max_session_count cache_sessions id w).1 ≡ some p
    → (0 < p.max_sessions)
      × (p.max_cached_sessions ≤ p.max_sessions)
      × (p.max_cached_sessions ≤ cache_sessions)
      × (p.sessions ≡ [])
unfolding session_pool_init
session_pool_init_limits h max_session_count cache_sessions id w p small e =
    (ground arith, ground arith, ground arith, ground arith)
