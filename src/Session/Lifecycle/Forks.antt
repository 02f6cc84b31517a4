-- ===== src/Session/Lifecycle/Forks.antt =====
-- What the child of a fork finds in a session pool.
use pkcs11_provider.Base.{suc, ◌≡◌, refl, ap, ◌≢◌, false, none, List, [], ◌∷◌, arith, length}
use pkcs11_provider.Codes.Rv
use pkcs11_provider.Session.Fetch.{session_new_bare}
use pkcs11_provider.Session.Lifecycle.{fork_reset_one, fork_reset, fork_reset_all, forked}
use pkcs11_provider.Codes.{invalid_handle}
use pkcs11_provider.Session.{Session, Host, Pool}

-- A session that a fork cannot have left in use, logged in or with a handle of the parent.
pub record IsFresh (s : Session) : Type 0 where
  pub no_handle : s.handle ≡ invalid_handle
  pub idle : s.in_use ≡ false
  pub logged_out : s.is_login ≡ false
  pub silent : s.cb ≡ none

abbrev pub AllFresh : List Session → Type 0
AllFresh [] = Unit {0}
AllFresh (s ∷ ss) = IsFresh s × AllFresh ss

module _ {W : Type 0} (h : Host W) where
  fork_reset_one-IsFresh : (s : Session) (w : W) → IsFresh (fork_reset_one h s w).0
  unfolding fork_reset_one
  fork_reset_one-IsFresh s w = record {
    no_handle = ground arith;
    idle = ground arith;
    logged_out = ground arith;
    silent = ground arith;
  }

  fork_reset_all-AllFresh :
      (ss : List Session) (w : W)
      → AllFresh (fork_reset_all h ss w).0 × (length (fork_reset_all h ss w).0 ≡ length ss)
  unfolding fork_reset_all
  fork_reset_all-AllFresh [] w = (tt, refl)
  fork_reset_all-AllFresh (s ∷ ss) w =
      let rest = fork_reset_all-AllFresh ss (fork_reset_one h s w).1 in
      ((fork_reset_one-IsFresh s w, rest.0), ap suc rest.1)

  -- If the pool's mutex can be had, the reset leaves as many sessions as before, and none of them has a
  -- handle, a callback, a user or a login.
  pub fork_reset-AllFresh :
      (p : Pool) (w : W)
      → (h.lock_pool w).0 ≡ 0
      → let p' = (fork_reset h p w).0 in
        AllFresh p'.sessions × (length p'.sessions ≡ length p.sessions)
  unfolding fork_reset
  fork_reset-AllFresh p w e = rw e (fork_reset_all-AllFresh p.sessions (h.lock_pool w).1)

  -- A session whose mutex cannot be made again stays in the array without a pool, although its
  -- replacement was made: the replacement is lost.
  pub fork_reset_loses_replacement :
      (s : Session) (w : W)
      → (h.mutex_init w).0 ≢ 0
      → (session_new_bare h (h.mutex_init w).1).0 ≡ Rv.ok
      → (fork_reset_one h s w).0 ≡ record (forked s) { pooled = false }
  unfolding fork_reset_one
  fork_reset_loses_replacement s w bad made = ground arith
