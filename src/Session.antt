-- ===== src/Session.antt =====
-- src/session.c: the sessions and the pool that keeps them, and what the code asks of the PKCS#11
-- module, of the C library and of other threads. Child modules hold the operations and their proofs.
pub mod Wait
pub mod Handle
pub mod Fetch
pub mod Release
pub mod Lifecycle
pub mod Samples
mod Tests
use pkcs11_provider.Base.{ℕ, Bool, true, false, Option, none, List}
use pkcs11_provider.Codes.{unavailable, invalid_handle, deflt_session_flags}

-- A session. `refcnt` is the bit pattern of an `int`. `pooled` says whether the pointer `pool` is
-- set; the slot and the provider context are those of the pool.
pub record Session : Type 0 where
  pub handle : ℕ
  pub state : ℕ
  pub flags : ℕ
  pub in_use : Bool
  pub cb : Option ℕ
  pub cbarg : ℕ
  pub refcnt : ℕ
  pub is_login : Bool
  pub is_broken : Bool
  pub pooled : Bool

-- A pool. A pointer to one of its sessions is that session's index; `num_sessions` is the length.
pub record Pool : Type 0 where
  pub slotid : ℕ
  pub max_sessions : ℕ
  pub max_cached_sessions : ℕ
  pub sessions : List Session

-- What `C_GetSessionInfo` reports.
pub record SessionInfo : Type 0 where
  pub info_state : ℕ
  pub info_flags : ℕ

-- What the code calls and does not implement, over an unknown state `W` of the rest of the world:
-- the PKCS#11 module, the allocator, the clock, and the mutexes. Whoever waits for a session's mutex
-- finds the session as other threads left it.
pub record Host (W : Type 0) : Type 0 where
  -- `C_OpenSession` with the slot, the flags and whether a callback is registered: the return value
  -- and the handle.
  pub open_session : W → ℕ → ℕ → Bool → ℕ × ℕ × W
  pub get_session_info : W → ℕ → ℕ × SessionInfo × W
  pub close_session : W → ℕ → W
  -- `clock_gettime`: the return value, the seconds and the nanoseconds.
  pub clock_gettime : W → ℕ × ℕ × ℕ × W
  -- `nanosleep` with the nanoseconds: the return value, as the bit pattern of an `int`.
  pub nanosleep : W → ℕ → ℕ × W
  -- Whether an allocation succeeds.
  pub alloc : W → Bool × W
  pub mutex_init : W → ℕ × W
  -- `pthread_mutex_lock` on the pool, and on the session with an index.
  pub lock_pool : W → ℕ × W
  pub lock_session : W → ℕ → Session → ℕ × Session × W

-- What `session_new_bare` fills in before it makes the mutex.
abbrev pub bare_session : Session
bare_session = record {
  handle = invalid_handle;
  state = unavailable;
  flags = deflt_session_flags;
  in_use = false;
  cb = none;
  cbarg = 0;
  refcnt = 0;
  is_login = false;
  is_broken = false;
  pooled = true;
}
