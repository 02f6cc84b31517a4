-- ===== src/Session/Wait.antt =====
-- `cyclewait_with_timeout` of src/util.c, and the mutex wrappers there.
pub mod Ticks
use pkcs11_provider.Base.{ℕ, ◌+◌, ◌*◌, ◌%◌, Bool, false, ◌||◌, ltb, ◌==◌, if◌then◌else◌}
use pkcs11_provider.Codes.{ulong_mod}
use pkcs11_provider.Codes.Rv
use pkcs11_provider.Session.{Host}

-- `EINTR` of Linux.
abbrev pub eintr : ℕ
eintr = 4

abbrev pub nanos_sec : ℕ
nanos_sec = 1000000000

-- The return value of `p11prov_mutex_lock` from the one of `pthread_mutex_lock`.
abbrev pub mutex_rv : ℕ → ℕ
mutex_rv err = if err == 0 then Rv.ok else Rv.cant_lock

module _ {W : Type 0} (h : Host W) where
  sleep : ℕ → ℕ → W → Bool × ℕ × W
  sleep interval start w =
      let (ret, w') = h.nanosleep w interval in (ret == 0 || ret == eintr, start, w')

  -- The answer, the new `*start_time` and the world. Times are `uint64_t`.
  pub cyclewait_with_timeout : ℕ → ℕ → ℕ → W → Bool × ℕ × W
  unfolding sleep
  cyclewait_with_timeout max_wait interval start w =
      let (ret, sec, nsec, w') = h.clock_gettime w in
      let now = (sec * nanos_sec + nsec) % ulong_mod in
      let first = sleep interval now w' in
      let again = sleep interval start w' in
      if ret == 0
      then (if start == 0
          then first
          else (if ltb ((start + max_wait) % ulong_mod) now then (false, start, w') else again))
      else (false, start, w')
