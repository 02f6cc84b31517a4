-- ===== src/Session/Wait/Ticks.antt =====
-- What `cyclewait_with_timeout` does when the clock runs, and what it does when a signal comes.
use pkcs11_provider.Base.{
  ℕ, ◌+◌, ◌-◌, ◌*◌, ◌^◌, ◌≤◌, ◌<◌, ◌≡◌, ◌≢◌, ◌⊎◌, inl, inr, Bool, true, false, arith, ◌==◌,
  Bool-cases,
}
use pkcs11_provider.Session.Wait.{nanos_sec, cyclewait_with_timeout, sleep}
use pkcs11_provider.Session.{Host}

-- The interrupted value of `nanosleep`, -1 as an `int`.
abbrev pub minus_one : ℕ
minus_one = 2 ^ 32 - 1

-- The clock and the calls that wait, as their documentation has them: `clock_gettime` tells a time that
-- nothing turns back, if it succeeds; `nanosleep` returns 0 after at least the interval, or -1. The
-- clock has started and is far from the end of `uint64_t`.
pub record Ticks {W : Type 0} (h : Host W) : Type 0 where
  pub now : W → ℕ
  pub started : (w : W) → 0 < now w
  pub small : (w : W) → now w < 2 ^ 63
  pub tells :
      (w : W)
      → (h.clock_gettime w).0 ≡ 0
      → (h.clock_gettime w).1 * nanos_sec + (h.clock_gettime w).2 ≡ now w
  pub reads : (w : W) → now w ≤ now (h.clock_gettime w).3
  pub opens :
      (w : W) (slot flags : ℕ) (callback : Bool)
      → now w ≤ now (h.open_session w slot flags callback).2
  pub sleeps :
      (w : W) (n : ℕ)
      → (((h.nanosleep w n).0 ≡ 0) × (now w + n ≤ now (h.nanosleep w n).1))
        ⊎ ((h.nanosleep w n).0 ≡ minus_one)

module _ {W : Type 0} (h : Host W) (t : Ticks h) where
  open t use {now}

  sleep-true :
      (interval start : ℕ) (w : W)
      → (sleep h interval start w).0 ≡ true
      → now w + interval ≤ now (sleep h interval start w).2
  unfolding sleep
  sleep-true interval start w e = ground (arith, t.sleeps w interval)

  -- If the clock runs, and the start and the length of the wait are far from the end of `uint64_t`:
  -- while `cyclewait_with_timeout` says to go on, it has kept the start time, noted on the first
  -- call, has not passed the deadline, and has slept for the interval.
  pub cyclewait-true :
      (max_wait interval start : ℕ) (w : W)
      → start < 2 ^ 63
      → max_wait < 2 ^ 63
      → let (more, start', w') = cyclewait_with_timeout h max_wait interval start w in
        more ≡ true
        → (now w + interval ≤ now w')
          × (((start ≡ 0) × (start' ≡ now w))
              ⊎ ((start ≢ 0) × (start' ≡ start) × (now w ≤ start + max_wait)))
  unfolding cyclewait_with_timeout sleep
  cyclewait-true max_wait interval start w ls lm e = (
    ground (arith, t.reads w, t.sleeps (h.clock_gettime w).3 interval),
    elim (Bool-cases (start == 0)) [
      | inl first ↦ inl (ground arith, ground (arith, t.tells w, t.small w))
      | inr later ↦ inr (ground arith, ground arith, ground (arith, t.tells w, t.small w))
    ],
  )

  -- An interrupted sleep ends the wait: -1 is neither 0 nor `EINTR`.
  pub cyclewait_interrupted :
      (max_wait interval start : ℕ) (w : W)
      → (h.nanosleep (h.clock_gettime w).3 interval).0 ≡ minus_one
      → (cyclewait_with_timeout h max_wait interval start w).0 ≡ false
  unfolding cyclewait_with_timeout
  cyclewait_interrupted max_wait interval start w e = ground arith
