-- ===== src/Session/Handle/Opens.antt =====
-- `token_session_open` of src/session.c: the end of its retries, and what it leaves in the session.
use pkcs11_provider.Base.{
  ℕ, zero, suc, ◌+◌, ◌*◌, ◌^◌, ◌<◌, ◌≡◌, ◌≢◌, inl, inr, Bool, not, none, some, arith, Option-cases,
}
use pkcs11_provider.Codes.{invalid_handle}
use pkcs11_provider.Codes.Rv
use pkcs11_provider.Session.Wait.{cyclewait_with_timeout}
use pkcs11_provider.Session.Handle.{open_loop, max_wait, sleep_time, opened, token_session_open}
use pkcs11_provider.Session.Wait.Ticks.{Ticks, cyclewait-true}
use pkcs11_provider.Session.{Host, Session}

module _ {W : Type 0} (h : Host W) (t : Ticks h) where
  open t use {now}

  -- A retry leaves less time until the deadline.
  open_loop_late :
      (fuel slot flags : ℕ) (callback : Bool) (start : ℕ) (w : W)
      → start ≢ 0
      → start < 2 ^ 63
      → start + max_wait < now w + fuel * sleep_time
      → open_loop h (suc fuel) slot flags callback start w ≢ none
  unfolding open_loop
  open_loop_late zero slot flags callback start w nz ls late = ground (
    arith,
    t.opens w slot flags callback,
    cyclewait-true h t max_wait sleep_time start (h.open_session w slot flags callback).2,
  )
  open_loop_late (suc fuel) slot flags callback start w nz ls late =
      let w' = (h.open_session w slot flags callback).2 in
      let next = cyclewait_with_timeout h max_wait sleep_time start w' in
      ground (
        arith,
        t.opens w slot flags callback,
        cyclewait-true h t max_wait sleep_time start w',
        open_loop_late fuel slot flags callback next.1 next.2,
      )

  -- The first round only notes the time.
  open_loop-ne-none :
      (fuel slot flags : ℕ) (callback : Bool) (w : W)
      → max_wait < fuel * sleep_time
      → open_loop h (suc (suc fuel)) slot flags callback 0 w ≢ none
  unfolding open_loop
  open_loop-ne-none fuel slot flags callback w enough =
      let w' = (h.open_session w slot flags callback).2 in
      let next = cyclewait_with_timeout h max_wait sleep_time 0 w' in
      ground (
        arith,
        t.started w',
        t.small w',
        cyclewait-true h t max_wait sleep_time 0 w',
        open_loop_late fuel slot flags callback next.1 next.2,
      )

-- `C_OpenSession` gives a handle when it succeeds.
abbrev pub GivesHandles : {W : Type 0} → Host W → Type 0
GivesHandles {W} h =
    (w : W) (slot flags : ℕ) (callback : Bool)
    → (h.open_session w slot flags callback).0 ≡ Rv.ok
    → (h.open_session w slot flags callback).1 ≢ invalid_handle

module _ {W : Type 0} (h : Host W) (gives : GivesHandles h) where
  open_loop-handle :
      (fuel slot flags : ℕ) (callback : Bool) (start : ℕ) (w : W) (r : ℕ × ℕ × W)
      → open_loop h fuel slot flags callback start w ≡ some r
      → r.0 ≡ Rv.ok
      → r.1 ≢ invalid_handle
  unfolding open_loop
  open_loop-handle zero slot flags callback start w r e good = cc
  open_loop-handle (suc fuel) slot flags callback start w r e good =
      let next =
        cyclewait_with_timeout h max_wait sleep_time start
          (h.open_session w slot flags callback).2 in
      ground (
        arith,
        gives w slot flags callback,
        open_loop-handle fuel slot flags callback next.1 next.2 r,
      )

-- What opening does to a session: nobody's claim, reference or login changes; success comes with a
-- handle, and a session whose handle is gone comes with an error.
pub record Opened {W : Type 0} (s : Session) (r : ℕ × Session × W) : Type 0 where
  pub in_use : r.1.in_use ≡ s.in_use
  pub refcnt : r.1.refcnt ≡ s.refcnt
  pub is_login : r.1.is_login ≡ s.is_login
  pub pooled : r.1.pooled ≡ s.pooled
  pub handle : r.0 ≡ Rv.ok → r.1.handle ≢ invalid_handle

module _ {W : Type 0} (h : Host W) (t : Ticks h) (gives : GivesHandles h) where
  opened-Opened :
      (flags : ℕ) (s : Session) (r : ℕ × ℕ × W)
      → (r.0 ≡ Rv.ok → r.1 ≢ invalid_handle)
      → Opened s (opened h flags s r)
  unfolding opened
  opened-Opened flags s (ret, handle, w) good = record {
    in_use = ground arith;
    refcnt = ground arith;
    is_login = ground arith;
    pooled = ground arith;
    handle = ground arith;
  }

  -- If the clock runs and opening a session gives a handle, `token_session_open` comes to an end:
  -- two rounds more than what passes a second in steps of 50 microseconds are enough. It changes no
  -- claim, reference, login or pool of the session, and success comes with a handle.
  pub token_session_open-Opened :
      (fuel slot : ℕ) (no_callbacks : Bool) (flags : ℕ) (s : Session) (w : W)
      → max_wait < fuel * sleep_time
      → (r : ℕ × Session × W) × (token_session_open h (suc (suc fuel)) slot no_callbacks flags s w
          ≡ some r)
        × Opened s r
  unfolding token_session_open
  token_session_open-Opened fuel slot no_callbacks flags s w enough =
      elim (Option-cases (open_loop h (suc (suc fuel)) slot flags (not no_callbacks) 0 w)) [
        | inl e ↦ absurd (open_loop-ne-none h t fuel slot flags (not no_callbacks) w enough e)
        | inr (r, e) ↦ (
          opened h flags s r,
          rw (e, token_session_open),
          opened-Opened flags s r (open_loop-handle h gives _ slot flags _ 0 w r e),
        )
      ]
