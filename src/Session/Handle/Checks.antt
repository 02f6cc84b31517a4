-- ===== src/Session/Handle/Checks.antt =====
-- What `session_check` reports, and what it does to the session.
use pkcs11_provider.Base.{ℕ, ◌≡◌, true, arith}
use pkcs11_provider.Codes.Rv
use pkcs11_provider.Codes.{invalid_handle}
use pkcs11_provider.Session.Handle.{session_check, check_info}
use pkcs11_provider.Session.{Host, Session}

module _ {W : Type 0} (h : Host W) where
  pub session_check-in_use :
      (flags : ℕ) (s : Session) (w : W) → (session_check h flags s w).1.in_use ≡ s.in_use
  unfolding session_check check_info
  session_check-in_use flags s w = ground arith

  pub session_check-pooled :
      (flags : ℕ) (s : Session) (w : W) → (session_check h flags s w).1.pooled ≡ s.pooled
  unfolding session_check check_info
  session_check-pooled flags s w = ground arith

  -- A session in use that has no handle passes the check as it is.
  pub session_check-bare :
      (flags : ℕ) (s : Session) (w : W)
      → s.in_use ≡ true
      → s.handle ≡ invalid_handle
      → session_check h flags s w ≡ (Rv.ok, s, w)
  unfolding session_check
  session_check-bare flags s w used bare = rw (used, bare)
