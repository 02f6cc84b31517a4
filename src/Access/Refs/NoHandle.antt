-- ===== src/Access/Refs/NoHandle.antt =====
-- `p11prov_try_session_ref` of src/session.c on a session that has no handle.
use pkcs11_provider.Base.{ℕ, ◌≡◌, refl, Bool, true, false, ◌||◌, some, arith, set}
use pkcs11_provider.Access.Refs.{try_ref, use_ref}
use pkcs11_provider.Session.Handle.Checks.{session_check-bare}
use pkcs11_provider.Access.Get.{session_flags}
use pkcs11_provider.Access.{Config}
use pkcs11_provider.Codes.{invalid_handle}
use pkcs11_provider.Session.{Session, Host, Pool}

module _ {W : Type 0} (h : Host W) (cfg : Config) (fuel : ℕ) where
  use_ref_bare :
      (slot flags : ℕ) (p : Pool) (i : ℕ) (s : Session) (w : W)
      → s.in_use ≡ true
      → s.handle ≡ invalid_handle
      → use_ref h cfg fuel slot flags p i s w
        ≡ some (some i, record p { sessions = set p.sessions i s }, w)
  unfolding use_ref
  use_ref_bare slot flags p i s w used bare = rw (session_check-bare h flags s w used bare)

  -- The reference is tried without opening a session that has no handle: one that is idle and not broken
  -- is handed out as it is, with no handle.
  pub try_ref_no_handle :
      (slot : ℕ) (rw_session : Bool) (p : Pool) (i : ℕ) (s : Session) (w : W)
      → let (err, seen, w') = h.lock_session w i s in
        (err ≡ 0)
        → (seen.in_use ≡ false)
        → (seen.is_broken ≡ false)
        → (seen.handle ≡ invalid_handle)
        → try_ref h cfg fuel slot rw_session p i s w
          ≡ some (
            some i,
            record p { sessions = set (set p.sessions i seen) i (record seen { in_use = true }) },
            w',
          )
  unfolding try_ref
  try_ref_no_handle slot rw_session p i s w locked idle whole bare =
      let (err, seen, w') = h.lock_session w i s in
      let free : (seen.in_use || seen.is_broken) ≡ false = ground arith in
      rw (
        locked,
        free,
        use_ref_bare slot (session_flags rw_session) _ i (record seen { in_use = true }) w' refl
            bare,
      )
