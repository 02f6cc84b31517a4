-- ===== src/Access/Login/Ends.antt =====
-- What becomes of the session that `slot_login` has fetched.
use pkcs11_provider.Base.{
  ℕ, suc, ◌*◌, ◌<◌, ◌≡◌, refl, ◌∙◌, ◌⊎◌, inl, inr, Bool, true, false, ◌||◌, Option, none, some,
  List, arith, ◌==◌, if◌then◌else◌, Bool-cases, get_elem?, set, get_elem?-set_self, lt-get_elem?,
}
use pkcs11_provider.Access.Login.Kept.{Kept, Kept-if, Kept-from, log_in-Kept}
use pkcs11_provider.Session.Release.Idle.{return_session-Settled}
use pkcs11_provider.Codes.{deflt_session_flags, invalid_handle}
use pkcs11_provider.Session.Handle.Checks.{session_check-in_use, session_check-pooled}
use pkcs11_provider.Session.Fetch.Reuse.{IsQuiet}
use pkcs11_provider.Session.Handle.Opens.{GivesHandles, token_session_open-Opened}
use pkcs11_provider.Session.Wait.Ticks.{Ticks}
use pkcs11_provider.Codes.Rv
use pkcs11_provider.Codes.{deflt_session_flags}
use pkcs11_provider.Access.Login.{login_session, settle_login, after_fetch}
use pkcs11_provider.Slot.{Slot}
use pkcs11_provider.Session.Handle.{session_check, max_wait, sleep_time, session_deref}
use pkcs11_provider.Access.{Desk, Config}
use pkcs11_provider.Session.{Host, Session, Pool}

-- What `slot_login` leaves: the session given to the caller, with `CKR_OK` and in use, or idle.
pub record Left {W : Type 0} (keep : Bool) (i : ℕ) (out : ℕ × Option ℕ × Slot × W) : Type 0 where
  pub session : Session
  pub there : get_elem? out.2.pool.sessions i ≡ some session
  pub owner :
      ((keep ≡ true) × (out.0 ≡ Rv.ok) × (out.1 ≡ some i) × (session.in_use ≡ true))
      ⊎ ((out.1 ≡ none) × (session.in_use ≡ false))

module _ {W : Type 0} (h : Host W) (t : Ticks h) (gives : GivesHandles h) (d : Desk W)
    (cfg : Config) where
  module _ (fuel : ℕ) (enough : max_wait < fuel * sleep_time) where
    login_session-Kept :
        (uri_pin : Option (List ℕ)) (has_cb : Bool) (s : Session) (slot : Slot) (w : W)
        → (r : ℕ × Session × Slot × W) × (login_session h d cfg
              (suc (suc fuel))
              uri_pin
              has_cb
              s
              slot
              w
            ≡ some r)
          × Kept h d cfg s slot r
    unfolding login_session
    login_session-Kept uri_pin has_cb s slot w =
        let (rv, s1, w1) = session_check h s.flags s w in
        let used = session_check-in_use h s.flags s w in
        let pooled = session_check-pooled h s.flags s w in
        let (o, opens, opened) =
          token_session_open-Opened h t gives fuel slot.id cfg.no_session_callbacks
            deflt_session_flags s1 w1 enough in
        elim (Bool-cases (rv == Rv.ok || rv == Rv.session_closed)) [
          | inr bad ↦
              rw (bad, login_session)
                (_, refl, record { used = used; pooled = pooled; same = refl })
          | inl fine ↦ elim (Bool-cases (s1.handle == invalid_handle)) [
            | inr live ↦
                rw (fine, live, login_session)
                  (
                    _,
                    refl,
                    Kept-from h d cfg s s1 slot _ used pooled
                        (log_in-Kept h d cfg uri_pin has_cb s1 slot w1),
                  )
            | inl bare ↦
                rw (fine, bare, opens, login_session)
                  (
                    _,
                    refl,
                    Kept-from h d cfg s o.1 slot _ (opened.in_use ∙ used) (opened.pooled ∙ pooled) (
                        Kept-if h d cfg (o.0 == Rv.ok) o.1 slot _ (o.0, o.1, slot, o.2)
                          (log_in-Kept h d cfg uri_pin has_cb o.1 slot o.2)
                          (record { used = refl; pooled = refl; same = refl })),
                  )
          ]
        ]

    module _ (quiet : IsQuiet h) where
      settle_login-Left :
          (keep : Bool) (i : ℕ) (s0 : Session) (slot : Slot) (r : ℕ × Session × Slot × W)
          → get_elem? slot.pool.sessions i ≡ some s0
          → s0.in_use ≡ true
          → s0.pooled ≡ true
          → Kept h d cfg s0 slot r
          → Left keep i (settle_login h d cfg keep i r)
      unfolding settle_login session_deref
      settle_login-Left keep i s0 slot (ret, s, slot', w) at used pooled k =
          let size = lt-get_elem? slot.pool.sessions i s0 at in
          let put : Session → Pool =
            λ u. record (slot'.pool) { sessions = set slot'.pool.sessions i u } in
          let kept : (u : Session) → get_elem? (set slot'.pool.sessions i u) i ≡ some u =
            λ u. rw k.same (get_elem?-set_self slot.pool.sessions i u size) in
          let back = λ (u : Session) (p : u.pooled ≡ true).
            (return_session-Settled h quiet (put u) i u w (kept u) p).0 in
          let own = k.pooled ∙ pooled in
          let left : Session =
            if s.is_login then record (session_deref s) { is_login = false } else s in
          let fine : left.pooled ≡ true = ground (arith, own) in
          elim (Bool-cases (ret == Rv.ok)) [
            | inl good ↦ elim (Bool-cases keep) [
              | inl keeps ↦
                  rw (good, keeps)
                    record {
                      session = s;
                      there = kept s;
                      owner = inl (refl, ground arith, refl, k.used ∙ used);
                    }
              | inr not_kept ↦
                  rw (good, not_kept)
                    record {
                      session = (back s own).0;
                      there = (back s own).1;
                      owner = inr (refl, (back s own).2.idle);
                    }
            ]
            | inr bad ↦ rw bad record {
              session = (back left fine).0;
              there = (back left fine).1;
              owner = inr (refl, (back left fine).2.idle);
            }
          ]

      -- With no interference, if the clock runs, opening a session gives a handle, and there is
      -- fuel for a second of retries: once `slot_login` has fetched a session of the pool, marked
      -- as used, the rest comes to an end, and whether or not the login succeeds the session is not
      -- lost. Either it is in use and given to a caller who wants it, with `CKR_OK`, or it is idle
      -- in the pool again.
      pub after_fetch-Left :
          (uri_pin : Option (List ℕ)) (has_cb keep : Bool) (slot : Slot) (p : Pool) (i : ℕ)
          (s : Session) (w : W)
          → get_elem? p.sessions i ≡ some s
          → s.in_use ≡ true
          → s.pooled ≡ true
          → (out : ℕ × Option ℕ × Slot × W) × (after_fetch h d cfg
                (suc (suc fuel))
                uri_pin
                has_cb
                keep
                slot
                (Rv.ok, some i, p, w)
              ≡ some out)
            × Left keep i out
      unfolding after_fetch
      after_fetch-Left uri_pin has_cb keep slot p i s w at used pooled =
          let own = record slot { pool = p } in
          let (r, ends, k) = login_session-Kept uri_pin has_cb s own w in
          (
            settle_login h d cfg keep i r,
            rw (at, ends, after_fetch) refl,
            settle_login-Left keep i s own r at used pooled k,
          )
