-- ===== src/Access/Get/Handles.antt =====
-- Whether a caller that gets a session from `p11prov_get_session` can use it.
use pkcs11_provider.Base.{
  ℕ, suc, ◌*◌, ◌<◌, ◌≡◌, refl, ◌∙◌, ◌≢◌, inl, inr, true, false, ◌||◌, Option, none, some, List,
  arith, ◌==◌, Bool-cases, get_elem?, get_elem?-set_self, lt-get_elem?,
}
use pkcs11_provider.Session.Fetch.{fetch_session}
use pkcs11_provider.Slot.{Slot}
use pkcs11_provider.Session.Fetch.Exclusive.{Gives, fetch_session-Gives}
use pkcs11_provider.Codes.Rv
use pkcs11_provider.Session.Handle.Checks.{session_check-in_use}
use pkcs11_provider.Session.Handle.{max_wait, sleep_time, session_check}
use pkcs11_provider.Session.Handle.Opens.{GivesHandles, token_session_open-Opened}
use pkcs11_provider.Access.Get.{session_flags, ready, pool_session}
use pkcs11_provider.Session.Wait.Ticks.{Ticks}
use pkcs11_provider.Access.{Config, Desk, Request}
use pkcs11_provider.Codes.{invalid_handle}
use pkcs11_provider.Session.{Session, Host, Pool}

-- The session at an index is in the array, marked as used and with a handle.
pub record IsUsable (ss : List Session) (i : ℕ) : Type 0 where
  pub session : Session
  pub there : get_elem? ss i ≡ some session
  pub used : session.in_use ≡ true
  pub handle : session.handle ≢ invalid_handle

module _ {W : Type 0} (h : Host W) (t : Ticks h) (gives : GivesHandles h) (d : Desk W)
    (cfg : Config) where
  -- A session, if there is one, comes with `CKR_OK` and can be used.
  abbrev pub Delivers : ℕ × Option ℕ × Pool × W → Type 0
  Delivers (rv, none, p, w) = Unit {0}
  Delivers (rv, some i, p, w) = (rv ≡ Rv.ok) × IsUsable p.sessions i

  module _ (fuel rdlock : ℕ) (enough : max_wait < fuel * sleep_time) where
    ready-Delivers :
        (slot flags : ℕ) (p : Pool) (r : ℕ × Option ℕ × Pool × W)
        → Gives h r
        → (out : ℕ × Option ℕ × Pool × W) × (ready h d cfg (suc (suc fuel)) rdlock slot flags p r
            ≡ some out)
          × Delivers out
    unfolding ready
    ready-Delivers slot flags p (ret, none, p', w) g = ((ret, none, p', w), refl, tt)
    ready-Delivers slot flags p (ret, some i, p', w) (good, (s, at, given)) =
        let size = lt-get_elem? p'.sessions i s at in
        let (rv, s1, w1) = session_check h flags s w in
        let used : s1.in_use ≡ true = session_check-in_use h flags s w ∙ given.marked in
        let kept = λ (u : Session). get_elem?-set_self p'.sessions i u size in
        let (o, opens, opened) =
          token_session_open-Opened h t gives fuel slot cfg.no_session_callbacks flags s1 w1
            enough in
        elim (Bool-cases (rv == Rv.ok || rv == Rv.session_closed)) [
          | inr bad ↦ rw (at, bad, ready) (_, refl, tt)
          | inl fine ↦ elim (Bool-cases (s1.handle == invalid_handle)) [
            | inr live ↦
                rw (at, fine, live, ready)
                  (
                    _,
                    refl,
                    (
                      refl,
                      record { session = s1; there = kept s1; used = used; handle = ground arith },
                    ),
                  )
            | inl bare ↦ elim (Bool-cases (o.0 == Rv.ok)) [
              | inr bad ↦ rw (at, fine, bare, opens, bad, ready) (_, refl, tt)
              | inl done ↦
                  rw (at, fine, bare, opens, done, ready)
                    (
                      _,
                      refl,
                      (
                        ground arith,
                        record {
                          session = o.1;
                          there = kept o.1;
                          used = opened.in_use ∙ used;
                          handle = opened.handle (ground arith);
                        },
                      ),
                    )
            ]
          ]
        ]

    -- If the clock runs, opening a session gives a handle, and there is fuel for a second of
    -- retries, then asking a slot's pool for a session comes to an end. A session that is handed
    -- out comes with `CKR_OK`, is in the array, is marked as used and has a handle.
    pub pool_session-Delivers :
        (q : Request) (s : Slot) (w : W)
        → (ret : ℕ) × (r : Option ℕ) × (s' : Slot) × (w' : W) × (pool_session h d cfg
              (suc (suc fuel))
              rdlock
              q
              s
              w
            ≡ some (ret, r, s', w'))
          × Delivers (ret, r, s'.pool, w')
    unfolding pool_session
    pool_session-Delivers q s w =
        let flags = session_flags q.rw_session in
        let ((ret, r, p, w'), e, good) =
          ready-Delivers s.id flags s.pool (fetch_session h s.pool flags false w)
            (fetch_session-Gives h s.pool flags false w) in
        (ret, r, record s { pool = p }, w', rw (e, pool_session) refl, good)
