-- ===== src/Access/Refs.antt =====
-- `p11prov_try_session_ref` and `p11prov_take_login_session` of src/session.c. `rdlock` is the result
-- of the read lock on the slots.
pub mod NoHandle
use pkcs11_provider.Base.{
  ℕ, Bool, true, false, not, ◌||◌, Option, none, some, List, ◌==◌, if◌then◌else◌, get_elem?, set,
}
use pkcs11_provider.Access.Get.{session_flags, Got, get_session, refused_with}
use pkcs11_provider.Session.Handle.{session_check, token_session_open}
use pkcs11_provider.Codes.{unavailable}
use pkcs11_provider.Access.Login.{slot_login}
use pkcs11_provider.Codes.Rv
use pkcs11_provider.Session.{Host, Pool, Session}
use pkcs11_provider.Access.{Config, Request, Desk}
use pkcs11_provider.Slot.{Slot, take_slots, check_mechanism, slot_index}

-- The attempt of `p11prov_try_session_ref` on the session that the object refers to. `none` for the
-- fuel; inside, the session if it was had, and the pool as it is then left.
module _ {W : Type 0} (h : Host W) (cfg : Config) (fuel : ℕ) where
  release : Pool → ℕ → Session → W → Pool × W
  release p i s w =
      let (err, s', w') = h.lock_session w i s in
      (
        record p {
          sessions = set p.sessions i (if err == 0 then record s' { in_use = false } else s);
        },
        w',
      )

  -- With the session marked as used.
  pub use_ref : ℕ → ℕ → Pool → ℕ → Session → W → Option (Option ℕ × Pool × W)
  unfolding release
  use_ref slot flags p i s w =
      let (rv, s1, w1) = session_check h flags s w in
      let reopened = token_session_open h fuel slot cfg.no_session_callbacks flags s1 w1 in
      let put = λ (t : Session). record p { sessions = set p.sessions i t } in
      let give : Session → W → Option (Option ℕ × Pool × W) = λ t v. some (some i, put t, v) in
      let drop : Session → W → Option (Option ℕ × Pool × W) =
        λ t v. let back = release (put t) i t v in some (none, back.0, back.1) in
      if rv == Rv.ok
      then give s1 w1
      else (if rv == Rv.session_read_only then drop s1 w1 else elim reopened [
        | none ↦ none
        | some (rv', s2, w2) ↦ (if rv' == Rv.ok then give s2 w2 else drop s2 w2)
      ])

  pub try_ref : ℕ → Bool → Pool → ℕ → Session → W → Option (Option ℕ × Pool × W)
  unfolding use_ref
  try_ref slot rw p i s w =
      let (err, s', w') = h.lock_session w i s in
      let p' = record p { sessions = set p.sessions i s' } in
      let used = use_ref slot (session_flags rw) p' i (record s' { in_use = true }) w' in
      if err == 0
      then (if s'.in_use || s'.is_broken then some (none, p', w') else used)
      else some (none, p, w')

module _ {W : Type 0} (h : Host W) (d : Desk W) (cfg : Config) (fuel : ℕ) (rdlock : ℕ) where
  -- For an object of a slot, which may refer to a session by its slot's index and its own. If that
  -- session cannot be had, `p11prov_get_session` is asked, with no passphrase callback.
  pub try_session_ref : Request → ℕ → Option (ℕ × ℕ) → List Slot → W → Option (Got W)
  unfolding try_ref
  try_session_ref q id ref slots w =
      let any = get_session h d cfg fuel rdlock (record q { has_cb = false }) id false in
      let rv =
        if q.mechtype == unavailable then Rv.ok else check_mechanism rdlock slots id q.mechtype in
      if rv == Rv.ok
      then elim ref [
        | none ↦ any slots w
        | some (k, i) ↦ elim (get_elem? slots k) [
          | none ↦ any slots w
          | some s ↦ elim (get_elem? s.pool.sessions i) [
            | none ↦ any slots w
            | some t ↦ elim (try_ref h cfg fuel s.id q.rw_session s.pool i t w) [
              | none ↦ none
              | some (had, p, w') ↦
                  let slots' = set slots k (record s { pool = p }) in
                  elim had [
                    | none ↦ any slots' w'
                    | some j ↦ some (record {
                      ret = Rv.ok;
                      slotid = id;
                      next_slotid = unavailable;
                      session = some (k, j);
                      slots = slots';
                      world = w';
                    })
                  ]
            ]
          ]
        ]
      ]
      else some (refused_with rv id slots w)

  -- A login session of a slot, kept for the caller: the return value, the session's index and the slots.
  pub take_login_session : ℕ → List Slot → W → Option (ℕ × Option ℕ × List Slot × W)
  take_login_session id slots w =
      if not (take_slots rdlock == Rv.ok)
      then some (take_slots rdlock, none, slots, w)
      else elim (slot_index 0 slots id) [
        | none ↦ some (Rv.slot_id_invalid, none, slots, w)
        | some i ↦ elim (get_elem? slots i) [
          | none ↦ some (Rv.slot_id_invalid, none, slots, w)
          | some s ↦ elim (slot_login h d cfg fuel none false false true s w) [
            | none ↦ none
            | some (ret, r, s', w') ↦ some (ret, r, set slots i s', w')
          ]
        ]
      ]
