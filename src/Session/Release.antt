-- ===== src/Session/Release.antt =====
-- `p11prov_return_session` of src/session.c: how a thread gives its session back, and what else a
-- holder does to it.
pub mod Idle
use pkcs11_provider.Base.{
  ℕ, ◌^◌, Bool, true, false, not, ◌&&◌, Option, none, some, ltb, leb, ◌==◌, if◌then◌else◌,
  get_elem?, set, count_if,
}
use pkcs11_provider.Codes.{invalid_handle}
use pkcs11_provider.Session.{Session, Pool, Host}
use pkcs11_provider.Session.Handle.{token_session_close, session_free}

-- `p11prov_session_set_callback`.
abbrev pub set_callback : Option ℕ → ℕ → Session → Session
set_callback cb cbarg s = record s { cb = cb; cbarg = cbarg }

-- `p11prov_session_mark_broken`, on the session with an index.
pub mark_broken : Session → Session
mark_broken s = record s { is_broken = true }

-- `refcnt > 0`, for the bit pattern of an `int`.
abbrev pub has_ref : Session → Bool
has_ref s = ltb 0 s.refcnt && ltb s.refcnt (2 ^ 31)

abbrev pub is_open : Session → Bool
is_open s = not (s.handle == invalid_handle)

module _ {W : Type 0} (h : Host W) where
  -- Whether a session without references is to be closed, given the sessions of its pool.
  close_wanted : Pool → Session → W → Bool × W
  close_wanted p s w =
      let (err, w') = h.lock_pool w in
      let open_sessions = if err == 0 then count_if is_open p.sessions else 0 in
      if s.is_broken
      then (true, w)
      else (if s.pooled then (leb p.max_cached_sessions open_sessions, w') else (false, w))

  pub close_if_idle : Pool → Session → W → Session × W
  unfolding close_wanted
  close_if_idle p s w =
      let (close_session, w') = close_wanted p s w in
      let closed = token_session_close h s w' in
      if has_ref s then (s, w) else (if close_session then closed else (s, w'))

  -- The end of `p11prov_return_session`; `none` for a session that it freed.
  pub give_back : ℕ → Session → W → Option Session × W
  give_back i s w =
      let (err, s', w') = h.lock_session w i s in
      let idle = record s' { in_use = false } in
      if err == 0
      then (if s.pooled then (some idle, w') else session_free h i idle w')
      else (some s, w')

  -- On a session that is in the array of its pool. One that was freed leaves the array as it is.
  pub return_session : Pool → Option ℕ → W → Pool × W
  unfolding close_if_idle give_back
  return_session p none w = (p, w)
  return_session p (some i) w = elim (get_elem? p.sessions i) [
    | none ↦ (p, w)
    | some s ↦
        let (s1, w1) = close_if_idle p (set_callback none 0 s) w in
        let (s2, w2) = give_back i s1 w1 in
        elim s2 [ none ↦ (p, w2) | some s3 ↦ (record p { sessions = set p.sessions i s3 }, w2) ]
  ]
