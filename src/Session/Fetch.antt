-- ===== src/Session/Fetch.antt =====
-- `fetch_session` of src/session.c: how a thread gets a session of a pool for its own use.
pub mod New
pub mod Scan
pub mod Exclusive
pub mod Bounds
pub mod Reuse
mod Tests
use pkcs11_provider.Base.{
  ℕ, suc, ◌%◌, Bool, true, not, ◌&&◌, ◌||◌, Option, none, some, List, [], ◌∷◌, ◌++◌, leb, ◌==◌,
  if◌then◌else◌, length,
}
use pkcs11_provider.Codes.{invalid_handle, sess_alloc_size}
use pkcs11_provider.Codes.Rv
use pkcs11_provider.Session.{Session, Pool, Host, bare_session}
use pkcs11_provider.Session.Wait.{mutex_rv}
use pkcs11_provider.Session.Handle.{token_session_close, session_free}

-- What a look at one session comes to: on to the next one, the session is ours, or give up.
pub data Look : Type 0 where
  skip taken : Look
  refused : ℕ → Look

-- What a pass over the sessions comes to.
pub data Pass : Type 0 where
  nothing : Pass
  found : ℕ → Pass
  stopped : ℕ → Pass

-- The states `CKS_RO_USER_FUNCTIONS`, `CKS_RW_USER_FUNCTIONS` and `CKS_RW_SO_FUNCTIONS`.
pub is_login_state : ℕ → Bool
is_login_state state = state == 1 || state == 3 || state == 4

abbrev pub claim : Session → Session
claim s = record s { in_use = true }

-- The test under the lock, for a session that is to be used as it is.
abbrev pub is_free : Session → Bool
is_free s = not s.in_use && not s.is_login && not s.is_broken

-- The test before the lock, common to three of the passes.
abbrev pub is_plain : Session → Bool
is_plain s = not (s.is_login || s.is_broken)

module _ {W : Type 0} (h : Host W) where
  -- The loop of a pass, with the index and the rest of the sessions.
  pub scan : (ℕ → Session → W → Look × Session × W) → ℕ → List Session → W → Pass × List Session × W
  scan look i [] w = (nothing, [], w)
  scan look i (s ∷ ss) w =
      let (seen, s', w') = look i s w in
      let (pass, ss', w'') = scan look (suc i) ss w' in
      elim seen [
        | skip ↦ (pass, s' ∷ ss', w'')
        | taken ↦ (found i, s' ∷ ss, w')
        | refused rv ↦ (stopped rv, s' ∷ ss, w')
      ]

  -- The first pass: an existing login session, which may turn out to be busy or broken.
  pub look_login : ℕ → Session → W → Look × Session × W
  look_login i s w =
      let (err, s', w') = h.lock_session w i s in
      let busy = if is_login_state s'.state then Rv.user_already_logged_in else Rv.cant_lock in
      if s.is_login
      then (if err == 0
          then (if s'.is_login
              then (if s'.in_use
                  then (refused busy, s', w')
                  else (if s'.is_broken
                      then (refused Rv.cant_lock, s', w')
                      else (taken, claim s', w')))
              else (skip, s', w'))
          else (refused (mutex_rv err), s, w'))
      else (skip, s, w)

  -- A look that takes a free session which passed the test before the lock.
  pub look_free : (Session → Bool) → ℕ → Session → W → Look × Session × W
  look_free test i s w =
      let (err, s', w') = h.lock_session w i s in
      if test s
      then (if err == 0
          then (if is_free s' then (taken, claim s', w') else (skip, s', w'))
          else (skip, s, w'))
      else (skip, s, w)

  -- The second pass: a cached handle with the same flags and a reference.
  pub look_referenced : ℕ → ℕ → Session → W → Look × Session × W
  unfolding look_free
  look_referenced flags =
      look_free λ s.
        is_plain s && s.flags == flags && not (s.handle == invalid_handle) && not (s.refcnt == 0)

  -- The third pass: a cached handle with the same flags.
  pub look_cached : ℕ → ℕ → Session → W → Look × Session × W
  unfolding look_free
  look_cached flags =
      look_free λ s. is_plain s && s.flags == flags && not (s.handle == invalid_handle)

  -- The fourth pass: any free session.
  pub look_any : ℕ → Session → W → Look × Session × W
  unfolding look_free
  look_any = look_free is_plain

  -- The fifth pass: a broken session with no reference, closed before it is used.
  pub look_broken : ℕ → Session → W → Look × Session × W
  look_broken i s w =
      let (err, s', w') = h.lock_session w i s in
      let (closed, w'') = token_session_close h s' w' in
      if s.is_broken
      then (if err == 0
          then (if not s'.in_use && s'.is_broken && s'.refcnt == 0
              then (taken, claim closed, w'')
              else (skip, s', w'))
          else (skip, s, w'))
      else (skip, s, w)

  -- The passes in turn, each run only if those before it found nothing.
  pub passes :
      List (ℕ → Session → W → Look × Session × W) → List Session → W → Pass × List Session × W
  passes [] ss w = (nothing, ss, w)
  passes (look ∷ looks) ss w =
      let (pass, ss', w') = scan look 0 ss w in
      let rest = passes looks ss' w' in
      elim pass [
        | nothing ↦ rest
        | found i ↦ (found i, ss', w')
        | stopped rv ↦ (stopped rv, ss', w')
      ]

  pub session_new_bare : W → ℕ × Option Session × W
  session_new_bare w =
      let (got, w') = h.alloc w in
      let (err, w'') = h.mutex_init w' in
      if got
      then (if err == 0 then (Rv.ok, some bare_session, w'') else (Rv.cant_lock, none, w''))
      else (Rv.host_memory, none, w')

  -- The array has room for `sess_alloc_size` more sessions whenever their number is a multiple.
  grow : Pool → W → Bool × W
  grow p w =
      let more = h.alloc w in if length p.sessions % sess_alloc_size == 0 then more else (true, w)

  pub session_new : Pool → W → ℕ × Option ℕ × Pool × W
  unfolding session_new_bare grow
  session_new p w =
      let n = length p.sessions in
      let (ret, made, w1) = session_new_bare w in
      let (room, w2) = grow p w1 in
      if leb p.max_sessions n then (Rv.session_count, none, p, w) else elim made [
        | none ↦ (ret, none, p, w1)
        | some s ↦
            (if room
              then (Rv.ok, some n, record p { sessions = p.sessions ++ (claim s ∷ []) }, w2)
              else (Rv.host_memory, none, p, (session_free h n s w2).1))
      ]

  -- The looks that `fetch_session` makes, in the order of the code.
  pub looks : ℕ → Bool → List (ℕ → Session → W → Look × Session × W)
  unfolding look_login look_referenced look_cached look_any look_broken
  looks flags login_session =
      let plain = look_referenced flags ∷ look_cached flags ∷ look_any ∷ look_broken ∷ [] in
      if login_session then look_login ∷ plain else plain

  -- The return value, the index of the session that is now the caller's, the pool and the world.
  pub fetch_session : Pool → ℕ → Bool → W → ℕ × Option ℕ × Pool × W
  unfolding passes looks session_new
  fetch_session p flags login_session w =
      let (err, w0) = h.lock_pool w in
      let (pass, ss, w1) = passes (looks flags login_session) p.sessions w0 in
      let p' = record p { sessions = ss } in
      let fresh = session_new p' w1 in
      if err == 0
      then elim pass [
        | nothing ↦ fresh
        | found i ↦ (Rv.ok, some i, p', w1)
        | stopped rv ↦ (rv, none, p', w1)
      ]
      else (mutex_rv err, none, p, w0)
