-- ===== src/Session/Handle.antt =====
-- Opening, closing and checking the token's session behind a session object, in src/session.c.
pub mod Opens
pub mod Checks
use pkcs11_provider.Base.{
  ℕ, zero, suc, ◌+◌, ◌-◌, ◌%◌, bit_and, Bool, false, not, Option, none, some, ◌==◌, if◌then◌else◌,
}
use pkcs11_provider.Codes.{unavailable, invalid_handle, deflt_session_flags, int_mod}
use pkcs11_provider.Codes.Rv
use pkcs11_provider.Session.{Session, SessionInfo, Host}
use pkcs11_provider.Session.Wait.{cyclewait_with_timeout}

-- `MAX_WAIT` and `SLEEP`, in nanoseconds.
abbrev pub max_wait : ℕ
max_wait = 1000000000

abbrev pub sleep_time : ℕ
sleep_time = 50000

-- `token_session_callback`: the callback and the argument that it runs, if any.
pub token_session_callback : Session → ℕ → Option (ℕ × ℕ)
token_session_callback s h_session =
    if s.handle == h_session then elim s.cb [ none ↦ none | some f ↦ some (f, s.cbarg) ] else none

-- No token session, no flags but the default, no known state.
abbrev pub reset_handle : Session → Session
reset_handle s = record s {
  handle = invalid_handle;
  flags = deflt_session_flags;
  state = unavailable;
}

unfoldable pub session_ref : Session → Session
session_ref s = record s { refcnt = (s.refcnt + 1) % int_mod }

unfoldable pub session_deref : Session → Session
session_deref s = record s { refcnt = (s.refcnt + (int_mod - 1)) % int_mod }

module _ {W : Type 0} (h : Host W) where
  -- The `do … while` of `token_session_open`, with fuel: the last return value and the handle.
  pub open_loop : ℕ → ℕ → ℕ → Bool → ℕ → W → Option (ℕ × ℕ × W)
  open_loop zero slot flags callback start w = none
  open_loop (suc fuel) slot flags callback start w =
      let (ret, handle, w') = h.open_session w slot flags callback in
      let (more, start', w'') = cyclewait_with_timeout h max_wait sleep_time start w' in
      let rest = open_loop fuel slot flags callback start' w'' in
      if ret == Rv.session_count
      then (if more then rest else some (ret, handle, w''))
      else some (ret, handle, w')

  -- What `token_session_open` does with the outcome of the loop.
  pub opened : ℕ → Session → ℕ × ℕ × W → ℕ × Session × W
  opened flags s (ret, handle, w) =
      let (rinfo, info, w') = h.get_session_info w handle in
      if ret == Rv.ok
      then (if rinfo == Rv.ok
          then (
            rinfo,
            record s { handle = handle; flags = info.info_flags; state = info.info_state },
            w',
          )
          else (rinfo, record s { handle = handle; flags = flags }, w'))
      else (ret, reset_handle s, w)

  -- `none` means that the fuel ran out.
  pub token_session_open : ℕ → ℕ → Bool → ℕ → Session → W → Option (ℕ × Session × W)
  token_session_open fuel slot no_callbacks flags s w =
      elim (open_loop fuel slot flags (not no_callbacks) 0 w) [
        | none ↦ none
        | some r ↦ some (opened flags s r)
      ]

  unfoldable pub token_session_close : Session → W → Session × W
  token_session_close s w =
      if s.handle == invalid_handle
      then (s, w)
      else (reset_handle (record s { is_broken = false }), h.close_session w s.handle)

  -- The branch of `session_check` for a session with a handle.
  pub check_info : ℕ → Session → ℕ × SessionInfo × W → ℕ × Session × W
  check_info flags s (ret, info, w) =
      let s' = record s { state = info.info_state } in
      let lost = λ (t : Session). record t { handle = invalid_handle; state = unavailable } in
      if ret == Rv.ok
      then (if flags == bit_and info.info_flags flags
          then (Rv.ok, s', w)
          else (if s.refcnt == 0
              then (Rv.session_closed, lost s', h.close_session w s.handle)
              else (Rv.session_read_only, s', w)))
      else (ret, lost s, w)

  pub session_check : ℕ → Session → W → ℕ × Session × W
  session_check flags s w =
      let checked = check_info flags s (h.get_session_info w s.handle) in
      if s.in_use
      then (if s.handle == invalid_handle then (Rv.ok, s, w) else checked)
      else (Rv.general_error, s, w)

  -- Whether `session_free` released the memory, or orphaned the session.
  pub session_free : ℕ → Session → W → Option Session × W
  session_free i s w =
      let (err, s', w') = h.lock_session w i s in
      let freed = token_session_close s' w' in
      if err == 0
      then (if s'.in_use then (some (record s' { pooled = false }), w') else (none, freed.1))
      else (some (record s { pooled = false }), w')
