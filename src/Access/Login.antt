-- ===== src/Access/Login.antt =====
-- `token_login` and `slot_login` of src/session.c.
pub mod Pins
pub mod Kept
pub mod Ends
mod Tests
use pkcs11_provider.Base.{
  ℕ, zero, suc, Bool, true, false, not, ◌&&◌, ◌||◌, Option, none, some, List, [], ◌∷◌, ◌==◌,
  if◌then◌else◌, has_flag, get_elem?, set, same_bytes,
}
use pkcs11_provider.Session.Release.{return_session}
use pkcs11_provider.Session.Wait.{cyclewait_with_timeout}
use pkcs11_provider.Session.Handle.{
  session_deref, session_check, token_session_open, max_wait, session_ref,
}
use pkcs11_provider.Codes.{deflt_session_flags, cku_user, invalid_handle}
use pkcs11_provider.Session.Fetch.{fetch_session, is_login_state}
use pkcs11_provider.Codes.Flag
use pkcs11_provider.Slot.{Slot, set_bad_pin, set_cached_pin}
use pkcs11_provider.Session.{Host, Session, Pool}
use pkcs11_provider.Codes.Rv
use pkcs11_provider.Access.{Config, Desk}

-- What comes of the search for a pin: none is to be used, one that was stored, one that the user gave, or
-- an error.
pub data Pin : Type 0 where
  no_pin : Pin
  stored asked : List ℕ → Pin
  failed : ℕ → Pin

abbrev or_else {ℓ} : {A : Type ℓ} → Option A → Option A → Option A
or_else none b = b
or_else (some a) b = some a

-- The URI's pin, else the configured one, else the cached one, unless it is the one that failed.
pub stored_pin : Config → Option (List ℕ) → Slot → Option (List ℕ)
stored_pin cfg uri_pin slot = elim (or_else uri_pin (or_else cfg.ctx_pin slot.cached_pin)) [
  | none ↦ none
  | some p ↦ elim slot.bad_pin [
    | none ↦ some p
    | some bad ↦ if same_bytes p bad then none else some p
  ]
]

-- `check_pin_flags_ok` on what `C_GetTokenInfo` returned.
pub check_pin_flags_ok : ℕ → ℕ → ℕ
check_pin_flags_ok rv flags =
    if rv == Rv.ok
    then (if has_flag flags Flag.user_pin_final_try
        then Rv.cancel
        else (if has_flag flags Flag.user_pin_locked
            then Rv.pin_locked
            else (if has_flag flags Flag.user_pin_to_be_changed then Rv.pin_expired else Rv.ok)))
    else rv

module _ {W : Type 0} (h : Host W) (d : Desk W) (cfg : Config) where
  -- The user is asked by the caller's callback, and by the provider's prompt if that is missing or fails.
  ask_pin : Bool → W → Pin × W
  ask_pin has_cb w =
      let (own, w1) = d.pw_cb w in
      let (given, w2) = d.prompt_for_pin (if has_cb then w1 else w) in
      let answer : Option (List ℕ) × W = elim (if has_cb then own else none) [
        | some p ↦ (some p, w1)
        | none ↦ (given, w2)
      ] in
      (
        elim answer.0 [
          | none ↦ failed Rv.general_error
          | some p ↦ elim p [ [] ↦ failed Rv.cancel | c ∷ cs ↦ asked (c ∷ cs) ]
        ],
        answer.1,
      )

  pub choose_pin : Bool → Option (List ℕ) → Slot → W → Pin × W
  unfolding stored_pin ask_pin
  choose_pin has_cb uri_pin slot w =
      let question = ask_pin has_cb w in
      if has_flag slot.token_flags Flag.protected_authentication_path
      then (no_pin, w)
      else elim (stored_pin cfg uri_pin slot) [ some p ↦ (stored p, w) | none ↦ question ]

  -- What follows `C_Login` with a pin: the session's mark and reference, and the slot's memory of the pin.
  pub logged_in : ℕ → Option (List ℕ) → Bool → Session → Slot → ℕ × W → ℕ × Session × Slot × W
  unfolding set_bad_pin set_cached_pin
  logged_in user_type pin cache s slot (ret, w) =
      let (room, w1) = h.alloc w in
      let s' = if user_type == cku_user then record (session_ref s) { is_login = true } else s in
      let good : Slot × W = elim pin [
        | none ↦ (slot, w)
        | some p ↦ (if cache then ((set_cached_pin room p slot).1, w1) else (slot, w))
      ] in
      let bad : Slot × W = elim pin [
        | none ↦ (slot, w)
        | some p ↦
            (if ret == Rv.pin_incorrect then ((set_bad_pin room p slot).1, w1) else (slot, w))
      ] in
      if ret == Rv.ok
      then (Rv.ok, s', good.0, good.1)
      else (if ret == Rv.user_already_logged_in
          then (Rv.ok, s, good.0, good.1)
          else (ret, s, bad.0, bad.1))

  -- The flags are looked at anew before the pin is tried.
  pub try_pin : ℕ → Option (List ℕ) → Bool → Session → Slot → W → ℕ × Session × Slot × W
  unfolding check_pin_flags_ok logged_in
  try_pin user_type pin cache s slot w =
      let (rv, flags, w1) = d.get_token_info w slot.id in
      let ret = check_pin_flags_ok rv flags in
      let done = logged_in user_type pin cache s slot (d.login w1 s.handle user_type pin) in
      if ret == Rv.ok then done else (ret, s, slot, w1)

  -- The return value, the session, the slot and the world.
  pub token_login : Option (List ℕ) → Bool → ℕ → Session → Slot → W → ℕ × Session × Slot × W
  unfolding choose_pin try_pin
  token_login uri_pin has_cb user_type s slot w =
      let (choice, w1) = choose_pin has_cb uri_pin slot w in
      elim choice [
        | no_pin ↦ try_pin user_type none false s slot w1
        | stored p ↦ try_pin user_type (some p) false s slot w1
        | asked p ↦ try_pin user_type (some p) cfg.cache_pins s slot w1
        | failed rv ↦ (rv, s, slot, w1)
      ]

  -- `LOCK_SLEEP`, in nanoseconds.
  abbrev lock_sleep : ℕ
  lock_sleep = 5000

  -- The `do … while` of `slot_login`, with fuel.
  pub fetch_again : ℕ → ℕ → Pool → W → Option (ℕ × Option ℕ × Pool × W)
  fetch_again zero start p w = none
  fetch_again (suc fuel) start p w =
      let (ret, r, p', w') = fetch_session h p deflt_session_flags true w in
      let (more, start', w'') = cyclewait_with_timeout h max_wait lock_sleep start w' in
      let rest = fetch_again fuel start' p' w'' in
      if ret == Rv.ok
      then some (ret, r, p', w')
      else (if more then rest else some (ret, r, p', w''))

  -- The end of `slot_login`, with the session as it was left: it is kept for the caller on success, if
  -- the caller wants it, and given back otherwise.
  pub settle_login : Bool → ℕ → ℕ × Session × Slot × W → ℕ × Option ℕ × Slot × W
  settle_login keep i (ret, s, slot, w) =
      let put = λ (t : Session). record (slot.pool) { sessions = set slot.pool.sessions i t } in
      let out = record (session_deref s) { is_login = false } in
      let failing = return_session h (put (if s.is_login then out else s)) (some i) w in
      let passing = return_session h (put s) (some i) w in
      if ret == Rv.ok
      then (if keep
          then (ret, some i, record slot { pool = put s }, w)
          else (ret, none, record slot { pool = passing.0 }, passing.1))
      else (ret, none, record slot { pool = failing.0 }, failing.1)

  -- The middle of `slot_login`, on the session that was fetched. `none` means that the fuel ran out.
  pub login_session :
      ℕ → Option (List ℕ) → Bool → Session → Slot → W → Option (ℕ × Session × Slot × W)
  unfolding token_login
  login_session fuel uri_pin has_cb s slot w =
      let (ret, s1, w1) = session_check h s.flags s w in
      let reopened =
        token_session_open h fuel slot.id cfg.no_session_callbacks deflt_session_flags s1 w1 in
      let log_in = λ (t : Session) (v : W).
        if is_login_state t.state
        then (Rv.ok, t, slot, v)
        else token_login uri_pin has_cb cku_user t slot v in
      if ret == Rv.ok || ret == Rv.session_closed
      then (if s1.handle == invalid_handle
          then elim reopened [
            | none ↦ none
            | some (rv, s2, w2) ↦ some (if rv == Rv.ok then log_in s2 w2 else (rv, s2, slot, w2))
          ]
          else some (log_in s1 w1))
      else some (ret, s1, slot, w1)

  -- With the fetched session, or the error.
  pub after_fetch :
      ℕ
      → Option (List ℕ)
      → Bool
      → Bool
      → Slot
      → ℕ × Option ℕ × Pool × W
      → Option (ℕ × Option ℕ × Slot × W)
  unfolding login_session settle_login
  after_fetch fuel uri_pin has_cb keep slot (ret, none, p, w) =
      some (ret, none, record slot { pool = p }, w)
  after_fetch fuel uri_pin has_cb keep slot (ret, some i, p, w) = elim (get_elem? p.sessions i) [
    | none ↦ some (ret, none, record slot { pool = p }, w)
    | some s ↦ elim (login_session fuel uri_pin has_cb s (record slot { pool = p }) w) [
      | none ↦ none
      | some r ↦ some (settle_login keep i r)
    ]
  ]

  -- The return value, the session if it is kept, the slot and the world.
  pub slot_login :
      ℕ → Option (List ℕ) → Bool → Bool → Bool → Slot → W → Option (ℕ × Option ℕ × Slot × W)
  unfolding fetch_again after_fetch
  slot_login fuel uri_pin has_cb reqlogin keep slot w =
      let (ret, r, p, w1) = fetch_session h slot.pool deflt_session_flags true w in
      let again = fetch_again fuel 0 p w1 in
      let done = after_fetch fuel uri_pin has_cb keep slot in
      if ret == Rv.ok
      then done (ret, r, p, w1)
      else (if ret == Rv.user_already_logged_in && not keep
          then some (Rv.ok, none, record slot { pool = p }, w1)
          else (if reqlogin
              then elim again [
                | none ↦ none
                | some (ret', r', p', w') ↦
                    (if ret' == Rv.ok
                      then done (ret', r', p', w')
                      else some (ret', none, record slot { pool = p' }, w'))
              ]
              else some (ret, none, record slot { pool = p }, w1)))
