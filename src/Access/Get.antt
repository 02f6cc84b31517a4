-- ===== src/Access/Get.antt =====
-- `check_slot` and `p11prov_get_session` of src/session.c.
-- `rdlock` is the result of the read lock on the slots.
pub mod Handles
use pkcs11_provider.Base.{
  ℕ, zero, suc, ◌+◌, Bool, true, false, not, ◌&&◌, ◌||◌, Option, none, some, List, ◌==◌,
  if◌then◌else◌, has_flag, length, get_elem?, set,
}
use pkcs11_provider.Session.Release.{return_session}
use pkcs11_provider.Session.Fetch.{fetch_session}
use pkcs11_provider.Session.Handle.{session_check, token_session_open}
use pkcs11_provider.Codes.{unavailable, invalid_handle}
use pkcs11_provider.Access.Login.{slot_login}
use pkcs11_provider.Codes.Flag
use pkcs11_provider.Codes.Rv
use pkcs11_provider.Uri.Parse.{TokenTexts, uri_match_token}
use pkcs11_provider.Session.{Host, Pool, Session}
use pkcs11_provider.Access.{Config, Request, login_always, Desk}
use pkcs11_provider.Slot.{Slot, take_slots, check_mechanism, slot_index}

abbrev texts : Slot → TokenTexts
texts s = record {
  t_slot_description = s.slot_description;
  t_slot_manufacturer = s.slot_manufacturer;
  t_label = s.label;
  t_manufacturer = s.manufacturer;
  t_model = s.model;
  t_serial = s.serial;
}

-- `check_slot`, with all slots for the check of the mechanism.
pub check_slot : ℕ → List Slot → Slot → Request → ℕ
check_slot rdlock slots s q =
    let by_uri : ℕ = elim q.uri [ none ↦ Rv.ok | some u ↦ uri_match_token u s.id (texts s) ] in
    let by_mechanism =
      if q.mechtype == unavailable then Rv.ok else check_mechanism rdlock slots s.id q.mechtype in
    if not (has_flag s.slot_flags Flag.token_present)
      || not (has_flag s.token_flags Flag.token_initialized)
    then Rv.token_not_present
    else (if q.rw_session && has_flag s.token_flags Flag.write_protected
        then Rv.token_write_protected
        else (if by_uri == Rv.ok then by_mechanism else by_uri))

-- `check_skip_login`.
check_skip_login : Config → Slot → Bool
check_skip_login cfg s =
    not (cfg.login_behavior == login_always) && not (has_flag s.token_flags Flag.login_required)

-- Whether a login comes before the session.
pub needs_login : Config → Request → Slot → Bool
unfolding check_skip_login
needs_login cfg q s =
    (q.reqlogin && not (check_skip_login cfg s)) || cfg.login_behavior == login_always

-- The flags of the session that is asked for.
pub session_flags : Bool → ℕ
session_flags rw = if rw then 6 else 4

uri_pin_of : Request → Option (List ℕ)
uri_pin_of q = elim q.uri [ none ↦ none | some u ↦ u.pin ]

-- What a caller gets: the return value, `*slotid`, `*next_slotid`, the slot's index and the session's
-- index in its pool, the slots and the world.
pub record Got (W : Type 0) : Type 0 where
  pub ret : ℕ
  pub slotid : ℕ
  pub next_slotid : ℕ
  pub session : Option (ℕ × ℕ)
  pub slots : List Slot
  pub world : W

pub refused_with : {W : Type 0} → ℕ → ℕ → List Slot → W → Got W
refused_with ret slotid slots w = record {
  ret = ret;
  slotid = slotid;
  next_slotid = unavailable;
  session = none;
  slots = slots;
  world = w;
}

module _ {W : Type 0} (h : Host W) (d : Desk W) (cfg : Config) (fuel : ℕ) (rdlock : ℕ) where
  -- The checks on one slot and the login there, if there is to be one: the return value and the slot.
  pub enter_slot : Request → List Slot → Slot → W → Option (ℕ × Slot × W)
  unfolding uri_pin_of
  enter_slot q slots s w =
      let rv = check_slot rdlock slots s q in
      let entered = slot_login h d cfg fuel (uri_pin_of q) q.has_cb q.reqlogin false s w in
      if rv == Rv.ok
      then (if needs_login cfg q s
          then elim entered [ none ↦ none | some (ret, r, s', w') ↦ some (ret, s', w') ]
          else some (Rv.ok, s, w))
      else some (rv, s, w)

  -- The loop over the slots, from an index on with the rounds left: slots before the one with the
  -- identifier `id` are passed over, and then the first that can be entered is taken.
  pub cycle : ℕ → Request → ℕ → ℕ → ℕ → List Slot → W → Option (ℕ × Option ℕ × List Slot × W)
  cycle zero q id i ret slots w = some (ret, none, slots, w)
  cycle (suc rounds) q id i ret slots w = elim (get_elem? slots i) [
    | none ↦ some (ret, none, slots, w)
    | some s ↦ elim (id == unavailable || id == s.id) [
      | false ↦ cycle rounds q id (i + 1) ret slots w
      | true ↦ elim (enter_slot q slots s w) [
        | none ↦ none
        | some (rv, s', w') ↦ elim (rv == Rv.ok) [
          | true ↦ some (rv, some i, set slots i s', w')
          | false ↦ cycle rounds q unavailable (i + 1) rv (set slots i s') w'
        ]
      ]
    ]
  ]

  -- The end of `p11prov_get_session`: the session of the pool, checked and opened.
  ready : ℕ → ℕ → Pool → ℕ × Option ℕ × Pool × W → Option (ℕ × Option ℕ × Pool × W)
  ready slot flags p (ret, none, p', w) = some (ret, none, p', w)
  ready slot flags p (ret, some i, p', w) = elim (get_elem? p'.sessions i) [
    | none ↦ some (ret, none, p', w)
    | some s ↦
        let (rv, s1, w1) = session_check h flags s w in
        let reopened = token_session_open h fuel slot cfg.no_session_callbacks flags s1 w1 in
        let put = λ (t : Session). record p' { sessions = set p'.sessions i t } in
        let fail : ℕ → Session → W → Option (ℕ × Option ℕ × Pool × W) = λ rv' t v.
          let back = return_session h (put t) (some i) v in some (rv', none, back.0, back.1) in
        if rv == Rv.ok || rv == Rv.session_closed
        then (if s1.handle == invalid_handle
            then elim reopened [
              | none ↦ none
              | some (rv', s2, w2) ↦
                  (if rv' == Rv.ok then some (rv', some i, put s2, w2) else fail rv' s2 w2)
            ]
            else some (Rv.ok, some i, put s1, w1))
        else fail rv s1 w1
  ]

  pub pool_session : Request → Slot → W → Option (ℕ × Option ℕ × Slot × W)
  unfolding ready
  pool_session q s w =
      let flags = session_flags q.rw_session in
      elim (ready s.id flags s.pool (fetch_session h s.pool flags false w)) [
        | none ↦ none
        | some (ret, r, p, w') ↦ some (ret, r, record s { pool = p }, w')
      ]

  -- With the slot that was entered, at an index.
  in_slot : Request → ℕ → ℕ → ℕ → List Slot → W → Option (Got W)
  unfolding refused_with
  in_slot q slotid next i slots w = elim (get_elem? slots i) [
    | none ↦ some (refused_with Rv.slot_id_invalid slotid slots w)
    | some s ↦ elim (pool_session q s w) [
      | none ↦ none
      | some (ret, r, s', w') ↦ some (record {
        ret = ret;
        slotid = slotid;
        next_slotid = next;
        session = elim r [ none ↦ none | some k ↦ some (i, k) ];
        slots = set slots i s';
        world = w';
      })
    ]
  ]

  id_at : List Slot → ℕ → ℕ
  id_at slots i = elim (get_elem? slots i) [ none ↦ unavailable | some s ↦ s.id ]

  -- A request for a slot, or, with `iterate`, for the next one that can be entered. `iterate` says that
  -- `next_slotid` is not null; where it is null the field of that name is of no use.
  pub get_session : Request → ℕ → Bool → List Slot → W → Option (Got W)
  unfolding in_slot id_at refused_with
  get_session q id iterate slots w =
      if not (take_slots rdlock == Rv.ok)
      then some (refused_with (take_slots rdlock) id slots w)
      else (if not (id == unavailable) && not iterate
          then elim (slot_index 0 slots id) [
            | none ↦ some (refused_with Rv.slot_id_invalid id slots w)
            | some i ↦ elim (get_elem? slots i) [
              | none ↦ some (refused_with Rv.slot_id_invalid id slots w)
              | some s ↦ elim (enter_slot q slots s w) [
                | none ↦ none
                | some (rv, s', w') ↦
                    let inside = in_slot q id unavailable i (set slots i s') w' in
                    if rv == Rv.ok then inside else some (refused_with rv id (set slots i s') w')
              ]
            ]
          ]
          else elim (cycle (length slots) q id 0 Rv.cancel slots w) [
            | none ↦ none
            | some (rv, r, slots', w') ↦ elim r [
              | none ↦ some (refused_with rv id slots' w')
              | some i ↦ in_slot q (id_at slots' i) (id_at slots' (i + 1)) i slots' w'
            ]
          ])
