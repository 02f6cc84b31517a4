-- ===== src/Slot.antt =====
-- src/slot.c: the slots that the provider found, with their pools, and the lookups over them.
-- `rdlock` is what `pthread_rwlock_rdlock` returned.
pub mod Lookups
pub mod Init
pub mod Samples
mod Tests
use pkcs11_provider.Base.{
  ℕ, suc, ◌+◌, Bool, false, not, ◌&&◌, ◌||◌, Option, none, some, List, [], ◌∷◌, ◌++◌, ltb, ◌==◌,
  if◌then◌else◌, has_flag, length, get_elem?,
}
use pkcs11_provider.Objects.{ObjPool}
use pkcs11_provider.Codes.{unavailable}
use pkcs11_provider.Codes.Rv
use pkcs11_provider.Codes.Flag
use pkcs11_provider.Session.{Pool}

-- A slot that was kept has a session pool; `objects` may be a null pointer. The profiles and the texts are of no concern here,
-- but those that a URI is matched against.
pub record Slot : Type 0 where
  pub id : ℕ
  pub slot_flags : ℕ
  pub token_flags : ℕ
  pub slot_description : List ℕ
  pub slot_manufacturer : List ℕ
  pub label : List ℕ
  pub manufacturer : List ℕ
  pub model : List ℕ
  pub serial : List ℕ
  pub cached_pin : Option (List ℕ)
  pub bad_pin : Option (List ℕ)
  pub mechs : List ℕ
  pub pool : Pool
  pub objects : Option ObjPool

-- The slots; the first that takes a login is the default.
pub record Slots : Type 0 where
  pub slots : List Slot
  pub default_slot : ℕ

-- What makes a slot the default one.
pub is_login_slot : Slot → Bool
is_login_slot s =
    has_flag s.token_flags Flag.login_required
    && (has_flag s.token_flags Flag.token_initialized
        && not (has_flag s.token_flags Flag.user_pin_locked))

-- What `p11prov_init_slots` learns of a slot identifier: the return values of `C_GetSlotInfo` and
-- `C_GetTokenInfo`, and the slot as it is filled in if it is kept. What is made for a slot that is kept,
-- its login text, its session pool and its object pool, is taken to be made: where one of them fails, the
-- code leaves the loop with that error.
pub record Probe : Type 0 where
  pub slot_rv : ℕ
  pub token_rv : ℕ
  pub slot : Slot

-- The value of `ret` behind one round of the loop, and the slot that it keeps.
pub probed : Probe → ℕ × Option Slot
probed p =
    if p.slot_rv == Rv.ok && has_flag p.slot.slot_flags Flag.token_present
    then (if p.token_rv == Rv.ok then (Rv.ok, some p.slot) else (p.token_rv, none))
    else (p.slot_rv, none)

pub keep_slot : Slot → Slots → Slots
unfolding is_login_slot
keep_slot s sctx = record sctx {
  slots = sctx.slots ++ (s ∷ []);
  default_slot =
      if sctx.default_slot == unavailable && is_login_slot s then s.id else sctx.default_slot;
}

-- The loop of `p11prov_init_slots`, with `ret` and the slots so far.
pub init_loop : List Probe → ℕ × Slots → ℕ × Slots
unfolding probed keep_slot
init_loop [] st = st
init_loop (p ∷ ps) (ret, sctx) =
    init_loop ps ((probed p).0, elim (probed p).1 [ none ↦ sctx | some s ↦ keep_slot s sctx ])

-- The most slots that `p11prov_init_slots` takes.
abbrev pub slot_limit : ℕ
slot_limit = 0x10000

-- With what `C_GetSlotList` returned, whether there is memory for the two arrays, a lock that can be
-- made, and with memory and pools for all that is kept.
pub init_slots : ℕ → Bool → List Probe → ℕ × Option Slots
unfolding init_loop
init_slots list_rv room ps =
    let (ret, sctx) = init_loop ps (Rv.ok, record { slots = []; default_slot = unavailable }) in
    if list_rv == Rv.ok
    then (if ltb slot_limit (length ps)
        then (Rv.general_error, none)
        else (if room
            then (if ret == Rv.ok then (Rv.ok, some sctx) else (ret, none))
            else (Rv.host_memory, none)))
    else (list_rv, none)

-- `p11prov_take_slots`, of a provider that has slots: without any it answers `CKR_GENERAL_ERROR`.
abbrev pub take_slots : ℕ → ℕ
take_slots rdlock = if rdlock == 0 then Rv.ok else Rv.cant_lock

-- `p11prov_fetch_slot`: the slot at an index and the next index.
pub fetch_slot : List Slot → ℕ → Option (Slot × ℕ)
fetch_slot slots i = elim (get_elem? slots i) [ none ↦ none | some s ↦ some (s, i + 1) ]

-- The search of `p11prov_get_session` and `p11prov_take_login_session` for a slot by `fetch_slot`, from
-- an index on: the index of the first slot with an identifier.
pub slot_index : ℕ → List Slot → ℕ → Option ℕ
slot_index i [] id = none
slot_index i (s ∷ ss) id =
    let rest = slot_index (suc i) ss id in if s.id == id then some i else rest

-- `p11prov_get_slot_by_id`.
pub get_slot_by_id : List Slot → ℕ → Option Slot
get_slot_by_id [] id = none
get_slot_by_id (s ∷ ss) id = if s.id == id then some s else get_slot_by_id ss id

pub has_mechanism : List ℕ → ℕ → Bool
has_mechanism [] m = false
has_mechanism (x ∷ xs) m = x == m || has_mechanism xs m

-- The loop of `p11prov_check_mechanism`, with the return value so far.
pub check_loop : List Slot → ℕ → ℕ → ℕ → ℕ
unfolding has_mechanism
check_loop [] id m ret = ret
check_loop (s ∷ ss) id m ret =
    check_loop ss id m (if s.id == id && has_mechanism s.mechs m then Rv.ok else ret)

pub check_mechanism : ℕ → List Slot → ℕ → ℕ → ℕ
unfolding check_loop
check_mechanism rdlock slots id m =
    if take_slots rdlock == Rv.ok
    then check_loop slots id m Rv.mechanism_invalid
    else take_slots rdlock

-- `p11prov_slot_get_obj_pool`.
pub slot_get_obj_pool : ℕ → List Slot → ℕ → ℕ × Option ObjPool
unfolding get_slot_by_id
slot_get_obj_pool rdlock slots id =
    if take_slots rdlock == Rv.ok
    then elim (get_slot_by_id slots id) [
      | none ↦ (Rv.slot_id_invalid, none)
      | some s ↦ elim s.objects [ none ↦ (Rv.general_error, none) | some o ↦ (Rv.ok, some o) ]
    ]
    else (take_slots rdlock, none)

-- `p11prov_slot_find_obj_pool`, with a callback that may change a state.
pub find_obj_pool {ℓ} : {S : Type ℓ} → (S → ObjPool → Bool × S) → List Slot → S → S
find_obj_pool cb [] st = st
find_obj_pool cb (s ∷ ss) st = elim s.objects [
  | none ↦ find_obj_pool cb ss st
  | some o ↦
      let (found, st') = cb st o in
      let rest = find_obj_pool cb ss st' in if found then st' else rest
]

-- `p11prov_slot_set_bad_pin` and `p11prov_slot_set_cached_pin`, with whether there is memory.
unfoldable pub set_bad_pin : Bool → List ℕ → Slot → ℕ × Slot
set_bad_pin room pin s =
    if room
    then (Rv.ok, record s { bad_pin = some pin })
    else (Rv.host_memory, record s { bad_pin = none })

unfoldable pub set_cached_pin : Bool → List ℕ → Slot → ℕ × Slot
set_cached_pin room pin s =
    if room
    then (Rv.ok, record s { cached_pin = some pin })
    else (Rv.host_memory, record s { cached_pin = none })
