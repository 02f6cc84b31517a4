-- ===== src/Slot/Init.antt =====
-- Which slots `p11prov_init_slots` keeps, which it makes the default, and when it fails.
use pkcs11_provider.Base.{
  ℕ, ◌≤◌, ◌≡◌, refl, ap, ◌∙◌, ◌≢◌, inl, inr, true, ◌&&◌, none, some, List, [], ◌∷◌, ◌++◌, arith,
  ◌==◌, if◌then◌else◌, Option-cases, length, All, All-append,
}
use pkcs11_provider.Codes.Rv
use pkcs11_provider.Codes.{unavailable}
use pkcs11_provider.Slot.{
  init_loop, init_slots, Slot, Probe, Slots, slot_limit, is_login_slot, probed, keep_slot,
}

init_loop-append :
    (ps qs : List Probe) (st : ℕ × Slots) → init_loop (ps ++ qs) st ≡ init_loop qs (init_loop ps st)
unfolding init_loop
init_loop-append [] qs st = refl
init_loop-append (p ∷ ps) qs (ret, sctx) = init_loop-append ps qs _

init_loop-ret : (p : Probe) (st : ℕ × Slots) → (init_loop (p ∷ []) st).0 ≡ (probed p).0
unfolding init_loop
init_loop-ret p (ret, sctx) = refl

probed-refused : (p : Probe) → p.slot_rv ≢ Rv.ok → (probed p).0 ≡ p.slot_rv
unfolding probed
probed-refused p bad = ground arith

-- A slot that cannot be asked is not skipped if it is the last of the list, within the limit on
-- their number, where there is memory and the pools of the slots in front of it are made: then no slots
-- are had at all, however good the others are.
pub init_slots-last_fails :
    (ps : List Probe) (p : Probe)
    → length (ps ++ (p ∷ [])) ≤ slot_limit
    → p.slot_rv ≢ Rv.ok
    → init_slots Rv.ok true (ps ++ (p ∷ [])) ≡ (p.slot_rv, none)
unfolding init_slots
init_slots-last_fails ps p few bad =
    let start : ℕ × Slots = (Rv.ok, record { slots = []; default_slot = unavailable }) in
    let last : (init_loop (ps ++ (p ∷ [])) start).0 ≡ p.slot_rv =
      ap (λ r. r.0) (init_loop-append ps (p ∷ []) start)
      ∙ init_loop-ret p (init_loop ps start)
      ∙ probed-refused p bad in
    ground (arith, last)

-- The identifier of the first slot that takes a login.
abbrev pub first_login : List Slot → ℕ
first_login [] = unavailable
first_login (s ∷ ss) = if is_login_slot s then s.id else first_login ss

first_login-append :
    (ss : List Slot) (s : Slot)
    → All (λ t. t.id ≢ unavailable) ss
    → first_login (ss ++ (s ∷ []))
      ≡ (if first_login ss == unavailable && is_login_slot s then s.id else first_login ss)
first_login-append [] s all = ground arith
first_login-append (t ∷ ss) s all = ground (arith, first_login-append ss s all.1)

-- The default slot is the first of the slots that takes a login, if one does.
DefaultFirst : Slots → Type 0
DefaultFirst sctx =
    (sctx.default_slot ≡ first_login sctx.slots) × All (λ t. t.id ≢ unavailable) sctx.slots

keep_slot-DefaultFirst :
    (s : Slot) (sctx : Slots)
    → s.id ≢ unavailable
    → DefaultFirst sctx
    → DefaultFirst (keep_slot s sctx)
unfolding keep_slot DefaultFirst
keep_slot-DefaultFirst s sctx real (first, all) = (
  ground (arith, first_login-append sctx.slots s all),
  All-append (λ t. t.id ≢ unavailable) sctx.slots s all real,
)

probed-slot : (p : Probe) (s : Slot) → (probed p).1 ≡ some s → s ≡ p.slot
unfolding probed
probed-slot p s e = ground arith

init_loop-DefaultFirst :
    (ps : List Probe) (ret : ℕ) (sctx : Slots)
    → All (λ p. p.slot.id ≢ unavailable) ps
    → DefaultFirst sctx
    → DefaultFirst (init_loop ps (ret, sctx)).1
unfolding init_loop
init_loop-DefaultFirst [] ret sctx real d = d
init_loop-DefaultFirst (p ∷ ps) ret sctx real d = elim (Option-cases (probed p).1) [
  | inl e ↦ rw (e, init_loop) (init_loop-DefaultFirst ps (probed p).0 sctx real.1 d)
  | inr (s, e) ↦
      let same : s.id ≡ p.slot.id = ap (λ (t : Slot). t.id) (probed-slot p s e) in
      rw (e, init_loop)
        (init_loop-DefaultFirst ps (probed p).0 (keep_slot s sctx) real.1
          (keep_slot-DefaultFirst s sctx (rw same real.0) d))
]

-- If no slot has `CK_UNAVAILABLE_INFORMATION` as its identifier and the start succeeds, the default
-- slot of `p11prov_init_slots` is the first of the slots that it keeps which requires a login, has
-- an initialised token and no locked pin; it is `CK_UNAVAILABLE_INFORMATION` if none does.
pub init_slots-first_login :
    (ps : List Probe) (sctx : Slots)
    → All (λ p. p.slot.id ≢ unavailable) ps
    → init_slots Rv.ok true ps ≡ (Rv.ok, some sctx)
    → sctx.default_slot ≡ first_login sctx.slots
unfolding init_slots DefaultFirst
init_slots-first_login ps sctx real e =
    let d =
      init_loop-DefaultFirst ps Rv.ok (record { slots = []; default_slot = unavailable }) real
        (refl, tt) in
    ground (arith, d.0)
