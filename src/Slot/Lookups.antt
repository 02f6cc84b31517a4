-- ===== src/Slot/Lookups.antt =====
-- The lookups of src/slot.c against what they are to find.
use pkcs11_provider.Base.{
  ℕ, zero, suc, ◌≡◌, refl, ap, ◌↔◌, ◌⊎◌, inl, inr, true, ◌&&◌, some, List, [], ◌∷◌, arith, ◌==◌,
  Bool-cases, get_elem?,
}
use pkcs11_provider.Codes.Rv
use pkcs11_provider.Slot.{Slot, check_loop, check_mechanism, has_mechanism}

-- Some slot with the identifier has the mechanism.
abbrev pub Offers : List Slot → ℕ → ℕ → Type 0
Offers slots id m =
    (i : ℕ) × (s : Slot) × (get_elem? slots i ≡ some s)
    × (s.id ≡ id)
    × (has_mechanism s.mechs m ≡ true)

Offers-cons : (s : Slot) (ss : List Slot) (id m : ℕ) → Offers ss id m → Offers (s ∷ ss) id m
Offers-cons s ss id m (i, t, at, same, has) = (suc i, t, at, same, has)

check_loop_sound :
    (slots : List Slot) (id m ret : ℕ)
    → check_loop slots id m ret ≡ Rv.ok
    → (ret ≡ Rv.ok) ⊎ Offers slots id m
unfolding check_loop
check_loop_sound [] id m ret e = inl e
check_loop_sound (s ∷ ss) id m ret e = elim (Bool-cases (s.id == id && has_mechanism s.mechs m)) [
  | inl here ↦ inr (0, s, refl, ground arith, ground arith)
  | inr not_here ↦ elim (check_loop_sound ss id m ret (ground (arith, not_here))) [
    | inl was ↦ inl was
    | inr o ↦ inr (Offers-cons s ss id m o)
  ]
]

check_loop-ok : (slots : List Slot) (id m : ℕ) → check_loop slots id m Rv.ok ≡ Rv.ok
unfolding check_loop
check_loop-ok [] id m = refl
check_loop-ok (s ∷ ss) id m = ground (arith, check_loop-ok ss id m)

some-eq : {s t : Slot} → some s ≡ some t → s ≡ t
some-eq e = ground arith

check_loop_complete :
    (slots : List Slot) (id m ret i : ℕ) (s : Slot)
    → get_elem? slots i ≡ some s
    → s.id ≡ id
    → has_mechanism s.mechs m ≡ true
    → check_loop slots id m ret ≡ Rv.ok
unfolding check_loop
check_loop_complete [] id m ret i s e same has = cc
check_loop_complete (t ∷ ss) id m ret zero s e same has = ground (
  arith,
  check_loop-ok ss id m,
  ap (λ (r : Slot). r.id) (some-eq e),
  ap (λ (r : Slot). has_mechanism r.mechs m) (some-eq e),
)
check_loop_complete (t ∷ ss) id m ret (suc i) s e same has =
    check_loop_complete ss id m _ i s e same has

-- With the read lock, `p11prov_check_mechanism` accepts exactly the mechanisms that a slot with the
-- identifier offers.
pub check_mechanism_iff :
    (slots : List Slot) (id m : ℕ) → (check_mechanism 0 slots id m ≡ Rv.ok) ↔ Offers slots id m
unfolding check_mechanism
check_mechanism_iff slots id m = (
  λ e. elim (check_loop_sound slots id m Rv.mechanism_invalid e) [
    | inl no_way ↦ absurd (omega (arith, no_way))
    | inr o ↦ o
  ],
  λ o. check_loop_complete slots id m Rv.mechanism_invalid o.0 o.1 o.2 o.3 o.4,
)
