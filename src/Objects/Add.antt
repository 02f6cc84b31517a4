-- ===== src/Objects/Add.antt =====
-- What `obj_add_to_pool` promises.
mod Search
mod Growth
use pkcs11_provider.Base.{
  ℕ, ◌+◌, ◌≤◌, ◌<◌, ◌≡◌, refl, ap, ◌∙◌, ◌≢◌, ◌⊎◌, inl, inr, Bool, true, false, ◌||◌, none, some,
  arith, leb, ◌==◌, Bool-cases, Option-cases, get_elem?, set, length-set, get_elem?-set_self,
  get_elem?-set_ne, lt-get_elem?, count_if-set,
}
use native.Mathlib.Decide.{ℕ_discrete, dec_lt}
use pkcs11_provider.Objects.Add.Growth.{grow_pool-IsValid, grow_pool-member, grow_pool-ne-none}
use pkcs11_provider.Objects.Add.Search.{place-Finds}
use pkcs11_provider.Codes.Rv
use pkcs11_provider.Objects.Valid.{
  IsValid, lt-is_empty_at, indexed-ne, is_empty_at_iff, is_used, member, member-set_empty,
}
use pkcs11_provider.Objects.{
  ObjPool, Heap, wrap_first_free, is_empty_at, store, place, grow_pool, obj_add_to_pool,
  pool_max_size,
}

wrap_first_free-IsValid :
    {pool : ObjPool} {h : Heap} → IsValid pool h → IsValid (wrap_first_free pool) h
wrap_first_free-IsValid {pool} v = elim (Bool-cases (leb pool.size pool.first_free)) [
  | inl past ↦ rw past (record {
    sized = v.sized;
    bounded = v.bounded;
    aligned = v.aligned;
    counted = v.counted;
    indexed = v.indexed;
    in_range = omega arith;
    filled = λ i l. elim l [ ];
  })
  | inr within ↦ rw within v
]

wrapped-objects : (pool : ObjPool) → (wrap_first_free pool).objects ≡ pool.objects
wrapped-objects pool = ground arith

wrapped-room :
    (pool : ObjPool)
    → pool.num < pool.size
    → (wrap_first_free pool).num < (wrap_first_free pool).size
wrapped-room pool l = ground arith

-- What a pool with room does with a new object: it puts it into an empty slot.
record Placed (p : ℕ) (pool : ObjPool) (h : Heap) (r : ℕ × ObjPool × Heap) : Type 0 where
  idx : ℕ
  ret : r.0 ≡ Rv.ok
  empty : get_elem? pool.objects idx ≡ some none
  objects : r.1.objects ≡ set pool.objects idx (some p)
  heap : r.2 ≡ store h p (record (h p) { poolid = some idx })
  valid : IsValid r.1 r.2

module _ (p : ℕ) (pool : ObjPool) (h : Heap) (v : IsValid pool h) (new : (h p).poolid ≡ none) where
  module _ (idx : ℕ) (emp : is_empty_at pool.objects idx ≡ true) where
    placed_indexed :
        (j q : ℕ)
        → get_elem? (set pool.objects idx (some p)) j ≡ some (some q)
        → (store h p (record (h p) { poolid = some idx }) q).poolid ≡ some j
    placed_indexed j q e = elim (ℕ_discrete idx j) [
      | yes same ↦ ground (
        arith,
        get_elem?-set_self pool.objects idx (some p) (lt-is_empty_at pool.objects idx emp),
        rw (← same) at e,
      )
      | no other ↦
          let old = rw (get_elem?-set_ne pool.objects idx j (some p) other) at e in
          ground (arith, v.indexed j q old, indexed-ne p q j v new old)
    ]

    placed_filled :
        ((k : ℕ) → pool.first_free ≤ k → k < idx → is_empty_at pool.objects k ≡ false)
        → (k : ℕ) → k < idx + 1
        → is_empty_at (set pool.objects idx (some p)) k ≡ false
    placed_filled first k l = elim (ℕ_discrete idx k) [
      | yes same ↦ rw (
        ← same,
        get_elem?-set_self pool.objects idx (some p) (lt-is_empty_at pool.objects idx emp),
        is_empty_at,
      )
      | no other ↦
          rw (get_elem?-set_ne pool.objects idx k (some p) other, is_empty_at)
            (elim (dec_lt k pool.first_free) [
              | yes low ↦ v.filled k low
              | no high ↦ first k (omega arith) (omega arith)
            ])
    ]

  place-Placed : pool.num < pool.size → Placed p pool h (place p pool h)
  unfolding place
  place-Placed room =
      let f = place-Finds pool h v room in
      let slot = is_empty_at_iff pool.objects f.idx f.empty in
      rw (f.found, place)
        (record {
          idx = f.idx;
          ret = refl;
          empty = slot;
          objects = refl;
          heap = refl;
          valid = record {
            sized = omega (arith, length-set pool.objects f.idx (some p), v.sized);
            bounded = v.bounded;
            aligned = v.aligned;
            counted =
                omega
                  (arith, count_if-set is_used pool.objects f.idx none (some p) slot, v.counted);
            indexed = placed_indexed f.idx f.empty;
            in_range = omega (arith, lt-get_elem? pool.objects f.idx none slot, v.sized);
            filled = placed_filled f.idx f.empty f.first;
          };
        })

-- The outcome as a client sees it: a consistent pool, with the new member if the call succeeded and
-- with the old members and objects if it failed.
pub record Added (p : ℕ) (pool : ObjPool) (h : Heap) (r : ℕ × ObjPool × Heap) : Type 0 where
  pub valid : IsValid r.1 r.2
  pub members :
      ((r.0 ≡ Rv.ok) × ((q : ℕ) → member r.1.objects q ≡ (p == q || member pool.objects q)))
      ⊎ ((r.0 ≢ Rv.ok) × ((q : ℕ) → member r.1.objects q ≡ member pool.objects q) × (r.2 ≡ h))

unchanged-Added :
    (p : ℕ) (pool : ObjPool) (h : Heap) (rv : ℕ)
    → IsValid pool h
    → rv ≢ Rv.ok
    → Added p pool h (rv, pool, h)
unchanged-Added p pool h rv v bad = record { valid = v; members = inr (bad, λ q. refl, refl) }

module _ (p : ℕ) (pool : ObjPool) (h : Heap) (v : IsValid pool h) (new : (h p).poolid ≡ none) where
  grown-Added :
      (room : Bool) (grown : ObjPool)
      → grow_pool room pool ≡ some grown
      → Added p pool h (place p (wrap_first_free grown) h)
        × ((place p (wrap_first_free grown) h).0 ≡ Rv.ok)
  grown-Added room grown e =
      let (vg, space) = grow_pool-IsValid pool h v room e in
      let put =
        place-Placed p (wrap_first_free grown) h (wrap_first_free-IsValid vg) new
          (wrapped-room grown space) in
      let members = λ (q : ℕ).
        ap (λ os. member os q) put.objects
        ∙ member-set_empty (wrap_first_free grown).objects put.idx p q put.empty
        ∙ ap (λ os. p == q || member os q) (wrapped-objects grown)
        ∙ ap (λ b. p == q || b) (grow_pool-member room pool q e) in
      (record { valid = put.valid; members = inl (put.ret, members) }, put.ret)

  -- On every branch of `obj_add_to_pool`, for a consistent pool and an object that no pool has, the
  -- pool stays consistent, and its members are the old ones with the new object if the call
  -- succeeds, and the old ones, with no object changed, if it fails.
  pub obj_add_to_pool-Added :
      (looked err : ℕ) (room : Bool) → Added p pool h (obj_add_to_pool looked err room p pool h)
  unfolding obj_add_to_pool
  obj_add_to_pool-Added looked err room = elim (Bool-cases (looked == Rv.ok)) [
    | inr missing ↦ rw missing (unchanged-Added p pool h looked v (ground arith))
    | inl there ↦ rw there (elim (Bool-cases (err == 0)) [
      | inr unlocked ↦ rw unlocked (unchanged-Added p pool h Rv.cant_lock v (ground arith))
      | inl locked ↦ rw locked (elim (Option-cases (grow_pool room pool)) [
        | inl full ↦
            rw (full, obj_add_to_pool) (unchanged-Added p pool h Rv.host_memory v (ground arith))
        | inr (grown, e) ↦ rw (e, obj_add_to_pool) (grown-Added room grown e).0
      ])
    ])
  ]

  -- If the pool is consistent, the object is in no pool, the slot has its pool, the mutex can be
  -- had, and the array has an empty slot or may grow and there is memory, then `obj_add_to_pool`
  -- succeeds: "inconsistent state" is never reported.
  pub obj_add_to_pool-succeeds :
      (room : Bool)
      → (pool.num < pool.size) ⊎ ((pool.size < pool_max_size) × (room ≡ true))
      → (obj_add_to_pool Rv.ok 0 room p pool h).0 ≡ Rv.ok
  unfolding obj_add_to_pool
  obj_add_to_pool-succeeds room space = elim (Option-cases (grow_pool room pool)) [
    | inl full ↦ absurd (grow_pool-ne-none room pool space full)
    | inr (grown, e) ↦ rw (e, obj_add_to_pool) (grown-Added room grown e).1
  ]
