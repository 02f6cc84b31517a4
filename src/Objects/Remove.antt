-- ===== src/Objects/Remove.antt =====
-- What `obj_rm_from_pool` promises.
use pkcs11_provider.Base.{
  ℕ, ◌-◌, ◌<◌, ◌≡◌, refl, ap, ◌∙◌, ◌≢◌, inl, inr, Bool, false, not, ◌&&◌, none, some, arith, ltb,
  ◌==◌, if◌then◌else◌, Bool-cases, length, get_elem?, set, length-set, get_elem?-set_self,
  get_elem?-set_ne, lt-get_elem?, count_if-set,
}
use native.Mathlib.Decide.{ℕ_discrete}
use pkcs11_provider.Objects.Add.{obj_add_to_pool-Added}
use pkcs11_provider.Codes.Rv
use pkcs11_provider.Objects.Valid.{
  IsValid, is_used, member, member-set-none, member-index, indexed-ne,
}
use pkcs11_provider.Objects.{
  ObjPool, Heap, store, is_empty_at, obj_rm_from_pool, obj_add_to_pool, remove_at,
}

-- The removal of an object that stands at its index.
module _ (p idx : ℕ) (pool : ObjPool) (h : Heap) (v : IsValid pool h)
    (here : get_elem? pool.objects idx ≡ some (some p)) where
  removed : ObjPool
  removed = record pool {
    objects = set pool.objects idx none;
    num = pool.num - 1;
    first_free = if ltb idx pool.first_free then idx else pool.first_free;
  }

  removed_heap : Heap
  removed_heap = store h p (record (h p) { poolid = none })

  in_array : idx < length pool.objects
  in_array = lt-get_elem? pool.objects idx (some p) here

  -- What the shorter array still holds is another object at another index.
  kept :
      (i q : ℕ)
      → get_elem? (set pool.objects idx none) i ≡ some (some q)
      → (get_elem? pool.objects i ≡ some (some q)) × (q ≢ p)
  kept i q e = elim (ℕ_discrete idx i) [
    | yes same ↦ cc (get_elem?-set_self pool.objects idx none in_array, rw (← same) at e)
    | no other ↦
        let old = rw (get_elem?-set_ne pool.objects idx i none other) at e in
        (
          old,
          λ twin. other (
              ground (arith, v.indexed i q old, v.indexed idx p here, ap (λ r. (h r).poolid) twin)),
        )
  ]

  removed_indexed :
      (i q : ℕ)
      → get_elem? (set pool.objects idx none) i ≡ some (some q)
      → (removed_heap q).poolid ≡ some i
  unfolding removed_heap
  removed_indexed i q e = let (old, ne) = kept i q e in ground (arith, v.indexed i q old)

  removed_filled :
      (i : ℕ)
      → i < (if ltb idx pool.first_free then idx else pool.first_free)
      → is_empty_at (set pool.objects idx none) i ≡ false
  removed_filled i l =
      rw (get_elem?-set_ne pool.objects idx i none (ground arith), is_empty_at)
        (v.filled i (ground arith))

  removed-IsValid : IsValid removed removed_heap
  unfolding removed removed_heap
  removed-IsValid = record {
    sized = omega (arith, length-set pool.objects idx none, v.sized);
    bounded = v.bounded;
    aligned = v.aligned;
    counted = omega (arith, count_if-set is_used pool.objects idx (some p) none here, v.counted);
    indexed = removed_indexed;
    in_range = ground (arith, v.in_range);
    filled = removed_filled;
  }

  removed-member : (q : ℕ) → member removed.objects q ≡ (not (p == q) && member pool.objects q)
  unfolding removed
  removed-member q = elim (Bool-cases (p == q)) [
    | inr other ↦ rw other (member-set-none pool.objects idx p q here (ground arith))
    | inl same ↦ rw same (elim (Bool-cases (member (set pool.objects idx none) q)) [
      | inr gone ↦ gone
      | inl stays ↦
          let (i, e) = member-index (set pool.objects idx none) q stays in
          absurd ((kept i q e).1 (ground arith))
    ])
  ]

  remove_at-removed : remove_at idx p pool h ≡ (removed, removed_heap)
  unfolding remove_at removed removed_heap
  remove_at-removed = ground (arith, here, in_array, v.sized)

-- The outcome of a removal: the pool is consistent, and has lost exactly that object.
pub record Removed (p : ℕ) (pool : ObjPool) (r : ObjPool × Heap) : Type 0 where
  pub valid : IsValid r.0 r.1
  pub members : (q : ℕ) → member r.0.objects q ≡ (not (p == q) && member pool.objects q)
  pub forgotten : (r.1 p).poolid ≡ none

-- Removing an object of a consistent pool, whose slot and mutex can be had, takes it out and
-- nothing else, keeps the pool consistent, and forgets the object's index.
pub obj_rm_from_pool-Removed :
    (p idx : ℕ) (pool : ObjPool) (h : Heap)
    → IsValid pool h
    → get_elem? pool.objects idx ≡ some (some p)
    → Removed p pool (obj_rm_from_pool Rv.ok 0 p pool h)
unfolding obj_rm_from_pool
obj_rm_from_pool-Removed p idx pool h v here =
    rw (v.indexed idx p here, obj_rm_from_pool, remove_at-removed p idx pool h v here)
      (record {
        valid = removed-IsValid p idx pool h v here;
        members = removed-member p idx pool h v here;
        forgotten = unfold removed_heap in ground arith;
      })

new-not_member :
    (p : ℕ) (pool : ObjPool) (h : Heap)
    → IsValid pool h
    → (h p).poolid ≡ none
    → member pool.objects p ≡ false
new-not_member p pool h v new = elim (Bool-cases (member pool.objects p)) [
  | inr out ↦ out
  | inl inside ↦
      let (i, e) = member-index pool.objects p inside in absurd (indexed-ne p p i v new e refl)
]

rm_absent :
    (p : ℕ) (pool : ObjPool) (h : Heap)
    → (h p).poolid ≡ none
    → obj_rm_from_pool Rv.ok 0 p pool h ≡ (pool, h)
unfolding obj_rm_from_pool
rm_absent p pool h e = rw (e, obj_rm_from_pool)

-- Adding an object that no pool has to a consistent pool, with the slot and the mutex, and removing
-- it again leaves the members as they were, whether or not the array had room for it.
pub rm_of_add :
    (p : ℕ) (pool : ObjPool) (h : Heap) (room : Bool)
    → IsValid pool h
    → (h p).poolid ≡ none
    → let (rv, pool', h') = obj_add_to_pool Rv.ok 0 room p pool h in
      (q : ℕ) → member (obj_rm_from_pool Rv.ok 0 p pool' h').0.objects q ≡ member pool.objects q
rm_of_add p pool h room v new q =
    let added = obj_add_to_pool-Added p pool h v new Rv.ok 0 room in
    let (rv, pool', h') = obj_add_to_pool Rv.ok 0 room p pool h in
    elim added.members [
      | inl (done, members) ↦
          let (i, e) = member-index pool'.objects p (members p ∙ ground arith) in
          let gone = obj_rm_from_pool-Removed p i pool' h' added.valid e in
          ground (arith, gone.members q, members q, new-not_member p pool h v new)
      | inr (failed, members, same) ↦
          rw (rm_absent p pool' h' (ap (λ (k : Heap). (k p).poolid) same ∙ new)) (members q)
    ]
