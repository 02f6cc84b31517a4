-- ===== src/Objects/Valid.antt =====
-- When a pool of src/obj/pool.c is consistent with the objects that it holds.
use pkcs11_provider.Base.{
  ℕ, zero, suc, ◌%◌, ◌≤◌, ◌<◌, ◌≡◌, refl, ap, ◌≢◌, inl, inr, Bool, true, false, ◌||◌, Option, none,
  some, List, [], ◌∷◌, ◌++◌, arith, ◌==◌, Bool-cases, length, get_elem?, set, replicate, count_if,
  lt-get_elem?,
}
use pkcs11_provider.Objects.{
  ObjPool, Heap, pool_max_size, is_empty_at, obj_pool_init, pool_alloc_size,
}

abbrev pub is_used : Option ℕ → Bool
is_used none = false
is_used (some p) = true

-- The array has the size noted, a multiple of the allocation unit and no more than the maximum, `num` counts its objects, each object
-- knows its index, and no slot below `first_free`, which is in the array or at its end, is empty.
pub record IsValid (pool : ObjPool) (h : Heap) : Type 0 where
  pub sized : length pool.objects ≡ pool.size
  pub bounded : pool.size ≤ pool_max_size
  pub aligned : pool.size % pool_alloc_size ≡ 0
  pub counted : pool.num ≡ count_if is_used pool.objects
  pub indexed : (i p : ℕ) → get_elem? pool.objects i ≡ some (some p) → (h p).poolid ≡ some i
  pub in_range : pool.first_free ≤ pool.size
  pub filled : (i : ℕ) → i < pool.first_free → is_empty_at pool.objects i ≡ false

pub is_empty_at_iff :
    (os : List (Option ℕ)) (i : ℕ) → is_empty_at os i ≡ true → get_elem? os i ≡ some none
is_empty_at_iff [] i e = cc
is_empty_at_iff (none ∷ os) zero e = refl
is_empty_at_iff (some p ∷ os) zero e = cc
is_empty_at_iff (o ∷ os) (suc i) e = is_empty_at_iff os i e

pub is_empty_at_of_get :
    (os : List (Option ℕ)) (i : ℕ) → get_elem? os i ≡ some none → is_empty_at os i ≡ true
is_empty_at_of_get [] i e = cc
is_empty_at_of_get (none ∷ os) zero e = refl
is_empty_at_of_get (some p ∷ os) zero e = cc
is_empty_at_of_get (o ∷ os) (suc i) e = is_empty_at_of_get os i e

pub lt-is_empty_at : (os : List (Option ℕ)) (i : ℕ) → is_empty_at os i ≡ true → i < length os
lt-is_empty_at os i e = lt-get_elem? os i none (is_empty_at_iff os i e)

-- An array with fewer objects than slots has an empty slot.
pub has_empty :
    (os : List (Option ℕ)) → count_if is_used os < length os → (j : ℕ) × (is_empty_at os j ≡ true)
has_empty [] h = absurd (omega arith)
has_empty (none ∷ os) h = (0, refl)
has_empty (some p ∷ os) h = let (j, e) = has_empty os (omega arith) in (suc j, e)

pub obj_pool_init-IsValid : (h : Heap) → IsValid obj_pool_init h
unfolding obj_pool_init
obj_pool_init-IsValid h = record {
  sized = refl;
  bounded = omega arith;
  aligned = refl;
  counted = refl;
  indexed = λ i p e. cc;
  in_range = omega arith;
  filled = λ i l. elim l [ ];
}

-- A new object has its own pointer.
pub indexed-ne :
    {pool : ObjPool} {h : Heap} (p q i : ℕ)
    → IsValid pool h
    → (h p).poolid ≡ none
    → get_elem? pool.objects i ≡ some (some q)
    → q ≢ p
indexed-ne {pool} {h} p q i v new e same = cc (v.indexed i q e, ap (λ r. (h r).poolid) same)

-- Whether an object is in the array: the pool as a set of pointers.
abbrev pub member : List (Option ℕ) → ℕ → Bool
member [] q = false
member (none ∷ os) q = member os q
member (some p ∷ os) q = p == q || member os q

pub member-set_empty :
    (os : List (Option ℕ)) (i p q : ℕ)
    → get_elem? os i ≡ some none
    → member (set os i (some p)) q ≡ (p == q || member os q)
member-set_empty [] i p q e = cc
member-set_empty (none ∷ os) zero p q e = refl
member-set_empty (some r ∷ os) zero p q e = cc
member-set_empty (none ∷ os) (suc i) p q e = member-set_empty os i p q e
member-set_empty (some r ∷ os) (suc i) p q e = ground (arith, member-set_empty os i p q e)

pub member-append_empty :
    (os : List (Option ℕ)) (n q : ℕ) → member (os ++ replicate n none) q ≡ member os q
member-append_empty [] zero q = refl
member-append_empty [] (suc n) q = member-append_empty [] n q
member-append_empty (none ∷ os) n q = member-append_empty os n q
member-append_empty (some p ∷ os) n q = ground (arith, member-append_empty os n q)

-- A member stands at an index.
pub member-index :
    (os : List (Option ℕ)) (q : ℕ) → member os q ≡ true → (i : ℕ) × (get_elem? os i ≡ some (some q))
member-index [] q e = cc
member-index (none ∷ os) q e = let (i, g) = member-index os q e in (suc i, g)
member-index (some p ∷ os) q e = elim (Bool-cases (p == q)) [
  | inl same ↦ (0, ground arith)
  | inr other ↦ let (i, g) = member-index os q (ground arith) in (suc i, g)
]

pub member_of_index :
    (os : List (Option ℕ)) (i q : ℕ) → get_elem? os i ≡ some (some q) → member os q ≡ true
member_of_index [] i q e = cc
member_of_index (none ∷ os) zero q e = cc
member_of_index (some p ∷ os) zero q e = ground arith
member_of_index (none ∷ os) (suc i) q e = member_of_index os i q e
member_of_index (some p ∷ os) (suc i) q e = ground (arith, member_of_index os i q e)

pub member-set-none :
    (os : List (Option ℕ)) (i p q : ℕ)
    → get_elem? os i ≡ some (some p)
    → p ≢ q
    → member (set os i none) q ≡ member os q
member-set-none [] i p q e ne = cc
member-set-none (none ∷ os) zero p q e ne = cc
member-set-none (some r ∷ os) zero p q e ne = ground arith
member-set-none (none ∷ os) (suc i) p q e ne = member-set-none os i p q e ne
member-set-none (some r ∷ os) (suc i) p q e ne = ground (arith, member-set-none os i p q e ne)
