-- ===== src/Objects/Add/Growth.antt =====
-- The growth of the array in `obj_add_to_pool`.
use pkcs11_provider.Base.{
  ℕ, ◌+◌, ◌<◌, ◌≡◌, refl, subst, ◌≢◌, ◌⊎◌, inl, inr, Bool, true, false, Option, none, some, ◌++◌,
  arith, leb, Bool-cases, length, get_elem?, replicate, length-append, get_elem?-append_left,
  count_if-le-length, count_if-append, count_if-replicate, length-replicate, get_elem?-append_cases,
  get_elem?-replicate,
}
use pkcs11_provider.Objects.{ObjPool, Heap, is_empty_at, grow_pool, pool_alloc_size, pool_max_size}
use pkcs11_provider.Objects.Valid.{IsValid, is_used, member, member-append_empty}

module _ (pool : ObjPool) (h : Heap) (v : IsValid pool h) where
  -- The longer array keeps its objects, and its new slots are empty.
  grown_indexed :
      (i p : ℕ)
      → get_elem? (pool.objects ++ replicate pool_alloc_size none) i ≡ some (some p)
      → get_elem? pool.objects i ≡ some (some p)
  grown_indexed i p e = elim (get_elem?-append_cases pool.objects _ i (some p) e) [
    | inl old ↦ old
    | inr (j, new) ↦ cc (get_elem?-replicate pool_alloc_size none j (some p) new)
  ]

  grown_filled :
      (i : ℕ)
      → i < pool.first_free
      → is_empty_at (pool.objects ++ replicate pool_alloc_size none) i ≡ false
  grown_filled i l =
      rw
        (
          get_elem?-append_left pool.objects (replicate pool_alloc_size none) i in_array,
          is_empty_at,
        )
        (v.filled i l)
    where
      in_array : i < length pool.objects
      in_array = omega (arith, v.in_range, v.sized)

  -- Growing keeps the pool consistent.
  longer-IsValid :
      pool.size < pool_max_size
      → pool.num ≡ pool.size
      → IsValid
          (record pool {
            objects = pool.objects ++ replicate pool_alloc_size none;
            size = pool.size + pool_alloc_size;
          })
          h
  longer-IsValid small full = record {
    sized = omega (
      arith,
      length-append pool.objects (replicate pool_alloc_size none),
      length-replicate {A = Option ℕ} pool_alloc_size none,
      v.sized,
    );
    bounded = omega (arith, v.bounded, v.aligned);
    aligned = omega (arith, v.aligned);
    counted = omega (
      arith,
      count_if-append is_used pool.objects (replicate pool_alloc_size none),
      count_if-replicate is_used pool_alloc_size none refl,
      v.counted,
    );
    indexed = λ i p e. v.indexed i p (grown_indexed i p e);
    in_range = omega (arith, v.in_range);
    filled = grown_filled;
  }

  full_num : leb pool.size pool.num ≡ true → pool.num ≡ pool.size
  full_num e = ground (arith, count_if-le-length is_used pool.objects, v.sized, v.counted)

  -- It also leaves room.
  pub grow_pool-IsValid :
      (room : Bool) {grown : ObjPool}
      → grow_pool room pool ≡ some grown
      → IsValid grown h × (grown.num < grown.size)
  unfolding grow_pool
  grow_pool-IsValid room {grown} e = elim (Bool-cases (leb pool.size pool.num)) [
    | inr space ↦ subst (λ g. IsValid g h × (g.num < g.size)) (ground arith) (v, ground arith)
    | inl full ↦
        subst (λ g. IsValid g h × (g.num < g.size)) (ground arith)
          (longer-IsValid (ground arith) (full_num full), omega (arith, full_num full))
  ]

-- The members are those from before.
pub grow_pool-member :
    (room : Bool) (pool : ObjPool) (q : ℕ) {grown : ObjPool}
    → grow_pool room pool ≡ some grown
    → member grown.objects q ≡ member pool.objects q
unfolding grow_pool
grow_pool-member room pool q {grown} e =
    ground (arith, member-append_empty pool.objects pool_alloc_size q)

pub grow_pool-ne-none :
    (room : Bool) (pool : ObjPool)
    → (pool.num < pool.size) ⊎ ((pool.size < pool_max_size) × (room ≡ true))
    → grow_pool room pool ≢ none
unfolding grow_pool
grow_pool-ne-none room pool space = ground arith
