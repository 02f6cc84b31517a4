-- ===== src/Objects/Fork.antt =====
-- What `p11prov_obj_pool_fork_reset` does in the child of a fork.
use pkcs11_provider.Base.{
  ℕ, ◌≡◌, refl, ◌∙◌, true, false, Option, none, some, List, [], ◌∷◌, arith, if◌then◌else◌,
}
use pkcs11_provider.Codes.{invalid_handle}
use pkcs11_provider.Objects.Valid.{member, IsValid}
use pkcs11_provider.Objects.{
  fork_reset_objects, obj_pool_fork_reset, Heap, ObjPool, obj_forked, store,
}

-- The loop marks every object of the array, and touches no other.
fork_reset_objects_lem :
    (os : List (Option ℕ)) (h : Heap) (q : ℕ)
    → fork_reset_objects os h q ≡ (if member os q then obj_forked (h q) else h q)
unfolding fork_reset_objects
fork_reset_objects_lem [] h q = refl
fork_reset_objects_lem (none ∷ os) h q = fork_reset_objects_lem os h q
fork_reset_objects_lem (some p ∷ os) h q =
    fork_reset_objects_lem os (store h p (obj_forked (h p))) q ∙ unfold obj_forked in ground arith

fork_reset-poolid :
    (os : List (Option ℕ)) (h : Heap) (q : ℕ) → (fork_reset_objects os h q).poolid ≡ (h q).poolid
fork_reset-poolid os h q = unfold obj_forked in ground (arith, fork_reset_objects_lem os h q)

-- If the pool is consistent and its mutex can be had, after a fork every object of the pool is to
-- be looked up again and has no handle, and no other object is changed; the pool stays consistent.
pub obj_pool_fork_reset_lem :
    (pool : ObjPool) (h : Heap)
    → IsValid pool h
    → let h' = obj_pool_fork_reset 0 pool h in
      IsValid pool h'
      × ((q : ℕ)
          → member pool.objects q ≡ true
          → ((h' q).raf ≡ true)
            × ((h' q).handle ≡ invalid_handle)
            × ((h' q).cached ≡ invalid_handle))
      × ((q : ℕ) → member pool.objects q ≡ false → h' q ≡ h q)
unfolding obj_pool_fork_reset
obj_pool_fork_reset_lem pool h v = (
  record {
    sized = v.sized;
    bounded = v.bounded;
    aligned = v.aligned;
    counted = v.counted;
    indexed = λ i p e. fork_reset-poolid pool.objects h p ∙ v.indexed i p e;
    in_range = v.in_range;
    filled = v.filled;
  },
  λ q e. unfold obj_forked in ground (arith, fork_reset_objects_lem pool.objects h q),
  λ q e. ground (arith, fork_reset_objects_lem pool.objects h q),
)
