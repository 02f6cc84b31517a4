-- ===== src/Objects/Tests.antt =====
-- Runs of the operations on a small pool of objects.
use pkcs11_provider.Base.{◌+◌, ◌≡◌, refl, inr, true, false, none, [], arith}
use pkcs11_provider.Objects.Remove.{rm_of_add, Removed, obj_rm_from_pool-Removed}
use pkcs11_provider.Codes.Rv
use pkcs11_provider.Codes.{unavailable, invalid_handle}
use pkcs11_provider.Objects.Find.{Answer, obj_pool_find-Answer, obj_pool_find_misses}
use pkcs11_provider.Objects.Add.{Added, obj_add_to_pool-Added, obj_add_to_pool-succeeds}
use pkcs11_provider.Objects.Valid.{IsValid, member, obj_pool_init-IsValid}
use pkcs11_provider.Objects.{
  Heap, Query, ObjPool, obj_pool_init, obj_add_to_pool, grow_pool, obj_pool_find, place,
  obj_rm_from_pool, find_empty,
}

-- Objects that no pool has, private keys.
abbrev loose : Heap
loose q = record {
  class = 3;
  key_type = q;
  param_set = unavailable;
  bit_size = 2048;
  attrs = [];
  handle = q + 100;
  cached = invalid_handle;
  raf = false;
  poolid = none;
}

abbrev any_private : Query
any_private = record {
  q_class = 3;
  q_type = unavailable;
  q_param_set = unavailable;
  q_bit_size = unavailable;
  q_attrs = [];
}

-- The pool with one object, and the objects then.
abbrev one : ObjPool
one = (obj_add_to_pool Rv.ok 0 true 1 obj_pool_init loose).1

abbrev one_heap : Heap
one_heap = (obj_add_to_pool Rv.ok 0 true 1 obj_pool_init loose).2

one-IsValid : IsValid one one_heap
one-IsValid =
    (obj_add_to_pool-Added 1 obj_pool_init loose (obj_pool_init-IsValid loose) refl Rv.ok 0
      true).valid

obj_add_to_pool-Added_example :
    Added 1 obj_pool_init loose (obj_add_to_pool Rv.ok 0 true 1 obj_pool_init loose)
obj_add_to_pool-Added_example =
    obj_add_to_pool-Added 1 obj_pool_init loose (obj_pool_init-IsValid loose) refl Rv.ok 0 true

obj_add_to_pool-succeeds_example : (obj_add_to_pool Rv.ok 0 true 1 obj_pool_init loose).0 ≡ Rv.ok
unfolding obj_pool_init
obj_add_to_pool-succeeds_example =
    obj_add_to_pool-succeeds 1 obj_pool_init loose (obj_pool_init-IsValid loose) refl true
      (inr (omega arith, refl))

obj_rm_from_pool-Removed_example : Removed 1 one (obj_rm_from_pool Rv.ok 0 1 one one_heap)
unfolding obj_add_to_pool obj_pool_init grow_pool place find_empty
obj_rm_from_pool-Removed_example = obj_rm_from_pool-Removed 1 0 one one_heap one-IsValid refl

rm_of_add_example :
    let (rv, pool, h) = obj_add_to_pool Rv.ok 0 true 1 obj_pool_init loose in
    member (obj_rm_from_pool Rv.ok 0 1 pool h).0.objects 1 ≡ member obj_pool_init.objects 1
rm_of_add_example = rm_of_add 1 obj_pool_init loose true (obj_pool_init-IsValid loose) refl 1

obj_pool_find-Answer_example :
    Answer any_private one_heap one.num one.objects (obj_pool_find 0 any_private one one_heap)
obj_pool_find-Answer_example = obj_pool_find-Answer any_private one one_heap

obj_pool_find_misses_example :
    let (rv, pool1, h1) = obj_add_to_pool Rv.ok 0 true 1 obj_pool_init loose in
    let (rv', pool2, h2) = obj_add_to_pool Rv.ok 0 true 2 pool1 h1 in
    let (pool, h') = obj_rm_from_pool Rv.ok 0 1 pool2 h2 in
    (member pool.objects 2 ≡ true) × (obj_pool_find 0 any_private pool h' ≡ none)
obj_pool_find_misses_example = obj_pool_find_misses any_private 1 2 loose (omega arith)
