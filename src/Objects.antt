-- ===== src/Objects.antt =====
-- src/obj/pool.c: the pool of a slot's objects. Objects are shared by pointer: a pointer is a number,
-- and the objects are a function from pointers. Child modules prove what the pool promises.
pub mod Valid
pub mod Add
pub mod Remove
pub mod Find
pub mod Fork
mod Tests
use pkcs11_provider.Base.{
  ℕ, zero, suc, ◌+◌, ◌-◌, ◌*◌, ◌%◌, ◌^◌, Bool, true, false, ◌&&◌, ◌||◌, Option, none, some, List,
  [], ◌∷◌, ◌++◌, ltb, leb, ◌==◌, if◌then◌else◌, get_elem?, set, replicate, same_bytes,
}
use pkcs11_provider.Codes.{unavailable, invalid_handle}
use pkcs11_provider.Codes.Rv

-- An attribute: its type and its bytes.
pub record Attr : Type 0 where
  pub attr_type : ℕ
  pub value : List ℕ

-- `poolid` is `none` for -1.
pub record Obj : Type 0 where
  pub class : ℕ
  pub key_type : ℕ
  pub param_set : ℕ
  pub bit_size : ℕ
  pub attrs : List Attr
  pub handle : ℕ
  pub cached : ℕ
  pub raf : Bool
  pub poolid : Option ℕ

-- The array holds `none` for a null pointer.
pub record ObjPool : Type 0 where
  pub objects : List (Option ℕ)
  pub size : ℕ
  pub num : ℕ
  pub first_free : ℕ

abbrev pub Heap : Type 0
Heap = ℕ → Obj

abbrev pub store : Heap → ℕ → Obj → Heap
store h p o q = if q == p then o else h q

abbrev pub pool_alloc_size : ℕ
pool_alloc_size = 32

abbrev pub pool_max_size : ℕ
pool_max_size = pool_alloc_size * 2 ^ 16

pub obj_pool_init : ObjPool
obj_pool_init = record { objects = []; size = 0; num = 0; first_free = 0 }

-- The object as a fork leaves it.
pub obj_forked : Obj → Obj
obj_forked o = record o { raf = true; handle = invalid_handle; cached = invalid_handle }

abbrev occupant : Option (Option ℕ) → Option ℕ
occupant none = none
occupant (some o) = o

-- The loop of `p11prov_obj_pool_fork_reset`.
pub fork_reset_objects : List (Option ℕ) → Heap → Heap
fork_reset_objects [] h = h
fork_reset_objects (none ∷ os) h = fork_reset_objects os h
fork_reset_objects (some p ∷ os) h = fork_reset_objects os (store h p (obj_forked (h p)))

-- The numbers are what `pthread_mutex_lock` returned.
pub obj_pool_fork_reset : ℕ → ObjPool → Heap → Heap
unfolding fork_reset_objects
obj_pool_fork_reset err pool h = if err == 0 then fork_reset_objects pool.objects h else h

abbrev pub is_empty_at : List (Option ℕ) → ℕ → Bool
is_empty_at os i = elim (get_elem? os i) [
  | some o ↦ elim o [ none ↦ true | some p ↦ false ]
  | none ↦ false
]

-- The `for` loop of `obj_add_to_pool`, with the rounds left and `i`.
pub find_empty : ObjPool → ℕ → ℕ → Option ℕ
find_empty pool zero i = none
find_empty pool (suc rounds) i =
    let idx = (i + pool.first_free) % pool.size in
    let rest = find_empty pool rounds (suc i) in
    if is_empty_at pool.objects idx then some idx else rest

-- The array is made larger when it is full; the flag says whether the memory is there.
pub grow_pool : Bool → ObjPool → Option ObjPool
grow_pool room pool =
    if leb pool.size pool.num
    then (if leb pool_max_size pool.size
        then none
        else (if room
            then some (record pool {
              objects = pool.objects ++ replicate pool_alloc_size none;
              size = pool.size + pool_alloc_size;
            })
            else none))
    else some pool

abbrev pub wrap_first_free : ObjPool → ObjPool
wrap_first_free pool =
    if leb pool.size pool.first_free then record pool { first_free = 0 } else pool

-- The part of `obj_add_to_pool` behind the growth: the return value, the pool and the objects.
pub place : ℕ → ObjPool → Heap → ℕ × ObjPool × Heap
unfolding find_empty
place p pool h = elim (find_empty pool pool.size 0) [
  | none ↦ (Rv.general_error, pool, h)
  | some idx ↦ (
    Rv.ok,
    record pool {
      objects = set pool.objects idx (some p);
      num = pool.num + 1;
      first_free = idx + 1;
    },
    store h p (record (h p) { poolid = some idx }),
  )
]

-- With what the slot lookup returned, the lock's result and whether memory is there.
pub obj_add_to_pool : ℕ → ℕ → Bool → ℕ → ObjPool → Heap → ℕ × ObjPool × Heap
unfolding grow_pool place
obj_add_to_pool looked err room p pool h =
    if looked == Rv.ok
    then (if err == 0
        then elim (grow_pool room pool) [
          | none ↦ (Rv.host_memory, pool, h)
          | some grown ↦ place p (wrap_first_free grown) h
        ]
        else (Rv.cant_lock, pool, h))
    else (looked, pool, h)

-- Whether the array holds this very object at an index.
abbrev pub holds : List (Option ℕ) → ℕ → ℕ → Bool
holds os i p = elim (get_elem? os i) [
  | some o ↦ elim o [ none ↦ false | some q ↦ q == p ]
  | none ↦ false
]

-- The removal under the lock, of an object with a `poolid`; unchanged on the two error paths.
pub remove_at : ℕ → ℕ → ObjPool → Heap → ObjPool × Heap
remove_at idx p pool h =
    if leb pool.size idx
    then (pool, h)
    else (if holds pool.objects idx p
        then (
          record pool {
            objects = set pool.objects idx none;
            num = pool.num - 1;
            first_free = if ltb idx pool.first_free then idx else pool.first_free;
          },
          store h p (record (h p) { poolid = none }),
        )
        else (pool, h))

pub obj_rm_from_pool : ℕ → ℕ → ℕ → ObjPool → Heap → ObjPool × Heap
unfolding remove_at
obj_rm_from_pool looked err p pool h = elim (h p).poolid [
  | none ↦ (pool, h)
  | some idx ↦
      if looked == Rv.ok
      then (if err == 0 then remove_at idx p pool h else (pool, h))
      else (pool, h)
]

-- `p11prov_obj_get_attr`: the first attribute of a type.
pub get_attr : List Attr → ℕ → Option (List ℕ)
get_attr [] t = none
get_attr (a ∷ as') t = if a.attr_type == t then some a.value else get_attr as' t

pub obj_match_attrs : List Attr → List Attr → Bool
unfolding get_attr
obj_match_attrs have [] = true
obj_match_attrs have (a ∷ as') =
    elim (get_attr have a.attr_type) [ none ↦ false | some v ↦ same_bytes v a.value ]
    && obj_match_attrs have as'

-- What `p11prov_obj_pool_find` looks for.
pub record Query : Type 0 where
  pub q_class : ℕ
  pub q_type : ℕ
  pub q_param_set : ℕ
  pub q_bit_size : ℕ
  pub q_attrs : List Attr

abbrev pub unset_or : ℕ → ℕ → Bool
unset_or want value = want == unavailable || value == want

-- The tests of one round of its loop.
pub matches : Query → Obj → Bool
unfolding obj_match_attrs
matches q o =
    o.class == q.q_class
    && (unset_or q.q_type o.key_type
        && (unset_or q.q_param_set o.param_set
            && (unset_or q.q_bit_size o.bit_size && obj_match_attrs o.attrs q.q_attrs)))

-- The loop, with the rounds left.
pub find_matching : Query → Heap → ℕ → List (Option ℕ) → Option ℕ
find_matching q h zero os = none
find_matching q h (suc n) [] = none
find_matching q h (suc n) (none ∷ os) = find_matching q h n os
find_matching q h (suc n) (some p ∷ os) =
    let rest = find_matching q h n os in if matches q (h p) then some p else rest

pub obj_pool_find : ℕ → Query → ObjPool → Heap → Option ℕ
unfolding find_matching
obj_pool_find err q pool h = if err == 0 then find_matching q h pool.num pool.objects else none
