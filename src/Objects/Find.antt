-- ===== src/Objects/Find.antt =====
-- What `p11prov_obj_pool_find` finds, and what it does not look at.
use pkcs11_provider.Base.{
  ℕ, zero, suc, ◌<◌, ◌≡◌, refl, ◌≢◌, inl, inr, true, false, Option, none, some, List, [], ◌∷◌,
  arith, ◌==◌, Bool-cases, get_elem?, replicate,
}
use pkcs11_provider.Objects.Valid.{member}
use pkcs11_provider.Codes.Rv
use pkcs11_provider.Objects.{
  Query, find_matching, Heap, matches, obj_pool_find, ObjPool, obj_add_to_pool, obj_rm_from_pool,
  obj_pool_init, store,
}

-- The answer of a search through the first `n` slots: the first match there, or none if there is none.
abbrev pub Answer : Query → Heap → ℕ → List (Option ℕ) → Option ℕ → Type 0
Answer q h n os none = (i p : ℕ) → i < n → get_elem? os i ≡ some (some p) → matches q (h p) ≡ false
Answer q h n os (some p) =
    (i : ℕ) × (i < n)
    × (get_elem? os i ≡ some (some p))
    × (matches q (h p) ≡ true)
    × ((j r : ℕ) → j < i → get_elem? os j ≡ some (some r) → matches q (h r) ≡ false)

-- A slot in front that is empty, or that holds no match, changes nothing but the indices.
skip-Answer :
    (q : Query) (h : Heap) (n : ℕ) (o : Option ℕ) (os : List (Option ℕ)) (r : Option ℕ)
    → ((p : ℕ) → o ≡ some p → matches q (h p) ≡ false)
    → Answer q h n os r
    → Answer q h (suc n) (o ∷ os) r
skip-Answer q h n o os none miss a = no_match
  where
    no_match :
        (i p : ℕ) → i < suc n → get_elem? (o ∷ os) i ≡ some (some p) → matches q (h p) ≡ false
    no_match zero p l e = miss p (ground arith)
    no_match (suc i) p l e = a i p (omega arith) e
skip-Answer q h n o os (some p) miss a = (suc a.0, omega (arith, a.1), a.2, a.3, before)
  where
    before :
        (j r : ℕ) → j < suc a.0 → get_elem? (o ∷ os) j ≡ some (some r) → matches q (h r) ≡ false
    before zero r l e = miss r (ground arith)
    before (suc j) r l e = a.4 j r (omega arith) e

some-eq : {p r : ℕ} → some p ≡ some r → r ≡ p
some-eq e = ground arith

find_matching-Answer :
    (q : Query) (h : Heap) (n : ℕ) (os : List (Option ℕ)) → Answer q h n os (find_matching q h n os)
unfolding find_matching
find_matching-Answer q h zero os = λ i p l e. elim l [ ]
find_matching-Answer q h (suc n) [] = λ i p l e. cc
find_matching-Answer q h (suc n) (none ∷ os) =
    skip-Answer q h n none os _ (λ p e. cc) (find_matching-Answer q h n os)
find_matching-Answer q h (suc n) (some p ∷ os) = elim (Bool-cases (matches q (h p))) [
  | inl hit ↦ rw hit (0, omega arith, refl, hit, λ j r l e. elim l [ ])
  | inr miss ↦
      rw miss (
        skip-Answer q h n (some p) os _ (λ r e. rw (some-eq e) miss)
          (find_matching-Answer q h n os))
]

-- With the mutex, the search returns the first match among the first `num` slots of the array, and
-- nothing exactly if there is none there.
pub obj_pool_find-Answer :
    (q : Query) (pool : ObjPool) (h : Heap)
    → Answer q h pool.num pool.objects (obj_pool_find 0 q pool h)
unfolding obj_pool_find
obj_pool_find-Answer q pool h = find_matching-Answer q h pool.num pool.objects

-- A pool of one block that holds two objects, as two additions to a new pool leave it.
abbrev pub two_objects : ℕ → ℕ → ObjPool
two_objects a b = record {
  objects = some a ∷ some b ∷ replicate 30 none;
  size = 32;
  num = 2;
  first_free = 2;
}

abbrev pub put_at : ℕ → ℕ → Heap → Heap
put_at i p h = store h p (record (h p) { poolid = some i })

two_additions :
    (a b : ℕ) (h : Heap)
    → let (rv, pool, h') = obj_add_to_pool Rv.ok 0 true a obj_pool_init h in
      obj_add_to_pool Rv.ok 0 true b pool h' ≡ (Rv.ok, two_objects a b, put_at 1 b (put_at 0 a h))
unfolding obj_add_to_pool obj_pool_init
two_additions a b h = refl

one_left : ℕ → ObjPool
one_left b = record {
  objects = none ∷ some b ∷ replicate 30 none;
  size = 32;
  num = 1;
  first_free = 0;
}

first_removed :
    (a b : ℕ) (h : Heap)
    → (h a).poolid ≡ some 0
    → (obj_rm_from_pool Rv.ok 0 a (two_objects a b) h).0 ≡ one_left b
unfolding obj_rm_from_pool one_left
first_removed a b h e =
    let own : (a == a) ≡ true = ground arith in rw (e, obj_rm_from_pool) (ground (arith, own))

-- Of two objects that are added to a new pool, the second is not found any more once the first has
-- been removed, though it is in the pool, and whatever the query asks for: the search stops at `num`,
-- not at `size`.
pub obj_pool_find_misses :
    (q : Query) (a b : ℕ) (h : Heap)
    → a ≢ b
    → let (rv, pool1, h1) = obj_add_to_pool Rv.ok 0 true a obj_pool_init h in
      let (rv', pool2, h2) = obj_add_to_pool Rv.ok 0 true b pool1 h1 in
      let (pool, h') = obj_rm_from_pool Rv.ok 0 a pool2 h2 in
      (member pool.objects b ≡ true) × (obj_pool_find 0 q pool h' ≡ none)
unfolding obj_pool_find one_left
obj_pool_find_misses q a b h ne =
    rw (two_additions a b h, first_removed a b (put_at 1 b (put_at 0 a h)) (ground arith))
      (ground arith, refl)
