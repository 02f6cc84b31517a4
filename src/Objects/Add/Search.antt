-- ===== src/Objects/Add/Search.antt =====
-- The search of `obj_add_to_pool` for an empty slot.
use pkcs11_provider.Base.{
  ℕ, zero, suc, ◌+◌, ◌%◌, ◌≤◌, ◌<◌, ◌≡◌, refl, ap, inl, inr, true, false, Option, some, arith,
  Bool-cases,
}
use native.Mathlib.Nat.{mod-eq_of_lt}
use native.Mathlib.Decide.{ℕ_discrete, dec_lt}
use pkcs11_provider.Objects.{ObjPool, Heap, is_empty_at, find_empty}
use pkcs11_provider.Objects.Valid.{IsValid, has_empty, lt-is_empty_at}

-- What the search finds: the first empty slot from `first_free` on.
pub record Finds (pool : ObjPool) (r : Option ℕ) : Type 0 where
  pub idx : ℕ
  pub found : r ≡ some idx
  pub above : pool.first_free ≤ idx
  pub empty : is_empty_at pool.objects idx ≡ true
  pub first : (k : ℕ) → pool.first_free ≤ k → k < idx → is_empty_at pool.objects k ≡ false

find_empty-Finds :
    (pool : ObjPool) (j rounds i : ℕ)
    → i + rounds ≡ pool.size
    → j < pool.size
    → i + pool.first_free ≤ j
    → is_empty_at pool.objects j ≡ true
    → ((k : ℕ) → pool.first_free ≤ k → k < i + pool.first_free → is_empty_at pool.objects k ≡ false)
    → Finds pool (find_empty pool rounds i)
unfolding find_empty
find_empty-Finds pool j zero i e l b emp fst = absurd (omega arith)
find_empty-Finds pool j (suc rounds) i e l b emp fst =
    rw at_idx (elim (Bool-cases (is_empty_at pool.objects (i + pool.first_free))) [
      | inl hit ↦ rw hit (record {
        idx = i + pool.first_free;
        found = refl;
        above = omega arith;
        empty = hit;
        first = fst;
      })
      | inr miss ↦
          rw miss
            (find_empty-Finds pool j rounds (suc i) (omega arith) l (beyond miss) emp (below miss))
    ])
  where
    at_idx : (i + pool.first_free) % pool.size ≡ i + pool.first_free
    at_idx = mod-eq_of_lt (omega arith)

    beyond : is_empty_at pool.objects (i + pool.first_free) ≡ false → suc i + pool.first_free ≤ j
    beyond miss = elim (ℕ_discrete (i + pool.first_free) j) [
      | yes same ↦ cc (ap (is_empty_at pool.objects) same)
      | no other ↦ omega arith
    ]

    below :
        is_empty_at pool.objects (i + pool.first_free) ≡ false
        → (k : ℕ) → pool.first_free ≤ k
        → k < suc i + pool.first_free
        → is_empty_at pool.objects k ≡ false
    below miss k lo hi = elim (ℕ_discrete k (i + pool.first_free)) [
      | yes same ↦ rw same miss
      | no other ↦ fst k lo (omega arith)
    ]

-- With an empty slot left, the search takes the first one from `first_free` on.
pub place-Finds :
    (pool : ObjPool) (h : Heap)
    → IsValid pool h
    → pool.num < pool.size
    → Finds pool (find_empty pool pool.size 0)
place-Finds pool h v room =
    let (j, emp) = has_empty pool.objects (omega (arith, v.sized, v.counted)) in
    find_empty-Finds pool j pool.size 0 (omega arith)
      (omega (arith, v.sized, lt-is_empty_at pool.objects j emp)) (above j emp) emp
      (λ k lo hi. absurd (omega arith))
  where
    above : (j : ℕ) → is_empty_at pool.objects j ≡ true → 0 + pool.first_free ≤ j
    above j emp = elim (dec_lt j pool.first_free) [
      | yes low ↦ cc (v.filled j low)
      | no high ↦ omega arith
    ]
