-- ===== src/ByteSwap/Reversed.antt =====
-- `byteswap_buf` turns the bytes round.
use pkcs11_provider.Base.{
  ℕ, zero, suc, ◌+◌, ◌-◌, ◌^◌, ◌≤◌, ◌<◌, ◌≡◌, refl, sym, ap, ◌∙◌, ◌≢◌, ◌⊎◌, inl, inr, Bool, true,
  false, some, List, arith, ltb, ◌==◌, if◌then◌else◌, Bool-cases, length, get_elem?, set,
  length-set, get_elem?-set_self, get_elem?-set_ne, get_elem?-lt,
}
use pkcs11_provider.ByteSwap.{swap_at, swap_loop, byteswap_buf, count_of}

-- The `k` bytes from `s` on are those of `src` turned round, and all others are those of `dest`.
pub record Reversed (src dest : List ℕ) (s k : ℕ) (d : List ℕ) : Type 0 where
  pub size : length d ≡ length dest
  pub turned : (i : ℕ) → s ≤ i → i < s + k → get_elem? d i ≡ get_elem? src (s + s + k - 1 - i)
  pub others : (i : ℕ) → (i < s) ⊎ (s + k ≤ i) → get_elem? d i ≡ get_elem? dest i

swap_at-some :
    (s e sb eb : ℕ) (src dest : List ℕ)
    → get_elem? src s ≡ some sb
    → get_elem? src e ≡ some eb
    → s < length dest
    → e < length dest
    → swap_at s e src dest ≡ some (set (set dest s eb) e sb)
unfolding swap_at
swap_at-some s e sb eb src dest at_s at_e ds de =
    let in_s : ltb s (length dest) ≡ true = ground arith in
    let in_e : ltb e (length dest) ≡ true = ground arith in
    rw (at_s, at_e, in_s, in_e, swap_at) refl

-- What a round leaves, at each index.
module _ (s e sb eb : ℕ) (dest : List ℕ) (de : e < length dest) where
  abbrev written : List ℕ
  written = set (set dest s eb) e sb

  length-written : length written ≡ length dest
  length-written = length-set (set dest s eb) e sb ∙ length-set dest s eb

  written_last : get_elem? written e ≡ some sb
  written_last = get_elem?-set_self (set dest s eb) e sb (omega (arith, length-set dest s eb, de))

  written_first : s ≢ e → s < length dest → get_elem? written s ≡ some eb
  written_first ne ds =
      get_elem?-set_ne (set dest s eb) e s sb (λ q. ne (sym q)) ∙ get_elem?-set_self dest s eb ds

  written_other : (i : ℕ) → s ≢ i → e ≢ i → get_elem? written i ≡ get_elem? dest i
  written_other i ns ne =
      get_elem?-set_ne (set dest s eb) e i sb ne ∙ get_elem?-set_ne dest s i eb ns

-- What the next round reads.
module _ (s e sb eb : ℕ) (src dest : List ℕ) (de : e < length dest) where
  abbrev next : Bool → List ℕ
  next in_place = if in_place then written s e sb eb dest de else src

  length-next :
      (in_place : Bool) → (in_place ≡ true → src ≡ dest) → length (next in_place) ≡ length src
  length-next true alias = length-written s e sb eb dest de ∙ ap length (sym (alias refl))
  length-next false alias = refl

  next_alias : (in_place : Bool) → in_place ≡ true → next in_place ≡ written s e sb eb dest de
  next_alias true q = refl
  next_alias false q = cc

  next_other :
      (in_place : Bool)
      → (in_place ≡ true → src ≡ dest)
      → (j : ℕ) → s ≢ j
      → e ≢ j
      → get_elem? (next in_place) j ≡ get_elem? src j
  next_other true alias j ns ne =
      written_other s e sb eb dest de j ns ne
      ∙ ap (λ (l : List ℕ). get_elem? l j) (sym (alias refl))
  next_other false alias j ns ne = refl

-- A round around a part that is turned round turns all of it round.
module _ (in_place : Bool) (k s sb eb : ℕ) (src dest d : List ℕ) (de : s + suc k < length dest)
    (alias : in_place ≡ true → src ≡ dest) (at_s : get_elem? src s ≡ some sb)
    (at_e : get_elem? src (s + suc k) ≡ some eb) where
  abbrev e : ℕ
  e = s + suc k

  abbrev d1 : List ℕ
  d1 = written s e sb eb dest de

  around :
      Reversed (next s e sb eb src dest de in_place) d1 (suc s) k d
      → Reversed src dest s (suc (suc k)) d
  around r = record {
    size = r.size ∙ length-written s e sb eb dest de;
    turned = turned_at;
    others = λ i o.
        r.others i (ground arith) ∙ written_other s e sb eb dest de i (ground arith) (ground arith);
  }
    where
      inner :
          (i : ℕ)
          → suc s ≤ i
          → i < s + suc k
          → get_elem? d i ≡ get_elem? src (s + s + suc (suc k) - 1 - i)
      inner i l h =
          let j = s + s + suc (suc k) - 1 - i in
          let same : suc s + suc s + k - 1 - i ≡ j = omega arith in
          r.turned i l (omega arith)
          ∙ ap (get_elem? (next s e sb eb src dest de in_place)) same
          ∙ next_other s e sb eb src dest de in_place alias j (λ q. absurd (omega arith))
              (λ q. absurd (omega arith))

      first : (j : ℕ) → j ≡ e → get_elem? d s ≡ get_elem? src j
      first j q =
          r.others s (inl (omega arith))
          ∙ written_first s e sb eb dest de (λ q. absurd (omega arith)) (omega arith)
          ∙ sym (ap (get_elem? src) q ∙ at_e)

      last : (j : ℕ) → j ≡ s → get_elem? d e ≡ get_elem? src j
      last j q =
          r.others e (inr (omega arith))
          ∙ written_last s e sb eb dest de
          ∙ sym (ap (get_elem? src) q ∙ at_s)

      turned_at :
          (i : ℕ)
          → s ≤ i
          → i < s + suc (suc k)
          → get_elem? d i ≡ get_elem? src (s + s + suc (suc k) - 1 - i)
      turned_at i l h = elim (Bool-cases (i == s)) [
        | inl at_first ↦
            let q : i ≡ s = ground arith in
            ap (get_elem? d) q ∙ first (s + s + suc (suc k) - 1 - i) (omega (arith, q))
        | inr behind ↦ elim (Bool-cases (i == e)) [
          | inl at_last ↦
              let q : i ≡ e = ground arith in
              ap (get_elem? d) q ∙ last (s + s + suc (suc k) - 1 - i) (omega (arith, q))
          | inr before ↦ inner i (ground arith) (ground arith)
        ]
      ]

swap_loop-Reversed :
    (in_place : Bool) (k s : ℕ) (src dest : List ℕ)
    → s + k ≤ length src
    → s + k ≤ length dest
    → (in_place ≡ true → src ≡ dest)
    → (d : List ℕ) × (swap_loop in_place k s src dest ≡ some d) × Reversed src dest s k d
unfolding swap_loop
swap_loop-Reversed in_place zero s src dest fits room alias = (
  dest,
  refl,
  record { size = refl; turned = λ i l h. absurd (omega arith); others = λ i o. refl },
)
swap_loop-Reversed in_place (suc zero) s src dest fits room alias =
    let (sb, at_s) = get_elem?-lt src s (omega arith) in
    let de : s < length dest = omega arith in
    (
      written s s sb sb dest de,
      swap_at-some s s sb sb src dest at_s at_s de de,
      record {
        size = length-written s s sb sb dest de;
        turned = λ i l h.
            ap (get_elem? (written s s sb sb dest de)) (only i l h)
            ∙ written_last s s sb sb dest de
            ∙ sym (ap (get_elem? src) (turned_only i l h) ∙ at_s);
        others = λ i o. written_other s s sb sb dest de i (ground arith) (ground arith);
      },
    )
  where
    only : (i : ℕ) → s ≤ i → i < s + 1 → i ≡ s
    only i l h = omega arith

    turned_only : (i : ℕ) → s ≤ i → i < s + 1 → s + s + 1 - 1 - i ≡ s
    turned_only i l h = omega arith
swap_loop-Reversed in_place (suc (suc k)) s src dest fits room alias =
    let e = s + suc k in
    let (sb, at_s) = get_elem?-lt src s (omega arith) in
    let (eb, at_e) = get_elem?-lt src e (omega arith) in
    let de : e < length dest = omega arith in
    let step = swap_at-some s e sb eb src dest at_s at_e (omega arith) de in
    let d1 = written s e sb eb dest de in
    let src1 = next s e sb eb src dest de in_place in
    let (d, q, r) =
      swap_loop-Reversed in_place k (suc s) src1 d1
        (omega (arith, length-next s e sb eb src dest de in_place alias))
        (omega (arith, length-written s e sb eb dest de))
        (next_alias s e sb eb src dest de in_place) in
    (d, rw (step, swap_loop) q, around in_place k s sb eb src dest d de alias at_s at_e r)

-- For a length of at most 2^31 that is within both buffers, which may be one and the same:
-- `byteswap_buf` touches nothing outside them, the first bytes of the destination, as many as the length
-- says, are those of the source in the opposite order, also where the source is overwritten meanwhile,
-- and the others stay.
pub byteswap_buf-Reversed :
    (in_place : Bool) (src dest : List ℕ) (len : ℕ)
    → len ≤ 2 ^ 31
    → len ≤ length src
    → len ≤ length dest
    → (in_place ≡ true → src ≡ dest)
    → (d : List ℕ) × (byteswap_buf in_place src dest len ≡ some d) × Reversed src dest 0 len d
unfolding byteswap_buf
byteswap_buf-Reversed in_place src dest len small fits room alias =
    let whole : count_of len ≡ len = ground arith in
    let (d, q, r) = swap_loop-Reversed in_place len 0 src dest (omega arith) (omega arith) alias in
    (d, ap (λ k. swap_loop in_place k 0 src dest) whole ∙ q, r)
