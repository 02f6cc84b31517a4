-- ===== src/AsymmetricCipher/Context/Copy.antt =====
-- src/asymmetric_cipher.c: a context is copied and freed, with its reference to a key.
use pkcs11_provider.Base.{
  ℕ, ◌+◌, ◌-◌, ◌≡◌, ◌∙◌, inl, inr, Bool, Option, none, some, List, arith, if◌then◌else◌, Bool-cases,
}
use pkcs11_provider.AsymmetricCipher.Context.{Context}

-- Memory, if there is any, and the references to keys, over an unknown state `W`.
pub record Store (W : Type 0) : Type 0 where
  pub malloc : W → Bool × W
  pub obj_ref : Option ℕ → W → Option ℕ × W
  pub obj_free : Option ℕ → W → W

module _ {W : Type 0} (t : Store W) where
  -- Without the memory that is freed.
  abbrev pub freectx : Context → W → W
  freectx c w = t.obj_free c.key w

  -- The copy, if there is memory for it and for its label.
  pub dupctx : Context → W → Option Context × W
  dupctx c w =
      let (room, w1) = t.malloc w in
      let (key, w2) = t.obj_ref c.key w1 in
      let new = record c { key = key } in
      let labelled : Option Context × W = elim c.source_data [
        | none ↦ (some new, w2)
        | some label ↦
            let (more, w3) = t.malloc w2 in if more then (some new, w3) else (none, freectx new w3)
      ] in
      if room then labelled else (none, w1)

one_for : Option ℕ → ℕ
one_for none = 0
one_for (some k) = 1

keys_of : Option Context → ℕ
unfolding one_for
keys_of none = 0
keys_of (some c) = one_for c.key

-- A copy takes one reference to the key that it has, and a copy that fails takes none, where `refs`
-- counts the references that are taken.
module _ {W : Type 0} (t : Store W) (refs : W → ℕ)
    (malloc_refs : (w : W) → refs (t.malloc w).1 ≡ refs w)
    (taken : (k : Option ℕ) (w : W) → refs (t.obj_ref k w).1 ≡ refs w + one_for (t.obj_ref k w).0)
    (freed : (k : Option ℕ) (w : W) → refs (t.obj_free k w) ≡ refs w - one_for k) where
  dupctx-refs :
      (c : Context) (w : W) → let (copy, w') = dupctx t c w in refs w' ≡ refs w + keys_of copy
  unfolding dupctx keys_of
  dupctx-refs c w =
      let (room, w1) = t.malloc w in
      let (key, w2) = t.obj_ref c.key w1 in
      let (more, w3) = t.malloc w2 in
      let e1 = malloc_refs w in
      let e2 = taken c.key w1 in
      let e3 = malloc_refs w2 in
      let e4 = freed key w3 in
      elim (Bool-cases room) [
        | inr bad ↦ rw bad (omega (arith, e1))
        | inl good ↦ rw good (by_label c.source_data key (omega (arith, e2, e1)) e3 e4)
      ]
    where
      by_label :
          (o : Option (List ℕ)) (key : Option ℕ) {v : W}
          → refs v ≡ refs w + one_for key
          → refs (t.malloc v).1 ≡ refs v
          → refs (t.obj_free key (t.malloc v).1) ≡ refs (t.malloc v).1 - one_for key
          → let new = record c { key = key } in
            let r = elim o as (λ o. Option Context × W) [
              | none ↦ (some new, v)
              | some label ↦
                  if (t.malloc v).0
                  then (some new, (t.malloc v).1)
                  else (none, freectx t new (t.malloc v).1)
            ] in
            refs r.1 ≡ refs w + keys_of r.0
      by_label none key e m f = e
      by_label (some label) key {v} e m f = elim (Bool-cases (t.malloc v).0) [
        | inl good ↦ rw good (m ∙ e)
        | inr bad ↦ rw bad (omega (arith, f, m, e))
      ]
