-- ===== src/Cipher/Unpad/Mac.antt =====
-- The loops of `tlsunpad` that copy the MAC out of the record.
use pkcs11_provider.Base.{
  ℕ, zero, suc, ◌+◌, ◌-◌, ◌%◌, ◌^◌, ◌≤◌, ◌<◌, bit_and, bit_or, ◌≡◌, refl, ap, ap₂, ◌∙◌, inl, inr,
  Bool, true, false, some, List, [], ◌∷◌, arith, ltb, ◌==◌, if◌then◌else◌, Bool-cases, length,
  get_elem?, replicate, get_elem?-lt, length-replicate, get_elem?-replicate_lt, AreBytes,
  AreBytes-get_elem?, slice, slice-ext, slice-cons,
}
use pkcs11_provider.Word.{complement, constant_smaller_mask, ulong_max}
use pkcs11_provider.Word.Digits.{and_ones, and-zero, or-zero, zero-or}
use pkcs11_provider.Word.Masks.{
  constant_smaller_mask_lem, constant_equal_mask_small, constant_select_byte_mask_lem,
}
use pkcs11_provider.Cipher.Unpad.{mac_mask, mix, mac_loop, select_mac}

-- The mask lets exactly the byte `mac_pos + j` of the record into the byte `j` of the MAC.
mac_mask_lem :
    (mac_pos macsize i j : ℕ)
    → mac_pos + macsize < 2 ^ 63
    → i < 2 ^ 63
    → j < macsize
    → mac_mask mac_pos macsize i j ≡ (if i == j + mac_pos then 255 else 0)
unfolding mac_mask
mac_mask_lem mac_pos macsize i j small li lj =
    let end : (mac_pos + macsize) % 2 ^ 64 ≡ mac_pos + macsize = omega arith in
    let here : (j + mac_pos) % 2 ^ 64 ≡ j + mac_pos = omega arith in
    elim (Bool-cases (i == j + mac_pos)) [
      | inl same ↦
          let above : ltb i mac_pos ≡ false = ground arith in
          let below : ltb i (mac_pos + macsize) ≡ true = ground arith in
          rw
            (
              end,
              here,
              constant_smaller_mask_lem i mac_pos (omega arith) (omega arith),
              constant_smaller_mask_lem i (mac_pos + macsize) (omega arith) (omega arith),
              constant_equal_mask_small i (j + mac_pos) (omega arith) (omega arith),
              above,
              below,
              same,
            )
            refl
      | inr other ↦
          rw
            (
              here,
              constant_equal_mask_small i (j + mac_pos) (omega arith) (omega arith),
              other,
              and-zero (
                  bit_and (complement (constant_smaller_mask i mac_pos))
                    (constant_smaller_mask i ((mac_pos + macsize) % 2 ^ 64))),
            )
            refl
    ]

length-mix :
    (mac_pos macsize i byte j : ℕ) (ts : List ℕ)
    → length (mix mac_pos macsize i byte j ts) ≡ length ts
unfolding mix
length-mix mac_pos macsize i byte j [] = refl
length-mix mac_pos macsize i byte j (t ∷ ts) = ap suc (length-mix mac_pos macsize i byte (suc j) ts)

get_elem?-mix :
    (mac_pos macsize i byte j : ℕ) (ts : List ℕ) (k t : ℕ)
    → mac_pos + macsize < 2 ^ 63
    → i < 2 ^ 63
    → byte < 256
    → j + k < macsize
    → get_elem? ts k ≡ some t
    → get_elem? (mix mac_pos macsize i byte j ts) k
      ≡ some (if i == j + k + mac_pos then bit_or t byte else t)
unfolding mix
get_elem?-mix mac_pos macsize i byte j [] k t small li lb lj e = cc
get_elem?-mix mac_pos macsize i byte j (x ∷ xs) zero t small li lb lj e =
    let plain : j + 0 ≡ j = omega arith in
    let x_is : x ≡ t = ground arith in
    elim (Bool-cases (i == j + mac_pos)) [
      | inl same ↦
          rw
            (
              plain,
              mac_mask_lem mac_pos macsize i j small li (omega arith),
              same,
              and_ones 8 byte lb,
              x_is,
            )
            refl
      | inr other ↦
          rw
            (
              plain,
              mac_mask_lem mac_pos macsize i j small li (omega arith),
              other,
              and-zero byte,
              or-zero x,
              x_is,
            )
            refl
    ]
get_elem?-mix mac_pos macsize i byte j (x ∷ xs) (suc k) t small li lb lj e =
    let next : j + suc k ≡ suc j + k = omega arith in
    rw next (get_elem?-mix mac_pos macsize i byte (suc j) xs k t small li lb (omega arith) e)

module _ (out : List ℕ) (off olen mac_pos macsize : ℕ) (are : AreBytes out)
    (whole : off + olen ≤ length out) (inside : mac_pos + macsize ≤ olen)
    (small : olen < 2 ^ 63) where
  -- The bytes of the MAC that stand before `i` in the record have been copied.
  record Filled (i : ℕ) (ts : List ℕ) : Type 0 where
    size : length ts ≡ macsize
    filled :
        (j b : ℕ)
        → j < macsize
        → get_elem? out (off + mac_pos + j) ≡ some b
        → get_elem? ts j ≡ some (if ltb (mac_pos + j) i then b else 0)

  mix-Filled :
      (i byte : ℕ) (ts : List ℕ)
      → i < olen
      → get_elem? out (off + i) ≡ some byte
      → Filled i ts
      → Filled (suc i) (mix mac_pos macsize i byte 0 ts)
  mix-Filled i byte ts li there f = record {
    size = length-mix mac_pos macsize i byte 0 ts ∙ f.size;
    filled = λ j b lj e.
        let old = f.filled j b lj e in
        let new =
          get_elem?-mix mac_pos macsize i byte 0 ts j _ (omega arith) (omega arith)
            (AreBytes-get_elem? out (off + i) byte are there) (omega arith) old in
        elim (Bool-cases (i == 0 + j + mac_pos)) [
          | inl same ↦
              let place : off + i ≡ off + mac_pos + j = ground arith in
              let twin : byte ≡ b = ground (arith, ap (get_elem? out) place) in
              let before : ltb (mac_pos + j) i ≡ false = ground arith in
              let now : ltb (mac_pos + j) (suc i) ≡ true = ground arith in
              rw (now, ← twin) (rw (same, before, zero-or byte) at new)
          | inr other ↦
              let still : ltb (mac_pos + j) (suc i) ≡ ltb (mac_pos + j) i = ground arith in
              rw still (rw other at new)
        ];
  }

  mac_loop-Filled :
      (rounds i : ℕ) (ts : List ℕ)
      → i + rounds ≤ olen
      → Filled i ts
      → (ts' : List ℕ) × (mac_loop out off mac_pos macsize rounds i ts ≡ some ts')
        × Filled (i + rounds) ts'
  unfolding mac_loop
  mac_loop-Filled zero i ts l f = (ts, refl, rw (plus_zero i) f)
    where
      plus_zero : (k : ℕ) → k + 0 ≡ k
      plus_zero k = omega arith
  mac_loop-Filled (suc rounds) i ts l f =
      let (byte, there) = get_elem?-lt out (off + i) (omega arith) in
      let next : i + suc rounds ≡ suc i + rounds = omega arith in
      rw (there, mac_loop, next)
        (mac_loop-Filled rounds (suc i) (mix mac_pos macsize i byte 0 ts) (omega arith)
          (mix-Filled i byte ts (omega arith) there f))

  -- Beginning anywhere in front of the MAC, the loop ends with its bytes.
  pub mac_loop-slice :
      (area : ℕ)
      → area ≤ mac_pos
      → mac_loop out off mac_pos macsize (olen - area) area (replicate macsize 0)
        ≡ some (slice out (off + mac_pos) macsize)
  mac_loop-slice area l =
      let start : Filled area (replicate macsize 0) = record {
        size = length-replicate macsize 0;
        filled = λ j b lj e.
            let before : ltb (mac_pos + j) area ≡ false = ground arith in
            rw before (get_elem?-replicate_lt macsize 0 j lj);
      } in
      let (ts, e, f) =
        mac_loop-Filled (olen - area) area (replicate macsize 0) (omega arith) start in
      let all : ts ≡ slice out (off + mac_pos) macsize =
        slice-ext ts out (off + mac_pos) macsize f.size (omega arith) (λ j lj.
          let (b, there) = get_elem?-lt out (off + mac_pos + j) (omega arith) in
          let now : ltb (mac_pos + j) (area + (olen - area)) ≡ true = ground arith in
          rw there (rw now at (f.filled j b lj there))) in
      e ∙ ap some all

-- The choice between the copied MAC and random bytes.
pub select_mac_lem :
    (fits : Bool) (ts rs : List ℕ)
    → AreBytes ts
    → AreBytes rs
    → length ts ≤ length rs
    → select_mac (if fits then ulong_max else 0) ts rs
      ≡ (if fits then ts else slice rs 0 (length ts))
unfolding select_mac
select_mac_lem true [] rs at ar l = refl
select_mac_lem false [] rs at ar l = refl
select_mac_lem fits (t ∷ ts) [] at ar l = absurd (omega arith)
select_mac_lem true (t ∷ ts) (r ∷ rs) at ar l =
    ap₂ ◌∷◌ (constant_select_byte_mask_lem t r true at.0 ar.0)
      (select_mac_lem true ts rs at.1 ar.1 (omega arith))
select_mac_lem false (t ∷ ts) (r ∷ rs) at ar l =
    ap₂ ◌∷◌ (constant_select_byte_mask_lem t r false at.0 ar.0)
      (select_mac_lem false ts rs at.1 ar.1 (omega arith) ∙ slice-cons r rs 0 (length ts))
