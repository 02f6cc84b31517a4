-- ===== src/Signature/Der/RoundTrip.antt =====
-- A raw signature survives its way through DER.
use pkcs11_provider.Base.{
  ℕ, ◌+◌, ◌*◌, ◌/◌, ◌≤◌, ◌≡◌, refl, sym, ap, subst, ◌∙◌, Bool, true, false, ◌||◌, Option, none,
  some, List, ◌++◌, arith, ltb, leb, ◌==◌, if◌then◌else◌, length, AreBytes, slice, slice-AreBytes,
  length-slice, overwrite, slice-overwrite, slice_all, slice-next,
}
use pkcs11_provider.Codes.{unavailable}
use pkcs11_provider.Signature.Der.{
  Asn1, Documented, convert_raw_to_der, put_field, convert_der_to_raw, max_raw_ecc_sig_size,
}

module _ {B S : Type 0} (a : Asn1 B S) (laws : Documented a) where
  -- What an encoding was made of.
  encoded :
      (raw der : List ℕ) (dersize : ℕ)
      → convert_raw_to_der a raw dersize ≡ some der
      → (x : S) × ((a.set0
              (a.bin2bn (slice raw 0 (length raw / 2)))
              (a.bin2bn (slice raw (length raw / 2) (length raw / 2)))
            ≡ some x)
          × (a.i2d x ≡ some der))
  unfolding convert_raw_to_der
  encoded raw der dersize e = by_memory a.sig_new _ refl e
    where
      by_text :
          (x : S) (o : Option (List ℕ))
          → (elim o as (λ o. Option (List ℕ)) [
            | none ↦ none
            | some der ↦ if leb (length der) dersize then some der else none
          ])
            ≡ some der
          → o ≡ some der
      by_text x none e = cc
      by_text x (some text) e = ground arith

      by_sig :
          (o : Option S)
          → (elim o as (λ o. Option (List ℕ)) [
            | none ↦ none
            | some x ↦ elim (a.i2d x) [
              | none ↦ none
              | some der ↦ if leb (length der) dersize then some der else none
            ]
          ])
            ≡ some der
          → (x : S) × ((o ≡ some x) × (a.i2d x ≡ some der))
      by_sig none e = cc
      by_sig (some x) e = (x, (refl, by_text x (a.i2d x) e))

      by_memory :
          (memory : Bool) (o : Option S)
          → a.set0
              (a.bin2bn (slice raw 0 (length raw / 2)))
              (a.bin2bn (slice raw (length raw / 2) (length raw / 2)))
            ≡ o
          → (if memory
              then (elim o as (λ o. Option (List ℕ)) [
                | none ↦ none
                | some x ↦ elim (a.i2d x) [
                  | none ↦ none
                  | some der ↦ if leb (length der) dersize then some der else none
                ]
              ])
              else none)
            ≡ some der
          → (x : S) × ((o ≡ some x) × (a.i2d x ≡ some der))
      by_memory true o q e = by_sig o e
      by_memory false o q e = cc

  -- A number that was read from a slice of bytes goes back to its place.
  put_field-slice :
      (raw buf : List ℕ) (k at n : ℕ) (b : B)
      → AreBytes raw
      → k + n ≤ length raw
      → a.bin2bn (slice raw k n) ≡ some b
      → put_field a b at n buf ≡ overwrite buf at (slice raw k n)
  unfolding put_field
  put_field-slice raw buf k at n b are room e =
      let back =
        subst (λ l. a.bn2binpad b l ≡ some (slice raw k n)) (length-slice raw k n room)
          (laws.padded (slice raw k n) b (slice-AreBytes raw k n are) e) in
      rw (put_field, back) refl

  two_slices :
      (buf : List ℕ) (n : ℕ) (rs ss : List ℕ)
      → length rs ≡ n
      → length ss ≡ n
      → 2 * n ≤ length buf
      → slice (overwrite (overwrite buf 0 rs) n ss) 0 (2 * n) ≡ rs ++ ss
  two_slices buf n rs ss one two room =
      let sum : 2 * n ≡ length rs + length ss = omega (arith, one, two) in
      ap (slice (overwrite (overwrite buf 0 rs) n ss) 0) sum
      ∙ ap (λ k. slice (overwrite (overwrite buf 0 rs) k ss) 0 (length rs + length ss)) (sym one)
      ∙ slice-overwrite buf rs ss (omega (arith, sum))

  half : (n : ℕ) → (2 * n) / 2 ≡ n
  half n = omega arith

  -- A raw signature of the module, which is of bytes and has two fields that fit into the provider's
  -- buffer, is what verifying it hands to the module, where OpenSSL works as documented: whatever was in
  -- the buffer before, the DER text that signing made of it is turned into the same bytes.
  pub convert_der_to_raw-convert_raw_to_der :
      (raw buf : List ℕ) (dersize flen : ℕ) (der : List ℕ)
      → AreBytes raw
      → length raw ≡ 2 * flen
      → length buf ≡ max_raw_ecc_sig_size
      → 2 * flen ≤ max_raw_ecc_sig_size
      → convert_raw_to_der a raw dersize ≡ some der
      → (back : List ℕ) × ((convert_der_to_raw a der buf flen ≡ some back)
          × (slice back 0 (2 * flen) ≡ raw))
  unfolding convert_der_to_raw
  convert_der_to_raw-convert_raw_to_der raw buf dersize flen der are size room fits e =
      let (x, (made, text)) = encoded raw der dersize e in
      let fields = ap (λ n. n / 2) size ∙ half flen in
      let (r_of, s_of) = laws.numbers _ _ x made in
      let (y, (decodes, kept)) = laws.decoded x der text in
      let r = (a.get0 y).0 in
      let s = (a.get0 y).1 in
      let r_of' : a.bin2bn (slice raw 0 flen) ≡ some r =
        subst (λ n. a.bin2bn (slice raw 0 n) ≡ some (a.get0 x).0) fields r_of
        ∙ ap (λ p. some (p.0)) (sym kept) in
      let s_of' : a.bin2bn (slice raw flen flen) ≡ some s =
        subst (λ n. a.bin2bn (slice raw n n) ≡ some (a.get0 x).1) fields s_of
        ∙ ap (λ p. some (p.1)) (sym kept) in
      let first = put_field-slice raw buf 0 0 flen r are (omega (arith, size)) r_of' in
      let second =
        put_field-slice raw (overwrite buf 0 (slice raw 0 flen)) flen flen flen s are
          (omega (arith, size)) s_of' in
      let known = both_fields flen size in
      let usable : (flen == unavailable || ltb (length buf) (2 * flen)) ≡ false =
        ground (arith, room, fits) in
      let back = put_field a s flen flen (put_field a r 0 flen buf) in
      let same : back ≡ overwrite (overwrite buf 0 (slice raw 0 flen)) flen (slice raw flen flen) =
        ap (put_field a s flen flen) first ∙ second in
      (back, (rw (usable, decodes) refl, ap (λ l. slice l 0 (2 * flen)) same ∙ known))
    where
      both_fields :
          (n : ℕ)
          → length raw ≡ 2 * n
          → slice (overwrite (overwrite buf 0 (slice raw 0 n)) n (slice raw n n)) 0 (2 * n) ≡ raw
      both_fields n l =
          let one = length-slice raw 0 n (omega (arith, l)) in
          let two = length-slice raw n n (omega (arith, l)) in
          let put =
            two_slices buf n (slice raw 0 n) (slice raw n n) one two
              (omega (arith, l, room, fits, size)) in
          let length_of : n + n ≡ length raw = omega (arith, l) in
          let whole : slice raw 0 (n + n) ≡ raw = ap (slice raw 0) length_of ∙ slice_all raw in
          let joined = slice-next raw n n (omega (arith, l)) in put ∙ joined ∙ whole
