-- ===== src/Cipher/Unpad/Records.antt =====
-- `tlsunpad` on a record that is built from its parts.
use pkcs11_provider.Base.{
  ℕ, ◌+◌, ◌-◌, ◌^◌, ◌≤◌, ◌<◌, ◌≡◌, refl, sym, ap, ◌∙◌, true, false, some, List, [], ◌∷◌, ◌++◌,
  arith, ltb, length, get_elem?, length-append, get_elem?-append_right, AreBytes, slice,
  slice-append,
}
use pkcs11_provider.Codes.Rv
use pkcs11_provider.Cipher.Unpad.{Chance, aes_block, tlsunpad}
use pkcs11_provider.Cipher.Unpad.Answer.{iv_size, reference, tlsunpad_lem}

-- The decrypted record: the explicit IV, the data, the MAC, the padding and its length.
abbrev pub record_of : List ℕ → List ℕ → List ℕ → List ℕ → ℕ → List ℕ
record_of iv body mac pad padsize = iv ++ (body ++ (mac ++ (pad ++ (padsize ∷ []))))

module _ (iv body mac pad : List ℕ) (padsize : ℕ) where
  length-record_of :
      length (record_of iv body mac pad padsize)
      ≡ length iv + length body + length mac + length pad + 1
  length-record_of =
      let l1 = length-append iv (body ++ (mac ++ (pad ++ (padsize ∷ [])))) in
      let l2 = length-append body (mac ++ (pad ++ (padsize ∷ []))) in
      let l3 = length-append mac (pad ++ (padsize ∷ [])) in
      omega (arith, l1, l2, l3, length-append pad (padsize ∷ []))

  last-record_of :
      get_elem? (record_of iv body mac pad padsize) (length (record_of iv body mac pad padsize) - 1)
      ≡ some padsize
  last-record_of =
      let tail1 = body ++ (mac ++ (pad ++ (padsize ∷ []))) in
      let e : length (record_of iv body mac pad padsize) - 1
          ≡ length iv + (length body + (length mac + (length pad + 0))) =
        omega (arith, length-record_of) in
      ap (get_elem? (record_of iv body mac pad padsize)) e
      ∙ get_elem?-append_right iv tail1 (length body + (length mac + (length pad + 0)))
      ∙ get_elem?-append_right body (mac ++ (pad ++ (padsize ∷ []))) (length mac + (length pad + 0))
      ∙ get_elem?-append_right mac (pad ++ (padsize ∷ [])) (length pad + 0)
      ∙ get_elem?-append_right pad (padsize ∷ []) 0

  slice-record_of :
      slice (record_of iv body mac pad padsize) (length iv + length body) (length mac) ≡ mac
  slice-record_of =
      let back = append_assoc iv body (mac ++ (pad ++ (padsize ∷ []))) in
      rw (back, ← length-append iv body) (slice-append (iv ++ body) mac (pad ++ (padsize ∷ [])))
    where
      append_assoc : (xs ys zs : List ℕ) → xs ++ (ys ++ zs) ≡ (xs ++ ys) ++ zs
      append_assoc [] ys zs = refl
      append_assoc (x ∷ xs) ys zs = ap (◌∷◌ x) (append_assoc xs ys zs)

-- The padding fits and is taken off.
reference_taken :
    (c : Chance) (tlsver macsize : ℕ) (out : List ℕ) (inlen outlen padsize len : ℕ)
    → c.room ≡ true
    → c.seeded ≡ true
    → 0 < macsize
    → inlen ≡ iv_size tlsver + len + macsize + padsize + 1
    → reference c tlsver macsize out inlen outlen padsize
      ≡ (Rv.ok, len, some (slice out (iv_size tlsver + len) macsize))
unfolding reference
reference_taken c tlsver macsize out inlen outlen padsize len room seeded bare split =
    let off = iv_size tlsver in
    let short : ltb (inlen - off) (macsize + 1) ≡ false = ground (arith, split) in
    let fit : ltb (inlen - off) (macsize + 1 + padsize) ≡ false = ground (arith, split) in
    let some_mac : ltb 0 macsize ≡ true = ground arith in
    let taken : inlen - off - macsize - (padsize + 1) ≡ len = omega (arith, split) in
    rw (short, fit, some_mac, room, seeded, taken) refl

-- For a record of bytes with a MAC, at least a block and less than 2^62 bytes long, whose last byte is
-- the number of padding bytes before it, and where there is memory and randomness: `tlsunpad` takes the
-- padding off and copies the MAC that the record holds, whatever values the padding bytes have.
pub tlsunpad-record_of :
    (c : Chance) (tlsver : ℕ) (iv body mac pad : List ℕ) (outlen : ℕ)
    → c.room ≡ true
    → c.seeded ≡ true
    → AreBytes c.randmac
    → length mac ≤ length c.randmac
    → length iv ≡ iv_size tlsver
    → 0 < length mac
    → AreBytes (record_of iv body mac pad (length pad))
    → aes_block ≤ length (record_of iv body mac pad (length pad))
    → length (record_of iv body mac pad (length pad)) < 2 ^ 62
    → let out = record_of iv body mac pad (length pad) in
      tlsunpad c tlsver (length mac) out (length out) outlen ≡ some (Rv.ok, length body, some mac)
tlsunpad-record_of c tlsver iv body mac pad outlen room seeded random enough explicit bare are long
      small =
    let out = record_of iv body mac pad (length pad) in
    let whole = length-record_of iv body mac pad (length pad) in
    let found =
      tlsunpad_lem c (length mac) out are random enough outlen tlsver (length out) (length pad) long
        (omega arith) small (last-record_of iv body mac pad (length pad)) in
    let taken =
      reference_taken c tlsver (length mac) out (length out) outlen (length pad) (length body) room
        seeded bare (omega (arith, whole, explicit)) in
    let there = slice-record_of iv body mac pad (length pad) in
    found
    ∙ ap some (
        taken
        ∙ ap (λ n. (Rv.ok, length body, some (slice out (n + length body) (length mac))))
            (sym explicit)
        ∙ ap (λ r. (Rv.ok, length body, some r)) there)
