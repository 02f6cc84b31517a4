-- ===== src/Cipher/Run/Padded.antt =====
-- The padding that `update` adds to a TLS record, and what `tlsunpad` makes of it.
use pkcs11_provider.Base.{
  ℕ, zero, suc, ◌+◌, ◌-◌, ◌%◌, ◌^◌, ◌≤◌, ◌<◌, ◌≡◌, refl, sym, ap, subst, ◌∙◌, true, some, List, [],
  ◌∷◌, ◌++◌, arith, length, replicate, length-append, length-replicate, AreBytes,
}
use pkcs11_provider.Codes.Rv
use pkcs11_provider.Cipher.Unpad.Answer.{iv_size}
use pkcs11_provider.Cipher.Unpad.{aes_block, Chance, tlsunpad}
use pkcs11_provider.Cipher.Unpad.Records.{record_of, tlsunpad-record_of}
use pkcs11_provider.Cipher.Run.{tls_padding}

-- The padding is full: its last byte counts those before it.
replicate-end : (n v : ℕ) → replicate (suc n) v ≡ replicate n v ++ (v ∷ [])
replicate-end zero v = refl
replicate-end (suc n) v = ap (◌∷◌ v) (replicate-end n v)

append_assoc : (xs ys zs : List ℕ) → (xs ++ ys) ++ zs ≡ xs ++ (ys ++ zs)
append_assoc [] ys zs = refl
append_assoc (x ∷ xs) ys zs = ap (◌∷◌ x) (append_assoc xs ys zs)

AreBytes-append : (xs ys : List ℕ) → AreBytes xs → AreBytes ys → AreBytes (xs ++ ys)
AreBytes-append [] ys a b = b
AreBytes-append (x ∷ xs) ys a b = (a.0, AreBytes-append xs ys a.1 b)

AreBytes-replicate : (n v : ℕ) → v < 256 → AreBytes (replicate n v)
AreBytes-replicate zero v l = tt
AreBytes-replicate (suc n) v l = (l, AreBytes-replicate n v l)

-- The number of the bytes that are added, without the last.
abbrev pub pad_count : ℕ → ℕ
pad_count inlen = aes_block - inlen % aes_block - 1

abbrev pub padded_length : ℕ → ℕ
padded_length inlen = inlen + (aes_block - inlen % aes_block)

tls_padding_lem :
    (inlen : ℕ)
    → tls_padding inlen ≡ replicate (pad_count inlen) (pad_count inlen) ++ (pad_count inlen ∷ [])
unfolding tls_padding
tls_padding_lem inlen =
    let n = pad_count inlen in
    let e : aes_block - inlen % aes_block ≡ suc n = omega arith in
    let d : suc n - 1 ≡ n = omega arith in
    ap (λ k. replicate k (k - 1)) e ∙ ap (replicate (suc n)) d ∙ replicate-end n n

module _ (iv body mac : List ℕ) where
  abbrev pub plain : List ℕ
  plain = iv ++ (body ++ mac)

  abbrev padding : List ℕ
  padding = replicate (pad_count (length plain)) (pad_count (length plain))

  length-padding : length padding ≡ pad_count (length plain)
  length-padding = length-replicate (pad_count (length plain)) (pad_count (length plain))

  padded_lem : plain ++ tls_padding (length plain) ≡ record_of iv body mac padding (length padding)
  padded_lem =
      let n = pad_count (length plain) in
      let tail = padding ++ (n ∷ []) in
      rw (tls_padding_lem (length plain), length-padding)
        (append_assoc iv (body ++ mac) tail ∙ ap (λ r. iv ++ r) (append_assoc body mac tail))

  length-padded : length (plain ++ tls_padding (length plain)) ≡ padded_length (length plain)
  unfolding tls_padding
  length-padded =
      let n = aes_block - length plain % aes_block in
      omega (arith, length-append plain (replicate n (n - 1)), length-replicate n (n - 1))

  AreBytes-padded : AreBytes plain → AreBytes (plain ++ tls_padding (length plain))
  unfolding tls_padding
  AreBytes-padded are =
      let n = aes_block - length plain % aes_block in
      AreBytes-append plain (replicate n (n - 1)) are (AreBytes-replicate n (n - 1) (omega arith))

-- `tlsunpad` on such a record.
pub tlsunpad-padded :
    (iv body mac : List ℕ) (chance : Chance) (tlsver outlen : ℕ)
    → chance.room ≡ true
    → chance.seeded ≡ true
    → AreBytes chance.randmac
    → length mac ≤ length chance.randmac
    → length iv ≡ iv_size tlsver
    → 0 < length mac
    → AreBytes (plain iv body mac)
    → length (plain iv body mac) < 2 ^ 61
    → tlsunpad chance tlsver
        (length mac)
        (plain iv body mac ++ tls_padding (length (plain iv body mac)))
        (padded_length (length (plain iv body mac)))
        outlen
      ≡ some (Rv.ok, length body, some mac)
tlsunpad-padded iv body mac chance tlsver outlen room seeded random enough explicit some_mac are
      small =
    let shape = padded_lem iv body mac in
    let size = length-padded iv body mac in
    let r = record_of iv body mac (padding iv body mac) (length (padding iv body mac)) in
    let size' : length r ≡ padded_length (length (plain iv body mac)) =
      sym (ap length shape) ∙ size in
    rw (shape, ← size')
      (tlsunpad-record_of chance tlsver iv body mac (padding iv body mac) outlen room seeded random
        enough explicit some_mac (subst AreBytes shape (AreBytes-padded iv body mac are))
        (omega (arith, size')) (omega (arith, size')))
