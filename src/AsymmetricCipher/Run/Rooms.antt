-- ===== src/AsymmetricCipher/Run/Rooms.antt =====
-- The sizes that src/asymmetric_cipher.c tells the module.
use pkcs11_provider.Base.{
  ℕ, ◌≤◌, ◌≡◌, refl, sym, ap, subst, inl, inr, Bool, true, false, not, ◌&&◌, Option, none, some,
  List, arith, leb, ◌==◌, if◌then◌else◌, Bool-cases,
}
use pkcs11_provider.Codes.Rv
use pkcs11_provider.Codes.{invalid_handle}
use pkcs11_provider.AsymmetricCipher.{max_master_key_length, decrypt_pkcs1}
use pkcs11_provider.AsymmetricCipher.Context.{
  Context, rsa_pkcs, ckz_data_specified, set_mechanism, rsa_pkcs_oaep,
}
use pkcs11_provider.AsymmetricCipher.Run.{
  Token, decrypt, decrypt_on, decrypt_padded, decrypt_plain, decrypt_with, Reply,
}

-- A module that does what it likes where it is told that a buffer is larger than it is.
abbrev pub wild : {W : Type 0} → Token W → (ℕ → List ℕ → ℕ → ℕ → W → ℕ × List ℕ × ℕ × W) → Token W
wild t f = record t {
  decrypt = λ s i len told w. if leb told len then t.decrypt s i len told w else f s i len told w;
}

-- The padding is not one for TLS, or it is that of PKCS#1.
abbrev pub Sized : Context → Type 0
Sized c = (c.tls_padding.enabled && not (c.mechtype == rsa_pkcs)) ≡ false

module _ {W : Type 0} (t : Token W) (f : ℕ → List ℕ → ℕ → ℕ → W → ℕ × List ℕ × ℕ × W) where
  in_room :
      (s : ℕ) (i : List ℕ) (len told : ℕ) (w : W)
      → told ≤ len
      → (wild t f).decrypt s i len told w ≡ t.decrypt s i len told w
  in_room s i len told w fits = let small : leb told len ≡ true = ground arith in rw small refl

  decrypt_padded-wild :
      (s outsize key_size : ℕ) (input : List ℕ) (c : Context) (w : W)
      → decrypt_padded (wild t f) s outsize key_size input c w
        ≡ decrypt_padded t s outsize key_size input c w
  unfolding decrypt_padded
  decrypt_padded-wild s outsize key_size input c w =
      let room = if c.tls_padding.enabled then key_size else outsize in
      let tls = c.tls_padding.enabled in
      ap
        (λ d.
          let (ret, buf, size, w1) = d in
          let (seeded, randbuf, w2) = t.rand_priv_bytes max_master_key_length w1 in
          elim (decrypt_pkcs1 c.tls_padding seeded randbuf ret buf size)
            as (λ o. Option (Reply × W)) [
              | none ↦ none
              | some (result, copied, outlen) ↦ some (
                record { result = result; out = if tls then copied else some buf; outlen = outlen },
                if tls then w2 else w1,
              )
            ])
        (in_room s input room room w (omega arith))

  decrypt_plain-wild :
      (s outsize key_size : ℕ) (input : List ℕ) (c : Context) (w : W)
      → c.tls_padding.enabled ≡ false
      → decrypt_plain (wild t f) s outsize key_size input c w
        ≡ decrypt_plain t s outsize key_size input c w
  unfolding decrypt_plain
  decrypt_plain-wild s outsize key_size input c w plain =
      let told = if c.tls_padding.enabled then key_size else outsize in
      let same : told ≡ outsize = ground arith in
      rw (decrypt_plain, in_room s input outsize told w (omega (arith, same))) refl

  decrypt_on-wild :
      (s handle outsize key_size : ℕ) (input : List ℕ) (c : Context) (w : W)
      → Sized c
      → decrypt_on (wild t f) s c.mechtype handle outsize key_size input c w
        ≡ decrypt_on t s c.mechtype handle outsize key_size input c w
  unfolding decrypt_on
  decrypt_on-wild s handle outsize key_size input c w sized =
      let v =
        (if t.always_authenticate c.key (t.decrypt_init s c.mechtype handle w).1
          then (t.context_specific_login s (t.decrypt_init s c.mechtype handle w).1).1
          else (t.decrypt_init s c.mechtype handle w).1) in
      let padded = decrypt_padded-wild s outsize key_size input c v in
      elim (Bool-cases (c.mechtype == rsa_pkcs)) [
        | inl pkcs ↦ simp (pkcs, padded) refl
        | inr more ↦
            let plain = decrypt_plain-wild s outsize key_size input c v (ground arith) in
            simp (more, plain) refl
      ]

  decrypt_with-wild :
      (outsize key_size : ℕ) (input : List ℕ) (c : Context) (w : W)
      → Sized c
      → decrypt_with (wild t f) outsize key_size input c w
        ≡ decrypt_with t outsize key_size input c w
  unfolding decrypt_with
  decrypt_with-wild outsize key_size input c w sized =
      let (handle, w1) = t.get_handle c.key w in
      let (mechanism, c1) = set_mechanism c in
      let (ret, s, w2) = t.try_session_ref c.key mechanism true w1 in
      let (kept_mechanism, kept_padding) = by_oaep (c.mechtype == rsa_pkcs_oaep) in
      let sized1 =
        subst (λ m. (c1.tls_padding.enabled && not (m == rsa_pkcs)) ≡ false) (sym kept_mechanism)
          (subst (λ p. (p.enabled && not (c.mechtype == rsa_pkcs)) ≡ false) (sym kept_padding)
            sized) in
      let same =
        subst
          (λ m.
            decrypt_on (wild t f) s m handle outsize key_size input c1 w2
            ≡ decrypt_on t s m handle outsize key_size input c1 w2)
          kept_mechanism (decrypt_on-wild s handle outsize key_size input c1 w2 sized1) in
      ap
        (λ d.
          let ended : Option (Reply × Context × W) = elim d as (λ d. Option (Reply × Context × W)) [
            | none ↦ none
            | some (reply, w3) ↦ some (reply, c1, t.return_session (some s) w3)
          ] in
          if handle == invalid_handle
          then some (record { result = 0; out = none; outlen = none }, c, t.return_session none w1)
          else (if ret == Rv.ok
              then ended
              else some
                  (record { result = 0; out = none; outlen = none }, c1, t.return_session none w2)))
        same
    where
      by_oaep :
          (b : Bool)
          → let c1 = if b then record c { source = ckz_data_specified } else c in
            (c1.mechtype ≡ c.mechtype) × (c1.tls_padding ≡ c.tls_padding)
      by_oaep true = (refl, refl)
      by_oaep false = (refl, refl)

  -- A decryption tells the module no more room than its buffer has, on a context whose padding is not
  -- one for TLS, or is that of PKCS#1: whatever a module does that is told more, the answer, the context
  -- and the state are the same.
  pub decrypt-wild :
      (out : Option ℕ) (input : List ℕ) (c : Context) (w : W)
      → Sized c
      → decrypt (wild t f) out input c w ≡ decrypt t out input c w
  unfolding decrypt
  decrypt-wild none input c w sized = refl
  decrypt-wild (some outsize) input c w sized =
      let size = t.key_size c.key w in
      let (room, w1) = t.zalloc size w in
      let buffered = decrypt_with-wild outsize size input c w1 sized in
      let direct = decrypt_with-wild outsize size input c w sized in simp (buffered, direct) refl
