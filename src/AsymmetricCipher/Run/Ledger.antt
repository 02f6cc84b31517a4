-- ===== src/AsymmetricCipher/Run/Ledger.antt =====
-- The sessions and the buffers of src/asymmetric_cipher.c.
use pkcs11_provider.Base.{
  ℕ, ◌+◌, ◌-◌, ◌≤◌, ◌≡◌, refl, ap, ◌∙◌, ◌≢◌, inl, inr, Bool, true, false, not, ◌&&◌, ◌||◌, Option,
  none, some, List, arith, ltb, ◌==◌, if◌then◌else◌, Bool-cases, length,
}
use pkcs11_provider.Codes.{unavailable, invalid_handle}
use pkcs11_provider.AsymmetricCipher.Context.{rsa_pkcs, set_mechanism}
use pkcs11_provider.Codes.Rv
use pkcs11_provider.AsymmetricCipher.{max_master_key_length, decrypt_pkcs1}
use pkcs11_provider.AsymmetricCipher.Run.{
  Token, encrypt, decrypt, decrypt_padded, decrypt_on, Context, decrypt_plain, Reply, decrypt_with,
  encrypt_on,
}
use pkcs11_provider.AsymmetricCipher.Run.Answers.{Yields, decrypt_pkcs1-Yields}

-- `held` counts the sessions that are taken and not given back: only a request takes one, when it
-- succeeds, and only `return_session` gives one back. The module leaves a buffer at its length.
pub record Counts {W : Type 0} (t : Token W) (held : W → ℕ) : Type 0 where
  pub handle_held : (k : Option ℕ) (w : W) → held (t.get_handle k w).1 ≡ held w
  pub taken :
      (k : Option ℕ) (m : ℕ) (l : Bool) (w : W)
      → (t.try_session_ref k m l w).0 ≡ Rv.ok
      → held (t.try_session_ref k m l w).2 ≡ held w + 1
  pub not_taken :
      (k : Option ℕ) (m : ℕ) (l : Bool) (w : W)
      → (t.try_session_ref k m l w).0 ≢ Rv.ok
      → held (t.try_session_ref k m l w).2 ≡ held w
  pub returned : (s : ℕ) (w : W) → held (t.return_session (some s) w) ≡ held w - 1
  pub none_returned : (w : W) → held (t.return_session none w) ≡ held w
  pub login_held : (s : ℕ) (w : W) → held (t.context_specific_login s w).1 ≡ held w
  pub encrypt_init_held : (s m k : ℕ) (w : W) → held (t.encrypt_init s m k w).1 ≡ held w
  pub encrypt_held : (s : ℕ) (i : List ℕ) (n : ℕ) (w : W) → held (t.encrypt s i n w).2 ≡ held w
  pub decrypt_init_held : (s m k : ℕ) (w : W) → held (t.decrypt_init s m k w).1 ≡ held w
  pub decrypt_held : (s : ℕ) (i : List ℕ) (n r : ℕ) (w : W) → held (t.decrypt s i n r w).3 ≡ held w
  pub filled : (s : ℕ) (i : List ℕ) (n r : ℕ) (w : W) → length (t.decrypt s i n r w).1 ≡ n
  pub zalloc_held : (n : ℕ) (w : W) → held (t.zalloc n w).1 ≡ held w
  pub rand_held : (n : ℕ) (w : W) → held (t.rand_priv_bytes n w).2 ≡ held w

module _ {W : Type 0} (t : Token W) (held : W → ℕ) (laws : Counts t held) where
  decrypt_padded-held :
      (s outsize key_size : ℕ) (input : List ℕ) (c : Context) (w : W)
      → max_master_key_length ≤ key_size
      → Yields (decrypt_padded t s outsize key_size input c w) (λ r. held r.1 ≡ held w)
  unfolding decrypt_padded
  decrypt_padded-held s outsize key_size input c w large =
      let tls = c.tls_padding.enabled in
      let room = if tls then key_size else outsize in
      let (ret, buf, size, w1) = t.decrypt s input room room w in
      let (seeded, randbuf, w2) = t.rand_priv_bytes max_master_key_length w1 in
      let long = laws.filled s input room room w in
      let e1 = laws.decrypt_held s input room room w in
      let e2 = laws.rand_held max_master_key_length w1 in
      let kept : held (if tls then w2 else w1) ≡ held w = ground (arith, e1, e2) in
      by_end tls buf (if tls then w2 else w1)
        (decrypt_pkcs1 c.tls_padding seeded randbuf ret buf size) kept
        (decrypt_pkcs1-Yields c.tls_padding seeded randbuf ret buf size
          (λ e. omega (arith, long, large, ap (λ b. if b then key_size else outsize) e)))
    where
      by_end :
          (tls : Bool) (buf : List ℕ) (v : W) (o : Option (ℕ × Option (List ℕ) × Option ℕ))
          → held v ≡ held w
          → Yields o (λ r. Unit)
          → Yields
              (elim o as (λ o. Option (Reply × W)) [
                | none ↦ none
                | some (result, copied, outlen) ↦ some (
                  record {
                    result = result;
                    out = if tls then copied else some buf;
                    outlen = outlen;
                  },
                  v,
                )
              ])
              (λ r. held r.1 ≡ held w)
      by_end tls buf v none e y = y
      by_end tls buf v (some (result, copied, outlen)) e y = e

  decrypt_on-held :
      (s mechanism handle outsize key_size : ℕ) (input : List ℕ) (c : Context) (w : W)
      → max_master_key_length ≤ key_size
      → Yields (decrypt_on t s mechanism handle outsize key_size input c w) (λ r. held r.1 ≡ held w)
  unfolding decrypt_on decrypt_plain
  decrypt_on-held s mechanism handle outsize key_size input c w large =
      let (ret, w1) = t.decrypt_init s mechanism handle w in
      let (ret', w2) = t.context_specific_login s w1 in
      let always = t.always_authenticate c.key w1 in
      let w3 = if always then w2 else w1 in
      let e1 = laws.decrypt_init_held s mechanism handle w in
      let e2 = laws.login_held s w1 in
      let e3 : held w3 ≡ held w = ground (arith, e1, e2) in
      let told = if c.tls_padding.enabled then key_size else outsize in
      let plain = laws.decrypt_held s input outsize told w3 in
      let padded = decrypt_padded-held s outsize key_size input c w3 large in
      elim (Bool-cases (ret == Rv.ok)) [
        | inr bad ↦ rw bad e1
        | inl good ↦ elim (Bool-cases (always && not (ret' == Rv.ok))) [
          | inl refused ↦ rw (good, refused) (e2 ∙ e1)
          | inr allowed ↦ elim (Bool-cases (mechanism == rsa_pkcs)) [
            | inl pkcs ↦
                rw (good, allowed, pkcs)
                  (by_result (decrypt_padded t s outsize key_size input c w3) e3 padded)
            | inr more ↦ rw (good, allowed, more) (plain ∙ e3)
          ]
        ]
      ]
    where
      by_result :
          {v : W} (o : Option (Reply × W))
          → held v ≡ held w
          → Yields o (λ r. held r.1 ≡ held v)
          → Yields o (λ r. held r.1 ≡ held w)
      by_result none e y = y
      by_result (some r) e y = y ∙ e

  decrypt_with-held :
      (outsize key_size : ℕ) (input : List ℕ) (c : Context) (w : W)
      → max_master_key_length ≤ key_size
      → Yields (decrypt_with t outsize key_size input c w) (λ r. held r.2 ≡ held w)
  unfolding decrypt_with
  decrypt_with-held outsize key_size input c w large =
      let (handle, w1) = t.get_handle c.key w in
      let (mechanism, c1) = set_mechanism c in
      let (ret, s, w2) = t.try_session_ref c.key mechanism true w1 in
      let e1 = laws.handle_held c.key w in
      let ended = decrypt_on-held s mechanism handle outsize key_size input c1 w2 large in
      elim (Bool-cases (handle == invalid_handle)) [
        | inl bad ↦ rw bad (laws.none_returned w1 ∙ e1)
        | inr there ↦ elim (Bool-cases (ret == Rv.ok)) [
          | inl good ↦
              let more = laws.taken c.key mechanism true w1 (ground arith) in
              rw (there, good)
                (by_result s c1 (decrypt_on t s mechanism handle outsize key_size input c1 w2)
                  (omega (arith, more, e1)) ended)
          | inr bad ↦
              let same = laws.not_taken c.key mechanism true w1 (ground arith) in
              rw (there, bad) (laws.none_returned w2 ∙ same ∙ e1)
        ]
      ]
    where
      by_result :
          (s : ℕ) (c1 : Context) {v : W} (o : Option (Reply × W))
          → held v ≡ held w + 1
          → Yields o (λ r. held r.1 ≡ held v)
          → Yields
              (elim o as (λ o. Option (Reply × Context × W)) [
                | none ↦ none
                | some (reply, w3) ↦ some (reply, c1, t.return_session (some s) w3)
              ])
              (λ r. held r.2 ≡ held w)
      by_result s c1 none e y = y
      by_result s c1 (some (reply, w3)) e y = omega (arith, laws.returned s w3, y, e)

  -- A decryption with a key of 48 bytes or more ends with an answer, and reads nothing outside its
  -- buffers: where sessions are taken and given back only by the request and `p11prov_return_session`
  -- and the module leaves buffers at their length, as many are taken behind it as before, whichever step
  -- failed.
  pub decrypt-held :
      (out : Option ℕ) (input : List ℕ) (c : Context) (w : W)
      → max_master_key_length ≤ t.key_size c.key w
      → Yields (decrypt t out input c w) (λ r. held r.2 ≡ held w)
  unfolding decrypt
  decrypt-held none input c w large = refl
  decrypt-held (some outsize) input c w large =
      let size = t.key_size c.key w in
      let tls = c.tls_padding.enabled in
      let (room, w1) = t.zalloc size w in
      let e = laws.zalloc_held size w in
      let buffered = decrypt_with-held outsize size input c w1 large in
      let direct = decrypt_with-held outsize size input c w large in
      by_tests
        (size == unavailable
          || (ltb outsize size && (not tls || ltb outsize max_master_key_length)))
        tls room w1 (decrypt_with t outsize size input c w1) (decrypt_with t outsize size input c w)
        e buffered direct
    where
      by_result :
          {v : W} (o : Option (Reply × Context × W))
          → held v ≡ held w
          → Yields o (λ r. held r.2 ≡ held v)
          → Yields o (λ r. held r.2 ≡ held w)
      by_result none e y = y
      by_result (some r) e y = y ∙ e

      by_tests :
          (small tls room : Bool) (v : W) (o o' : Option (Reply × Context × W))
          → held v ≡ held w
          → Yields o (λ r. held r.2 ≡ held v)
          → Yields o' (λ r. held r.2 ≡ held w)
          → Yields
              (if small
                then some (record { result = 0; out = none; outlen = none }, c, w)
                else (if tls
                    then (if room
                        then o
                        else some (record { result = 0; out = none; outlen = none }, c, v))
                    else o'))
              (λ r. held r.2 ≡ held w)
      by_tests true tls room v o o' e y y' = refl
      by_tests false true true v o o' e y y' = by_result o e y
      by_tests false true false v o o' e y y' = e
      by_tests false false room v o o' e y y' = y'

  encrypt_on-held :
      (s mechanism handle size : ℕ) (input : List ℕ) (w : W)
      → held (encrypt_on t s mechanism handle size input w).1 ≡ held w
  unfolding encrypt_on
  encrypt_on-held s mechanism handle size input w =
      let e1 = laws.encrypt_init_held s mechanism handle w in
      let e2 = laws.encrypt_held s input size (t.encrypt_init s mechanism handle w).1 in
      ground (arith, e1, e2)

  -- An encryption gives its session back on every path, where sessions are taken only by
  -- `p11prov_try_session_ref` and given back only by `p11prov_return_session`.
  pub encrypt-held :
      (out : Option ℕ) (input : List ℕ) (c : Context) (w : W)
      → held (encrypt t out input c w).2 ≡ held w
  unfolding encrypt
  encrypt-held none input c w = refl
  encrypt-held (some outsize) input c w =
      let (handle, w1) = t.get_handle c.key w in
      let (mechanism, c1) = set_mechanism c in
      let (ret, s, w2) = t.try_session_ref c.key mechanism false w1 in
      let e1 = laws.handle_held c.key w in
      let (reply, w3) = encrypt_on t s mechanism handle outsize input w2 in
      let e3 = encrypt_on-held s mechanism handle outsize input w2 in
      elim (Bool-cases (handle == invalid_handle)) [
        | inl bad ↦ rw bad e1
        | inr there ↦ elim (Bool-cases (ret == Rv.ok)) [
          | inl good ↦
              let more = laws.taken c.key mechanism false w1 (ground arith) in
              rw (there, good) (omega (arith, laws.returned s w3, e3, more, e1))
          | inr bad ↦ rw (there, bad) (laws.not_taken c.key mechanism false w1 (ground arith) ∙ e1)
        ]
      ]
