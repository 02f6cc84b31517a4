-- ===== src/Cipher/Run/RoundTrip.antt =====
-- A TLS record that is encrypted and decrypted again.
use pkcs11_provider.Base.{
  ℕ, ◌%◌, ◌^◌, ◌≤◌, ◌<◌, ◌≡◌, refl, ap, ◌∙◌, true, false, not, ◌&&◌, Option, none, some,
  some-injective, List, ◌++◌, arith, ltb, ◌==◌, if◌then◌else◌, length, AreBytes,
}
use pkcs11_provider.Cipher.Run.Padded.{padded_length, plain, tlsunpad-padded}
use pkcs11_provider.Cipher.Init.{session_init}
use pkcs11_provider.Codes.Rv
use pkcs11_provider.Cipher.Unpad.Answer.{iv_size}
use pkcs11_provider.Cipher.Token.{Token}
use pkcs11_provider.Cipher.Params.{Context, ckf_encrypt, ckf_decrypt}
use pkcs11_provider.Cipher.Unpad.{aes_block, tlsunpad}
use pkcs11_provider.Cipher.Run.{
  tls_padding, Chunk, update, run, is_record, tls_encrypt, tls_decrypt, Done, after_unpad, released,
  run_started,
}

-- A call with a whole record, in place, in a buffer with room for the padding.
abbrev pub record_chunk : List ℕ → ℕ → ℕ → Chunk
record_chunk bytes inlen outsize = record {
  input = some bytes;
  inlen = inlen;
  in_place = true;
  outsize = outsize;
}

-- A context in the middle of a TLS operation.
pub record IsTls (c : Context) (op s tlsver : ℕ) : Type 0 where
  pub session : c.session ≡ some s
  pub operation : c.operation ≡ op
  pub version : c.tlsver ≡ tlsver
  pub pad : c.pad ≡ true

module _ {W : Type 0} (t : Token W) (tlsver : ℕ) (tls : 0 < tlsver) where
  -- What `update` does on such a context is what `run` does.
  update-IsTls :
      (c : Context) (op s inlen outsize : ℕ) (bytes : List ℕ) (w : W)
      → IsTls c op s tlsver
      → inlen ≤ outsize
      → update t (record_chunk bytes inlen outsize) c w
        ≡ run t s (record_chunk bytes inlen outsize) c w
  unfolding update
  update-IsTls c op s inlen outsize bytes w i fits =
      let room : ltb outsize inlen ≡ false = ground arith in
      let taken : is_record c (record_chunk bytes inlen outsize) ≡ true = rw (room, i.pad) refl in
      let passes : (not (c.tlsver == 0) && not (is_record c (record_chunk bytes inlen outsize)))
          ≡ false =
        ground (arith, taken) in
      rw passes (by_session c.session i.session)
    where
      by_session :
          (o : Option ℕ)
          → o ≡ some s
          → let k = record_chunk bytes inlen outsize in
            let (rv, c1, w1) = session_init t c w in
            elim o [ none ↦ run_started t rv k c1 w1 | some s ↦ run t s k c w ] ≡ run t s k c w
      by_session none e = cc
      by_session (some s') e =
          ap (λ n. run t n (record_chunk bytes inlen outsize) c w) (some-injective s' s e)

  encrypt_record :
      (c : Context) (s : ℕ) (bytes : List ℕ) (w : W)
      → IsTls c ckf_encrypt s tlsver
      → length bytes < 2 ^ 61
      → let n = padded_length (length bytes) in
        let (o, w1) = t.encrypt s (bytes ++ tls_padding (length bytes)) n w in
        o.rv ≡ Rv.ok
        → (d : Done W) × (update t (record_chunk bytes (length bytes) n) c w ≡ some d)
          × (d.success ≡ true)
          × (d.out ≡ some o.out)
          × (d.ctx.session ≡ none)
          × (d.world ≡ t.return_session s w1)
  unfolding run tls_encrypt
  encrypt_record c s bytes w i small good =
      let n = padded_length (length bytes) in
      let padded : n % 2 ^ 64 ≡ n = omega arith in
      let room : ltb n n ≡ false = ground arith in
      let whole : (n % aes_block == 0) ≡ true = ground arith in
      let enc : (c.operation == ckf_encrypt) ≡ true = ground (arith, i.operation) in
      let versioned : (c.tlsver == 0) ≡ false = ground (arith, i.version) in
      let (o, w1) = t.encrypt s (bytes ++ tls_padding (length bytes)) n w in
      let ok : (o.rv == Rv.ok) ≡ true = ground (arith, good) in
      let same = update-IsTls c ckf_encrypt s (length bytes) n bytes w i (omega arith) in
      (
        record {
          success = o.rv == Rv.ok;
          outl = if o.rv == Rv.ok then some o.outlen else none;
          out = some o.out;
          ctx = released c;
          world = t.return_session s w1;
        },
        same ∙ rw (enc, versioned, padded, room, whole) refl,
        ok,
        refl,
        refl,
        refl,
      )

  decrypt_record :
      (c : Context) (s : ℕ) (iv body mac cipher : List ℕ) (w : W)
      → IsTls c ckf_decrypt s tlsver
      → c.tlsmacsize ≡ length mac
      → let n = padded_length (length (plain iv body mac)) in
        let (o, w1) = t.decrypt s cipher n w in
        let chance = (t.chance (t.return_session s w1)).0 in
        o.rv ≡ Rv.ok
        → tlsunpad chance tlsver (length mac) o.out n o.outlen ≡ some (Rv.ok, length body, some mac)
        → (d : Done W) × (update t (record_chunk cipher n n) c w ≡ some d)
          × (d.success ≡ true)
          × (d.outl ≡ some (length body))
          × (d.ctx.tlsmac ≡ some mac)
          × (d.ctx.session ≡ none)
          × (d.world ≡ (t.chance (t.return_session s w1)).1)
  unfolding run tls_decrypt after_unpad
  decrypt_record c s iv body mac cipher w i size good unpadded =
      let n = padded_length (length (plain iv body mac)) in
      let whole : (n % aes_block == 0) ≡ true = ground arith in
      let dec : (c.operation == ckf_decrypt) ≡ true = ground (arith, i.operation) in
      let not_enc : (c.operation == ckf_encrypt) ≡ false = ground (arith, i.operation) in
      let versioned : (c.tlsver == 0) ≡ false = ground (arith, i.version) in
      let (o, w1) = t.decrypt s cipher n w in
      let ok : (o.rv == Rv.ok) ≡ true = ground (arith, good) in
      let same = update-IsTls c ckf_decrypt s n n cipher w i (omega arith) in
      (
        record {
          success = true;
          outl = some (length body);
          out = some o.out;
          ctx = record (released c) { tlsmac = some mac };
          world = (t.chance (t.return_session s w1)).1;
        },
        same ∙ rw (not_enc, dec, versioned, whole, ok, i.version, size, unpadded) refl,
        refl,
        refl,
        refl,
        refl,
        refl,
      )

  -- For a TLS record of an IV as long as the version asks, a body and a MAC that is not empty, all bytes,
  -- shorter than 2^61; a context that encrypts and one that decrypts, each with a session and with its
  -- padding on, for the same version and the size of the MAC; where the module encrypts the padded record,
  -- its decryption gives it back, and there is memory and at least as many random bytes as the MAC has:
  -- `update` on the encrypting context with a buffer that has room for the padding succeeds,
  -- and `update` on the decrypting one with what it wrote succeeds, reports the length of the body, keeps
  -- the MAC for OpenSSL. Neither context has a session then: the state behind the first call is that of
  -- giving back its session behind the module's encryption, and the state behind the second that of
  -- giving back its session behind the module's decryption and then drawing the random MAC.
  pub update-update :
      (ce cd : Context) (s s' : ℕ) (iv body mac : List ℕ) (w v : W)
      → IsTls ce ckf_encrypt s tlsver
      → IsTls cd ckf_decrypt s' tlsver
      → cd.tlsmacsize ≡ length mac
      → length iv ≡ iv_size tlsver
      → 0 < length mac
      → AreBytes (plain iv body mac)
      → length (plain iv body mac) < 2 ^ 61
      → let record' = plain iv body mac in
        let n = padded_length (length record') in
        let padded = record' ++ tls_padding (length record') in
        let (e, w1) = t.encrypt s padded n w in
        let d = t.decrypt s' e.out n v in
        let chance = (t.chance (t.return_session s' d.1)).0 in
        e.rv ≡ Rv.ok
        → d.0.rv ≡ Rv.ok
        → d.0.out ≡ padded
        → chance.room ≡ true
        → chance.seeded ≡ true
        → AreBytes chance.randmac
        → length mac ≤ length chance.randmac
        → (de : Done W) × (dd : Done W) × (cipher : List ℕ) × (update t
              (record_chunk record' (length record') n)
              ce
              w
            ≡ some de)
          × (de.success ≡ true)
          × (de.out ≡ some cipher)
          × (de.ctx.session ≡ none)
          × (de.world ≡ t.return_session s w1)
          × (update t (record_chunk cipher n n) cd v ≡ some dd)
          × (dd.success ≡ true)
          × (dd.outl ≡ some (length body))
          × (dd.ctx.tlsmac ≡ some mac)
          × (dd.ctx.session ≡ none)
          × (dd.world ≡ (t.chance (t.return_session s' d.1)).1)
  update-update ce cd s s' iv body mac w v ie id size explicit some_mac are small encrypted
        decrypted back room seeded random enough =
      let r = plain iv body mac in
      let n = padded_length (length r) in
      let e = (t.encrypt s (r ++ tls_padding (length r)) n w).0 in
      let (o, w1) = t.decrypt s' e.out n v in
      let chance = (t.chance (t.return_session s' w1)).0 in
      let unpadded =
        ap (λ (x : List ℕ). tlsunpad chance tlsver (length mac) x n o.outlen) back
        ∙ tlsunpad-padded iv body mac chance tlsver o.outlen room seeded random enough explicit
            some_mac are small in
      let (de, e1, e2, e3, e4, e5) = encrypt_record ce s r w ie small encrypted in
      let (dd, d1, d2, d3, d4, d5, d6) =
        decrypt_record cd s' iv body mac e.out v id size decrypted unpadded in
      (de, dd, e.out, e1, e2, e3, e4, e5, d1, d2, d3, d4, d5, d6)
