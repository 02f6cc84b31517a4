-- ===== src/Cipher/Run/Safe.antt =====
-- Sending data reads nothing outside the buffer.
use pkcs11_provider.Base.{
  ℕ, ◌-◌, ◌%◌, ◌^◌, ◌≤◌, ◌<◌, inl, inr, not, ◌&&◌, Option, none, some, List, [], arith, ◌==◌,
  Bool-cases, length, get_elem?-lt, AreBytes,
}
use pkcs11_provider.Codes.Rv
use pkcs11_provider.Cipher.Params.{Context, ckf_encrypt, ckf_decrypt, evp_max_md_size}
use pkcs11_provider.Cipher.Params.Kept.{IsSmall}
use pkcs11_provider.Cipher.Token.{Token}
use pkcs11_provider.Cipher.Init.{session_init}
use pkcs11_provider.Cipher.Init.Kept.{session_init-IsSmall}
use pkcs11_provider.Cipher.Unpad.{aes_block}
use pkcs11_provider.Cipher.Unpad.Answer.{tlsunpad_lem}
use pkcs11_provider.Cipher.Run.{
  Chunk, Done, update, run, tls_decrypt, after_unpad, is_record, run_started,
}

abbrev pub IsSome : {W : Type 0} → Option (Done W) → Type 0
IsSome none = ⊥
IsSome (some d) = Unit

-- The module leaves a whole buffer of bytes, and `RAND_bytes_ex` fills the buffer for the MAC.
pub record Fills {W : Type 0} (t : Token W) : Type 0 where
  pub long : (s : ℕ) (i : List ℕ) (n : ℕ) (w : W) → n ≤ length (t.decrypt s i n w).0.out
  pub bytes : (s : ℕ) (i : List ℕ) (n : ℕ) (w : W) → AreBytes (t.decrypt s i n w).0.out
  pub random : (w : W) → AreBytes (t.chance w).0.randmac
  pub enough : (w : W) → evp_max_md_size ≤ length (t.chance w).0.randmac

module _ {W : Type 0} (t : Token W) (fills : Fills t) (k : Chunk) (real : 0 < k.inlen)
    (little : k.inlen < 2 ^ 62) (fits : k.inlen ≤ k.outsize) where
  tls_decrypt-IsSome :
      (s : ℕ) (bytes : List ℕ) (c : Context) (w : W)
      → IsSmall c
      → IsSome (tls_decrypt t s bytes k c w)
  unfolding tls_decrypt after_unpad
  tls_decrypt-IsSome s bytes c w small =
      let (o, w1) = t.decrypt s bytes k.outsize w in
      let w2 = t.return_session s w1 in
      let (chance, w3) = t.chance w2 in
      let long = fills.long s bytes k.outsize w in
      let (padsize, last) = get_elem?-lt o.out (k.inlen - 1) (omega (arith, long, real, fits)) in
      elim (Bool-cases (k.inlen % aes_block == 0)) [
        | inr odd ↦ rw odd tt
        | inl whole ↦ elim (Bool-cases (o.rv == Rv.ok)) [
          | inr bad ↦ rw (whole, bad) tt
          | inl good ↦
              let block : aes_block ≤ k.inlen = ground arith in
              let e =
                tlsunpad_lem chance c.tlsmacsize o.out (fills.bytes s bytes k.outsize w)
                  (fills.random w2) (omega (arith, fills.enough w2, small)) o.outlen c.tlsver
                  k.inlen padsize block (omega (arith, long)) little last in
              rw (whole, good, e) tt
        ]
      ]

  run-IsSome : (s : ℕ) (c : Context) (w : W) → IsSmall c → IsSome (run t s k c w)
  unfolding run
  run-IsSome s c w small =
      let bytes : List ℕ = elim k.input [ none ↦ [] | some bytes ↦ bytes ] in
      let i = tls_decrypt-IsSome s bytes c w small in
      elim (Bool-cases (c.operation == ckf_encrypt)) [
        | inl enc ↦ rw enc tt
        | inr not_enc ↦ elim (Bool-cases (c.operation == ckf_decrypt)) [
          | inr neither ↦ rw (not_enc, neither) tt
          | inl dec ↦ elim (Bool-cases (c.tlsver == 0)) [
            | inl plain ↦ rw (not_enc, dec, plain) tt
            | inr tls ↦ rw (not_enc, dec, tls) i
          ]
        ]
      ]

  run_started-IsSome : (rv : ℕ) (c : Context) (w : W) → IsSmall c → IsSome (run_started t rv k c w)
  unfolding run_started
  run_started-IsSome rv c w small = by_session c.session small
    where
      by_session :
          (o : Option ℕ) → IsSmall c → IsSome (run_started t rv k (record c { session = o }) w)
      by_session none small = tt
      by_session (some s) small =
          let i = run-IsSome s (record c { session = some s }) w small in
          elim (Bool-cases (rv == Rv.ok)) [ inr bad ↦ rw bad tt | inl good ↦ rw good i ]

  -- For a context whose MAC is at most as long as the largest digest, where the module leaves a whole
  -- buffer of bytes and there are random bytes for the longest MAC: a call of `update` with at least one
  -- byte and less than 2^62, which fit into the output buffer, reads nothing outside the buffer.
  pub update-IsSome : (c : Context) (w : W) → IsSmall c → IsSome (update t k c w)
  unfolding update
  update-IsSome c w small = elim (Bool-cases (not (c.tlsver == 0) && not (is_record c k))) [
    | inl bad ↦ rw bad tt
    | inr good ↦ rw good (by_session c.session small)
  ]
    where
      by_session :
          (o : Option ℕ)
          → IsSmall c
          → let c' = record c { session = o } in
            let (rv, c1, w1) = session_init t c' w in
            IsSome (elim o [ none ↦ run_started t rv k c1 w1 | some s ↦ run t s k c' w ])
      by_session none small =
          let c' = record c { session = none } in
          let (rv, c1, w1) = session_init t c' w in
          run_started-IsSome rv c1 w1 (session_init-IsSmall t c' w small)
      by_session (some s) small = run-IsSome s (record c { session = some s }) w small
