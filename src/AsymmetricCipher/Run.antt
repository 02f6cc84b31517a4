-- ===== src/AsymmetricCipher/Run.antt =====
-- src/asymmetric_cipher.c: RSA encryption and decryption.
pub mod Rooms
pub mod Answers
pub mod Ledger
use pkcs11_provider.Base.{
  ℕ, Bool, true, false, not, ◌&&◌, ◌||◌, Option, none, some, List, ltb, ◌==◌, if◌then◌else◌, length,
}
use pkcs11_provider.Codes.{unavailable, invalid_handle}
use pkcs11_provider.Codes.Rv
use pkcs11_provider.AsymmetricCipher.{max_master_key_length, decrypt_pkcs1}
use pkcs11_provider.AsymmetricCipher.Context.{
  Context, Params, set_ctx_params, set_mechanism, rsa_pkcs,
}

-- `CKO_PRIVATE_KEY`.
abbrev private_key_class : ℕ
private_key_class = 3

-- What the code asks of its surroundings, over an unknown state `W`: keys, sessions, the module's calls
-- and memory. A session and a key are numbers, and `none` is the null pointer. A call that decrypts is
-- given the length of the buffer and the size that the module is told, and leaves the buffer's bytes
-- and the size that the module reports.
pub record Token (W : Type 0) : Type 0 where
  pub status : W → ℕ × W
  pub obj_ref : Option ℕ → W → Option ℕ × W
  pub get_class : Option ℕ → W → ℕ
  pub key_size : Option ℕ → W → ℕ
  pub get_handle : Option ℕ → W → ℕ × W
  pub always_authenticate : Option ℕ → W → Bool
  pub try_session_ref : Option ℕ → ℕ → Bool → W → ℕ × ℕ × W
  pub return_session : Option ℕ → W → W
  pub context_specific_login : ℕ → W → ℕ × W
  pub encrypt_init : ℕ → ℕ → ℕ → W → ℕ × W
  pub encrypt : ℕ → List ℕ → ℕ → W → ℕ × List ℕ × W
  pub decrypt_init : ℕ → ℕ → ℕ → W → ℕ × W
  pub decrypt : ℕ → List ℕ → ℕ → ℕ → W → ℕ × List ℕ × ℕ × W
  pub zalloc : ℕ → W → Bool × W
  pub rand_priv_bytes : ℕ → W → Bool × List ℕ × W

-- The result as an `int`, the bytes in `out`, and `*outlen`, if it is written.
pub record Reply : Type 0 where
  pub result : ℕ
  pub out : Option (List ℕ)
  pub outlen : Option ℕ

abbrev failed : Reply
failed = record { result = 0; out = none; outlen = none }

module _ {W : Type 0} (t : Token W) where
  module _ (same : List ℕ → List ℕ → Bool) where
    pub encrypt_init : Option ℕ → Option Params → Context → W → Bool × Context × W
    encrypt_init key params c w =
        let (status, w1) = t.status w in
        let (ref, w2) = t.obj_ref key w1 in
        let c1 = record c { key = ref } in
        let (done, c2) = set_ctx_params same params c1 in
        if status == Rv.ok
        then elim ref [ none ↦ (false, c1, w2) | some k ↦ (done, c2, w2) ]
        else (false, c, w1)

    pub decrypt_init : Option ℕ → Option Params → Context → W → Bool × Context × W
    decrypt_init key params c w =
        let (status, w1) = t.status w in
        let (ref, w2) = t.obj_ref key w1 in
        let c1 = record c { key = ref } in
        let (done, c2) = set_ctx_params same params c1 in
        let class = t.get_class ref w2 in
        if status == Rv.ok
        then elim ref [
          | none ↦ (false, c1, w2)
          | some k ↦ if class == private_key_class then (done, c2, w2) else (false, c1, w2)
        ]
        else (false, c, w1)

  -- On a session, with the size that `*outlen` has.
  encrypt_on : ℕ → ℕ → ℕ → ℕ → List ℕ → W → Reply × W
  encrypt_on s mechanism handle size input w =
      let (ret, w1) = t.encrypt_init s mechanism handle w in
      let (ret', out, w2) = t.encrypt s input size w1 in
      if ret == Rv.ok
      then (if ret' == Rv.ok
          then (record { result = 1; out = some out; outlen = some (length out) }, w2)
          else (failed, w2))
      else (failed, w1)

  -- Into a buffer, if there is one, of the size that `*outlen` has.
  pub encrypt : Option ℕ → List ℕ → Context → W → Reply × Context × W
  unfolding encrypt_on
  encrypt none input c w =
      let size = t.key_size c.key w in
      (
        if size == unavailable
            then failed
            else record { result = 1; out = none; outlen = some size },
        c,
        w,
      )
  encrypt (some outsize) input c w =
      let (handle, w1) = t.get_handle c.key w in
      let (mechanism, c1) = set_mechanism c in
      let (ret, s, w2) = t.try_session_ref c.key mechanism false w1 in
      let (reply, w3) = encrypt_on s mechanism handle outsize input w2 in
      if handle == invalid_handle
      then (failed, c, w1)
      else (if ret == Rv.ok then (reply, c1, t.return_session (some s) w3) else (failed, c1, w2))

  -- A PKCS#1 decryption, for TLS into a buffer of its own. `none` is a read outside that buffer.
  decrypt_padded : ℕ → ℕ → ℕ → List ℕ → Context → W → Option (Reply × W)
  decrypt_padded s outsize key_size input c w =
      let tls = c.tls_padding.enabled in
      let room = if tls then key_size else outsize in
      let (ret, buf, size, w1) = t.decrypt s input room room w in
      let (seeded, randbuf, w2) = t.rand_priv_bytes max_master_key_length w1 in
      elim (decrypt_pkcs1 c.tls_padding seeded randbuf ret buf size) [
        | none ↦ none
        | some (result, copied, outlen) ↦ some (
          record { result = result; out = if tls then copied else some buf; outlen = outlen },
          if tls then w2 else w1,
        )
      ]

  -- A decryption with another mechanism, straight into `out`; the size that the module is told is that
  -- of the key where the padding is one for TLS.
  decrypt_plain : ℕ → ℕ → ℕ → List ℕ → Context → W → Reply × W
  decrypt_plain s outsize key_size input c w =
      let (ret, buf, size, w1) =
        t.decrypt s input outsize (if c.tls_padding.enabled then key_size else outsize) w in
      (
        if ret == Rv.ok then record { result = 1; out = some buf; outlen = some size } else failed,
        w1,
      )

  -- On a session that is to be returned behind it.
  decrypt_on : ℕ → ℕ → ℕ → ℕ → ℕ → List ℕ → Context → W → Option (Reply × W)
  unfolding decrypt_padded decrypt_plain
  decrypt_on s mechanism handle outsize key_size input c w =
      let (ret, w1) = t.decrypt_init s mechanism handle w in
      let (ret', w2) = t.context_specific_login s w1 in
      let always = t.always_authenticate c.key w1 in
      let w3 = if always then w2 else w1 in
      let padded = decrypt_padded s outsize key_size input c w3 in
      let plain = decrypt_plain s outsize key_size input c w3 in
      if not (ret == Rv.ok)
      then some (failed, w1)
      else (if always && not (ret' == Rv.ok)
          then some (failed, w2)
          else (if mechanism == rsa_pkcs then padded else some plain))

  -- Behind the checks of the sizes and the buffer for TLS.
  decrypt_with : ℕ → ℕ → List ℕ → Context → W → Option (Reply × Context × W)
  unfolding decrypt_on
  decrypt_with outsize key_size input c w =
      let (handle, w1) = t.get_handle c.key w in
      let (mechanism, c1) = set_mechanism c in
      let (ret, s, w2) = t.try_session_ref c.key mechanism true w1 in
      let ended : Option (Reply × Context × W) =
        elim (decrypt_on s mechanism handle outsize key_size input c1 w2) [
          | none ↦ none
          | some (reply, w3) ↦ some (reply, c1, t.return_session (some s) w3)
        ] in
      if handle == invalid_handle
      then some (failed, c, t.return_session none w1)
      else (if ret == Rv.ok then ended else some (failed, c1, t.return_session none w2))

  -- Into a buffer with a size, if there is one.
  unfoldable pub decrypt : Option ℕ → List ℕ → Context → W → Option (Reply × Context × W)
  unfolding decrypt_with
  decrypt none input c w =
      let size = t.key_size c.key w in
      let known = if c.tls_padding.enabled then max_master_key_length else size in
      some (
        if size == unavailable
            then failed
            else record { result = 1; out = none; outlen = some known },
        c,
        w,
      )
  decrypt (some outsize) input c w =
      let size = t.key_size c.key w in
      let tls = c.tls_padding.enabled in
      let (room, w1) = t.zalloc size w in
      let with_buffer = decrypt_with outsize size input c w1 in
      let without = decrypt_with outsize size input c w in
      let too_small = ltb outsize size && (not tls || ltb outsize max_master_key_length) in
      if size == unavailable || too_small
      then some (failed, c, w)
      else (if tls then (if room then with_buffer else some (failed, c, w1)) else without)
