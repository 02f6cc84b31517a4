-- ===== src/Cipher/Run.antt =====
-- src/cipher.c: data goes through the cipher, and the operation ends.
pub mod Counted
pub mod Safe
pub mod Padded
pub mod RoundTrip
use pkcs11_provider.Base.{
  ℕ, ◌+◌, ◌-◌, ◌%◌, ◌^◌, Bool, false, not, ◌&&◌, Option, none, some, List, [], ◌++◌, ltb, ◌==◌,
  if◌then◌else◌, replicate,
}
use pkcs11_provider.Codes.Rv
use pkcs11_provider.Cipher.Params.{Context, SessionState, ckf_encrypt, ckf_decrypt}
use pkcs11_provider.Cipher.Token.{Token}
use pkcs11_provider.Cipher.Init.{session_init}
use pkcs11_provider.Cipher.Unpad.{Unpadded, aes_block, tlsunpad}

-- A call of `update`: the bytes at `in`, unless it is null, their number, whether `out` is the same
-- pointer, and the size of the output buffer.
pub record Chunk : Type 0 where
  pub input : Option (List ℕ)
  pub inlen : ℕ
  pub in_place : Bool
  pub outsize : ℕ

-- Whether a call succeeds, what it writes to `*outl`, the contents of the output buffer if the module
-- wrote to it, the context and the state of the world.
pub record Done (W : Type 0) : Type 0 where
  pub success : Bool
  pub outl : Option ℕ
  pub out : Option (List ℕ)
  pub ctx : Context
  pub world : W

abbrev declined : {W : Type 0} → Context → W → Done W
declined c w = record { success = false; outl = none; out = none; ctx = c; world = w }

-- The end of a call, with the return value of the module, or of `tlsunpad`, and `outlen`.
abbrev finish : {W : Type 0} → ℕ → ℕ → List ℕ → Context → W → Done W
finish rv outlen out c w = record {
  success = rv == Rv.ok;
  outl = if rv == Rv.ok then some outlen else none;
  out = some out;
  ctx = c;
  world = w;
}

-- A context that has given its session back.
abbrev pub released : Context → Context
released c = record c { session_state = SessionState.sess_finalized; session = none }

-- The padding of a TLS record: its bytes, the number of them included, up to the next block.
pub tls_padding : ℕ → List ℕ
tls_padding inlen = let padsize = aes_block - inlen % aes_block in replicate padsize (padsize - 1)

-- What TLS asks of a call: one record, in place.
abbrev pub is_record : Context → Chunk → Bool
is_record c k = elim k.input [
  | none ↦ false
  | some bytes ↦ k.in_place && not (ltb k.outsize k.inlen) && c.pad
]

-- Behind `tlsunpad`, with the contents of the output buffer.
after_unpad : {W : Type 0} → List ℕ → Context → W → Option Unpadded → Option (Done W)
after_unpad out c w none = none
after_unpad out c w (some (rv, len, mac)) =
    some (finish rv len out (record (released c) { tlsmac = mac }) w)

module _ {W : Type 0} (t : Token W) where
  tls_encrypt : ℕ → List ℕ → Chunk → Context → W → Done W
  unfolding tls_padding
  tls_encrypt s bytes k c w =
      let padsize = aes_block - k.inlen % aes_block in
      let padded = (k.inlen + padsize) % 2 ^ 64 in
      let (o, w1) = t.encrypt s (bytes ++ tls_padding k.inlen) k.outsize w in
      if ltb k.outsize padded
      then declined c w
      else (if not (padded % aes_block == 0)
          then declined c w
          else finish o.rv o.outlen o.out (released c) (t.return_session s w1))

  -- `none` is a read outside the buffer.
  tls_decrypt : ℕ → List ℕ → Chunk → Context → W → Option (Done W)
  unfolding after_unpad
  tls_decrypt s bytes k c w =
      let (o, w1) = t.decrypt s bytes k.outsize w in
      let w2 = t.return_session s w1 in
      let (chance, w3) = t.chance w2 in
      let unpadded = tlsunpad chance c.tlsver c.tlsmacsize o.out k.inlen o.outlen in
      if not (k.inlen % aes_block == 0)
      then some (declined c w)
      else (if not (o.rv == Rv.ok)
          then some (record {
            success = false;
            outl = none;
            out = some o.out;
            ctx = released c;
            world = w2;
          })
          else after_unpad o.out c w3 unpadded)

  -- On a context with a session.
  run : ℕ → Chunk → Context → W → Option (Done W)
  unfolding tls_encrypt tls_decrypt
  run s k c w =
      let (eo, ew) = t.encrypt_update s k.input k.inlen k.outsize w in
      let (de, dw) = t.decrypt_update s k.input k.inlen k.outsize w in
      let bytes : List ℕ = elim k.input [ none ↦ [] | some bytes ↦ bytes ] in
      if c.operation == ckf_encrypt
      then some
          (if c.tlsver == 0 then finish eo.rv eo.outlen eo.out c ew else tls_encrypt s bytes k c w)
      else (if c.operation == ckf_decrypt
          then (if c.tlsver == 0
              then some (finish de.rv de.outlen de.out c dw)
              else tls_decrypt s bytes k c w)
          else some (declined c w))

  -- On a context whose session may be missing, as `session_init` left it when it answered `rv`.
  run_started : ℕ → Chunk → Context → W → Option (Done W)
  unfolding run
  run_started rv k c w = elim c.session [
    | none ↦ some (declined c w)
    | some s ↦ if rv == Rv.ok then run s k c w else some (declined c w)
  ]

  unfoldable pub update : Chunk → Context → W → Option (Done W)
  unfolding run_started
  update k c w =
      let (rv, c1, w1) = session_init t c w in
      if not (c.tlsver == 0) && not (is_record c k)
      then some (declined c w)
      else elim c.session [ none ↦ run_started rv k c1 w1 | some s ↦ run s k c w ]

  -- With the size of the output buffer.
  pub final : ℕ → Context → W → Done W
  final outsize c w = elim c.session [
    | none ↦ declined c w
    | some s ↦
        let (eo, ew) = t.encrypt_final s outsize w in
        let (de, dw) = t.decrypt_final s outsize w in
        if c.operation == ckf_encrypt
        then finish eo.rv eo.outlen eo.out (released c) (t.return_session s ew)
        else (if c.operation == ckf_decrypt
            then finish de.rv de.outlen de.out (released c) (t.return_session s dw)
            else declined (released c) (t.return_session s w))
  ]

  -- An operation that is under way is cancelled; a session where that fails is broken.
  abandon : ℕ → Context → W → W
  abandon s c w =
      let (ret, w1) =
        if c.operation == ckf_encrypt
        then t.encrypt_init s none none w
        else t.decrypt_init s none none w in
      let (ret', w2) = t.session_cancel s c.operation w1 in
      if ret == Rv.ok then w1 else (if ret' == Rv.ok then w2 else t.mark_broken s w2)

  pub freectx : Context → W → W
  unfolding abandon
  freectx c w = t.obj_free c.key (elim c.session [
    | none ↦ w
    | some s ↦ t.return_session s (elim c.session_state [
      | SessionState.sess_initialized ↦ abandon s c w
      | SessionState.sess_unused ↦ w
      | SessionState.sess_finalized ↦ w
    ])
  ])
