-- ===== src/Signature/Ecdsa.antt =====
-- src/sig/ecdsa.c: signatures with keys on elliptic curves.
pub mod Room
pub mod Verify
pub mod EndToEnd
pub mod Owned
pub mod Ledger
use pkcs11_provider.Base.{
  ℕ, ◌+◌, ◌*◌, Bool, true, false, Option, none, some, List, [], ◌∷◌, ◌==◌, if◌then◌else◌, length,
  codes, slice,
}
use pkcs11_provider.Codes.{unavailable}
use pkcs11_provider.Codes.Rv
use pkcs11_provider.Digests.{get_by_name}
use pkcs11_provider.Signature.Token.{Token}
use pkcs11_provider.Signature.Context.{Context, ckf_sign, ckf_verify, op_init}
use pkcs11_provider.Signature.Der.{Asn1, convert_raw_to_der, convert_der_to_raw}
use pkcs11_provider.Signature.Run

-- `CKM_ECDSA`, `CKK_EC` and `RET_OSSL_ERR`.
abbrev pub ckm_ecdsa : ℕ
ckm_ecdsa = 0x1041

abbrev pub ckk_ec : ℕ
ckk_ec = 3

abbrev pub ret_ossl_err : ℕ
ret_ossl_err = 0

-- `ecdsa_mech_map` without its last entry and without the names in DER: a digest and the mechanism.
abbrev pub mech_map : List (ℕ × ℕ)
mech_map =
    (0x220, 0x1042)
    ∷ (0x255, 0x1043)
    ∷ (0x250, 0x1044)
    ∷ (0x260, 0x1045)
    ∷ (0x270, 0x1046)
    ∷ (0x2B5, 0x1047)
    ∷ (0x2B0, 0x1048)
    ∷ (0x2C0, 0x1049)
    ∷ (0x2D0, 0x104A)
    ∷ []

-- The loop of `ecdsa_digest_map`, over the entries that are left.
unfoldable pub find_mech : List (ℕ × ℕ) → ℕ → Option ℕ
find_mech [] digest = none
find_mech ((d, m) ∷ es) digest =
    let rest = find_mech es digest in if d == digest then some m else rest

abbrev pub ecdsa_digest_map : ℕ → Option ℕ
ecdsa_digest_map = find_mech mech_map

unfoldable pub set_mechanism : Context → ℕ × Context
set_mechanism c =
    let raw = record c { mechanism = c.mechtype } in
    let with_digest : ℕ × Context = elim (ecdsa_digest_map c.digest) [
      | none ↦ (Rv.mechanism_invalid, raw)
      | some m ↦ (Rv.ok, record c { mechanism = m })
    ] in
    if c.mechtype == ckm_ecdsa
    then (if c.digest_op then with_digest else (Rv.ok, raw))
    else (Rv.data_invalid, raw)

-- `p11prov_obj_get_key_type` and `p11prov_obj_get_key_size` of src/obj/object.c; a size in bytes.
pub record Keys (W : Type 0) : Type 0 where
  pub key_type : Option ℕ → W → ℕ
  pub key_size : Option ℕ → W → ℕ

-- The parameters of a context, each where it is given, with its value where that can be read.
pub record Params : Type 0 where
  pub digest_param : Option (Option (List ℕ))
  pub signature_param : Option (Option (List ℕ))

-- What a call that signs leaves: nothing, the size that a signature may have, or a signature.
pub data Written : Type 0 where
  nothing : Written
  size : ℕ → Written
  text : List ℕ → Written

-- Where a signature is converted last.
abbrev answer : Option (List ℕ) → Bool × Written
answer none = (false, nothing)
answer (some der) = (true, text der)

-- The bytes of the raw signature, as many as `rawlen` says.
abbrev raw_of : Option (List ℕ) → List ℕ
raw_of none = []
raw_of (some out) = out

-- The digest that is taken where none is named.
abbrev or_sha256 : Option (List ℕ) → List ℕ
or_sha256 none = codes "sha256"
or_sha256 (some digest) = digest

-- `OPENSSL_strcasecmp` against 0.
module _ (same : List ℕ → List ℕ → Bool) where
  set_digest_param : Option (Option (List ℕ)) → Context → Bool × Context
  set_digest_param none c = (true, c)
  set_digest_param (some none) c = (false, c)
  set_digest_param (some (some digest)) c =
      let (rv, found) = get_by_name same digest in
      elim found [ none ↦ (false, c) | some d ↦ (rv == Rv.ok, record c { digest = d }) ]

  set_signature_param : Option (Option (List ℕ)) → Context → Bool × Context
  set_signature_param none c = (true, c)
  set_signature_param (some none) c = (false, record c { signature = none })
  set_signature_param (some (some bytes)) c = (true, record c { signature = some bytes })

  -- No parameters, or the list of them.
  unfoldable pub set_ctx_params : Option Params → Context → Bool × Context
  unfolding set_digest_param set_signature_param
  set_ctx_params none c = (true, c)
  set_ctx_params (some ps) c =
      let (ret, c1) = set_digest_param ps.digest_param c in
      if ret then set_signature_param ps.signature_param c1 else (false, c1)

module _ {W : Type 0} (t : Token W) where
  -- Where the mechanism cannot be set, the code answers `RET_OSSL_ERR` to callers that wait for a
  -- return value of PKCS#11.
  unfoldable pub operate : Run.Operate W
  operate sig sigsize tbs c w =
      let (rv, c1) = set_mechanism c in
      let done = Run.operate t sig sigsize tbs c1 w in
      if rv == Rv.ok then done else (ret_ossl_err, none, c1, w)

  module _ (same : List ℕ → List ℕ → Bool) where
    -- The parameters behind an init call.
    pub init_params : Option Params → ℕ → Context → W → Bool × Context × W
    init_params params ret c w =
        let (done, c1) = set_ctx_params same params c in
        if ret == Rv.ok then (done, c1, w) else (false, c, w)

    pub sign_init : Option ℕ → Option Params → Context → W → Bool × Context × W
    unfolding init_params
    sign_init key params c w =
        let (ret, c1, w1) = op_init t same key ckf_sign none c w in init_params params ret c1 w1

    pub verify_init : Option ℕ → Option Params → Context → W → Bool × Context × W
    unfolding init_params
    verify_init key params c w =
        let (ret, c1, w1) = op_init t same key ckf_verify none c w in init_params params ret c1 w1

    -- With a digest to compute.
    pub begin_digest :
        ℕ → Option (List ℕ) → Option ℕ → Option Params → Context → W → Bool × Context × W
    begin_digest operation digest key params c w =
        let (ret, c1, w1) = op_init t same key operation (some (or_sha256 digest)) c w in
        let (done, c2) = set_ctx_params same params (record c1 { digest_op = true }) in
        if ret == Rv.ok then (done, c2, w1) else (false, c1, w1)

    pub digest_sign_init :
        Option (List ℕ) → Option ℕ → Option Params → Context → W → Bool × Context × W
    unfolding begin_digest
    digest_sign_init = begin_digest ckf_sign

    unfoldable pub digest_verify_init :
        Option (List ℕ) → Option ℕ → Option Params → Context → W → Bool × Context × W
    unfolding begin_digest
    digest_verify_init = begin_digest ckf_verify

  -- `p11prov_ecdsa_digest_sign_update` and `p11prov_ecdsa_digest_verify_update`, which are the same.
  pub digest_update : List ℕ → Context → W → Bool × Context × W
  digest_update bytes c w =
      let (rv, c1) = set_mechanism c in
      let unset = Run.digest_update t bytes c1 w in
      let begun = Run.digest_update t bytes c w in
      if c.mechanism == unavailable then (if rv == Rv.ok then unset else (false, c1, w)) else begun

module _ {W : Type 0} (keys : Keys W) where
  -- The return value and the size, if it is known.
  unfoldable pub sig_size : Context → W → ℕ × Option ℕ
  sig_size c w =
      let bytes = keys.key_size c.key w in
      if keys.key_type c.key w == ckk_ec
      then (if bytes == unavailable
          then (Rv.key_indigestible, none)
          else (Rv.ok, some (3 + (bytes + 4) * 2)))
      else (Rv.key_indigestible, none)

  -- The answer where there is no buffer.
  size_answer : Context → W → Bool × Written
  unfolding sig_size
  size_answer c w =
      let (ret, bytes) = sig_size c w in
      (ret == Rv.ok, elim bytes [ none ↦ nothing | some n ↦ size n ])

  -- Each call has the buffer for a raw signature on its stack, `raw`, with what happens to be there.
  -- `siglen` is not null.
  module _ {B S : Type 0} (a : Asn1 B S) (t : Token W) where
    -- Into a buffer of a size, if there is one.
    unfoldable pub sign : List ℕ → Option ℕ → List ℕ → Context → W → (Bool × Written) × Context × W
    unfolding size_answer
    sign raw none tbs c w = (size_answer c w, c, w)
    sign raw (some sigsize) tbs c w =
        let (ret, out, c1, w1) = operate t (some raw) (length raw) tbs c w in
        (
          if ret == Rv.ok
              then answer (convert_raw_to_der a (raw_of out) sigsize)
              else (false, nothing),
          c1,
          w1,
        )

    unfoldable pub verify : List ℕ → List ℕ → List ℕ → Context → W → Bool × Context × W
    verify raw sig tbs c w =
        let flen = keys.key_size c.key w in
        elim (convert_der_to_raw a sig raw flen) [
          | none ↦ (false, c, w)
          | some bytes ↦
              let (ret, out, c1, w1) =
                operate t (some (slice bytes 0 (2 * flen))) (2 * flen) tbs c w in
              (ret == Rv.ok, c1, w1)
        ]

    module _ (same : List ℕ → List ℕ → Bool) where
      pub digest_sign_final : List ℕ → Option ℕ → Context → W → (Bool × Written) × Context × W
      unfolding size_answer
      digest_sign_final raw none c w = (size_answer c w, c, w)
      digest_sign_final raw (some sigsize) c w =
          let (done, out, c1, w1) =
            Run.digest_final t same (some (operate t)) (some raw) (length raw) c w in
          let converted =
            if done then answer (convert_raw_to_der a (raw_of out) sigsize) else (false, nothing) in
          if sigsize == 0 then ((false, nothing), c, w) else (converted, c1, w1)

      pub digest_verify_final : List ℕ → List ℕ → Context → W → Bool × Context × W
      digest_verify_final raw sig c w =
          let flen = keys.key_size c.key w in
          elim (convert_der_to_raw a sig raw flen) [
            | none ↦ (false, c, w)
            | some bytes ↦
                let (done, out, c1, w1) =
                  Run.digest_final t same (some (operate t)) (some (slice bytes 0 (2 * flen)))
                    (2 * flen) c w in
                (done, c1, w1)
          ]

      pub verify_message_final : List ℕ → Context → W → Bool × Context × W
      unfolding digest_verify_final
      verify_message_final raw c w = elim c.signature [
        | none ↦ (false, c, w)
        | some sig ↦ digest_verify_final raw sig c w
      ]
