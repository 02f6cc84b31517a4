-- ===== src/Signature/Run.antt =====
-- src/sig/signature.c: data is signed or verified, and the operation ends.
pub mod Counted
pub mod Ending
pub mod Verified
pub mod Exact
use pkcs11_provider.Base.{
  ℕ, Bool, true, false, not, ◌&&◌, Option, none, some, List, ◌==◌, if◌then◌else◌, length,
}
use pkcs11_provider.Codes.{invalid_handle}
use pkcs11_provider.Codes.Rv
use pkcs11_provider.Digests.{get_name, get_digest_size}
use pkcs11_provider.Signature.Token.{Token}
use pkcs11_provider.Signature.Context.{
  Context, SessionState, ckf_sign, ckf_verify, fresh, op_init, operate_init,
}

-- The context without its session.
abbrev pub released : Context → Context
released c = record c { session = none }

abbrev pub finalized : Context → Context
finalized c = record c { session_state = SessionState.finalized }

-- A signature to verify, or a buffer to sign into, if it is not null; its size; and the data. The answer
-- is the return value and, where a call signed, the bytes that it wrote.
abbrev pub Operate : Type 0 → Type 0
Operate W = Option (List ℕ) → ℕ → List ℕ → Context → W → ℕ × Option (List ℕ) × Context × W

-- A context with neither a digest nor a session is begun first.
needs_session : Context → Bool
needs_session c = elim c.fallback_digest [
  | some m ↦ false
  | none ↦ elim c.session [ none ↦ true | some s ↦ false ]
]

module _ {W : Type 0} (t : Token W) where
  -- The module's call for data in one piece, on a session.
  operate_on : Option ℕ → List ℕ → ℕ → List ℕ → Context → W → ℕ × Option (List ℕ) × Context × W
  operate_on s sig sigsize tbs c w =
      let (ret, out, w1) = t.sign s tbs sigsize w in
      let (ret', w1') = t.verify s tbs sig w in
      if c.operation == ckf_sign
      then (ret, if ret == Rv.ok then some out else none, finalized c, t.return_session s w1)
      else (ret', none, finalized c, t.return_session s w1')

  -- `p11prov_sig_operate`.
  unfoldable pub operate : Operate W
  unfolding operate_on
  operate none sigsize tbs c w = (Rv.arguments_bad, none, c, w)
  operate (some sig) sigsize tbs c w =
      let (ret, s, c1, w1) = operate_init t false c w in
      let done = operate_on s sig sigsize tbs c1 w1 in
      if ret == Rv.ok then done else (ret, none, c1, w1)

  -- Data for a digest of OpenSSL's, or for the session of the context.
  update_on : List ℕ → Context → W → Bool × Context × W
  update_on bytes c w = elim c.fallback_digest [
    | some m ↦ let (done, w1) = t.md_update m bytes w in (done, c, w1)
    | none ↦ elim c.session [
      | none ↦ (false, c, w)
      | some s ↦
          let (ret, w1) =
            if c.operation == ckf_sign
            then t.sign_update s bytes w
            else t.verify_update s bytes w in
          if ret == Rv.ok then (true, c, w1) else (false, released c, t.return_session (some s) w1)
    ]
  ]

  pub digest_update : List ℕ → Context → W → Bool × Context × W
  unfolding update_on needs_session
  digest_update bytes c w =
      let (ret, s, c1, w1) = operate_init t true c w in
      let begun = update_on bytes (record c1 { session = s }) w1 in
      let running = update_on bytes c w in
      if needs_session c then (if ret == Rv.ok then begun else (false, c1, w1)) else running

  -- An operation that is under way is cancelled; a session where that fails is broken.
  abandon : ℕ → Context → W → W
  abandon s c w =
      let (ret, w1) =
        if c.operation == ckf_sign
        then t.sign_init s none invalid_handle w
        else t.verify_init s none invalid_handle w in
      let (ret', w2) = t.session_cancel s c.operation w1 in
      if ret == Rv.ok then w1 else (if ret' == Rv.ok then w2 else t.mark_broken s w2)

  -- Without the memory that is freed.
  pub freectx : Context → W → W
  unfolding abandon
  freectx c w =
      let w1 : W = elim c.session [
        | none ↦ w
        | some s ↦ t.return_session (some s) (elim c.session_state [
          | SessionState.unused ↦ w
          | SessionState.initialized ↦ abandon s c w
          | SessionState.finalized ↦ w
        ])
      ] in
      t.obj_free c.key (t.md_free c.fallback_digest w1)

  module _ (same : List ℕ → List ℕ → Bool) (fallback_operate : Option (Operate W)) where
    -- On the context that is made for the raw signature: the operation is set up and run, and the context
    -- is freed.
    sub_operate : Option (List ℕ) → ℕ → List ℕ → Context → W → ℕ × Option (List ℕ) × W
    unfolding freectx
    sub_operate sig sigsize digest c w =
        let sub = fresh c.mechtype in
        let (ret, name) = get_name c.digest in
        let (ret', sub1, w1) = op_init t same c.key c.operation name sub w in
        let run : Operate W = elim fallback_operate [ none ↦ operate | some f ↦ f ] in
        let (ret'', out, sub2, w2) = run sig sigsize digest sub1 w1 in
        if not (ret == Rv.ok)
        then (ret, none, freectx sub w)
        else (if ret' == Rv.ok
            then (ret'', out, freectx sub2 w2)
            else (ret', none, freectx sub1 w1))

    -- With the digest's context and the size of the digest.
    mech_fallback_final : ℕ → Option (List ℕ) → ℕ → ℕ → Context → W → ℕ × Option (List ℕ) × W
    unfolding sub_operate
    mech_fallback_final m sig sigsize mdsize c w =
        let (done, digest, w1) = t.md_final m w in
        let (handle, w2) = t.get_handle c.key w1 in
        let (room, w3) = t.malloc w2 in
        let rest = sub_operate sig sigsize digest c w3 in
        if not (done && length digest == mdsize)
        then (Rv.general_error, none, w1)
        else (if handle == invalid_handle
            then (Rv.key_handle_invalid, none, w2)
            else (if room then rest else (Rv.host_memory, none, w3)))

    -- The end on the session of the context.
    session_final : List ℕ → ℕ → Context → W → Bool × Option (List ℕ) × Context × W
    session_final sig sigsize c w = elim c.session [
      | none ↦ (false, none, c, w)
      | some s ↦
          let (ret, out, w1) = t.sign_final s sigsize w in
          let (ret', w1') = t.verify_final s sig w in
          if c.operation == ckf_sign
          then (ret == Rv.ok, if ret == Rv.ok then some out else none, finalized c, w1)
          else (ret' == Rv.ok, none, finalized c, w1')
    ]

    -- The end on a digest of OpenSSL's.
    fallback_final : ℕ → List ℕ → ℕ → Context → W → Bool × Option (List ℕ) × Context × W
    unfolding mech_fallback_final
    fallback_final m sig sigsize c w =
        let (ret, size) = get_digest_size c.digest in
        elim size [
          | none ↦ (false, none, c, w)
          | some mdsize ↦
              let (ret', out, w1) = mech_fallback_final m (some sig) sigsize mdsize c w in
              (ret' == Rv.ok, out, c, w1)
        ]

    -- What is done behind the checks of the arguments.
    ending : List ℕ → ℕ → Context → W → Bool × Option (List ℕ) × Context × W
    unfolding session_final fallback_final
    ending sig sigsize c w = elim c.fallback_digest [
      | some m ↦ fallback_final m sig sigsize c w
      | none ↦ session_final sig sigsize c w
    ]

    -- Whether it succeeds, the signature that was made, if one was, and the context without its session.
    pub digest_final : Option (List ℕ) → ℕ → Context → W → Bool × Option (List ℕ) × Context × W
    unfolding ending
    digest_final sig sigsize c w =
        let (done, out, c1, w1) : Bool × Option (List ℕ) × Context × W = elim sig [
          | none ↦ (false, none, c, w)
          | some bytes ↦
              let rest = ending bytes sigsize c w in
              if c.operation == ckf_verify && sigsize == 0 then (false, none, c, w) else rest
        ] in
        (done, out, released c1, t.return_session c1.session w1)
