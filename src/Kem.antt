-- ===== src/Kem.antt =====
-- src/kem.c: ML-KEM, whose secrets are made as keys on the token and read from there.
pub mod Weights
pub mod Lifetime
mod Tests
use pkcs11_provider.Base.{
  ℕ, Bool, false, not, ◌&&◌, ◌||◌, Option, none, some, List, ltb, ◌==◌, if◌then◌else◌,
}
use pkcs11_provider.Codes.{unavailable, invalid_handle}
use pkcs11_provider.Codes.Rv

-- `CKM_ML_KEM`, `CKK_ML_KEM`, `CKO_PUBLIC_KEY` and `CKO_PRIVATE_KEY`.
abbrev pub ckm_ml_kem : ℕ
ckm_ml_kem = 0x17

abbrev pub ckk_ml_kem : ℕ
ckk_ml_kem = 0x49

abbrev public_class : ℕ
public_class = 2

abbrev private_class : ℕ
private_class = 3

-- What the code asks of its surroundings, over an unknown state `W`: keys, sessions and the module. Keys
-- and sessions are numbers. The two calls that make a secret answer with the handle of its key, and the
-- first with a text, from the size of its buffer; a secret is read into a buffer with a size.
pub record Token (W : Type 0) : Type 0 where
  pub status : W → ℕ × W
  pub get_class : Option ℕ → W → ℕ
  pub key_type : ℕ → W → ℕ
  pub key_size : ℕ → W → ℕ
  pub get_slotid : ℕ → W → ℕ
  pub get_handle : ℕ → W → ℕ × W
  pub obj_ref : ℕ → W → Option ℕ × W
  pub obj_free : Option ℕ → W → W
  pub get_session : ℕ → ℕ → W → ℕ × ℕ × W
  pub return_session : ℕ → W → W
  pub encapsulate_key : ℕ → ℕ → ℕ → W → ℕ × List ℕ × ℕ × W
  pub decapsulate_key : ℕ → ℕ → List ℕ → W → ℕ × ℕ × W
  pub get_value : ℕ → ℕ → ℕ → W → ℕ × List ℕ × W
  pub destroy_object : ℕ → ℕ → W → W

-- What a context is for; at first it is for nothing.
pub data Operation : Type 0 where
  nothing : Operation
  encapsulation : Operation
  decapsulation : Operation

-- `struct p11prov_kem_ctx`.
pub record Context : Type 0 where
  pub key : Option ℕ
  pub op : Operation

abbrev pub newctx : Context
newctx = record { key = none; op = Operation.nothing }

-- The answer of a call: that it failed, the two lengths, or a text and a secret.
pub data Answer : Type 0 where
  failed : Answer
  lengths : ℕ → ℕ → Answer
  secret : Option (List ℕ) → List ℕ → Answer

-- The lengths of a text and of a secret, by the length of a public key, for the three sets of
-- parameters.
pub get_lengths : ℕ → Option (ℕ × ℕ)
get_lengths size =
    if size == 800
    then some (768, 32)
    else (if size == 1184
        then some (1088, 32)
        else (if size == 1568 then some (1568, 32) else none))

-- Whether there are parameters with `OSSL_KEM_PARAM_IKME`, which is refused.
abbrev pub set_ctx_params : Bool → Bool
set_ctx_params ikme = not ikme

module _ {W : Type 0} (t : Token W) where
  -- The reference to a key takes the place of the one that the context has.
  init_with : Operation → Option ℕ → Bool → Context → W → Bool × Context × W
  init_with op none ikme c w = (false, c, w)
  init_with op (some k) ikme c w =
      let (status, w1) = t.status w in
      let (ref, w2) = t.obj_ref k (t.obj_free c.key w1) in
      let c1 = record c { key = ref } in
      let referenced : Bool × Context × W = elim ref [
        | none ↦ (false, c1, w2)
        | some r ↦
            if t.key_type r w2 == ckk_ml_kem
            then (set_ctx_params ikme, record c1 { op = op }, w2)
            else (false, c1, w2)
      ] in
      if status == Rv.ok then referenced else (false, c, w1)

  pub encapsulate_init : Option ℕ → Bool → Context → W → Bool × Context × W
  unfolding init_with
  encapsulate_init key ikme c w =
      let done = init_with Operation.encapsulation key ikme c w in
      if t.get_class key w == public_class then done else (false, c, w)

  pub decapsulate_init : Option ℕ → Bool → Context → W → Bool × Context × W
  unfolding init_with
  decapsulate_init key ikme c w =
      let done = init_with Operation.decapsulation key ikme c w in
      if t.get_class key w == private_class then done else (false, c, w)

  -- The end of both calls, behind the module's return value and the handle of the secret's key: the
  -- secret is read, its key is destroyed, and the session is returned.
  take_secret : ℕ → ℕ → Option (List ℕ) → ℕ → ℕ → W → Answer × W
  take_secret rv handle text size s w =
      let (rv', ss, w1) = t.get_value s handle size w in
      let w2 = if rv == Rv.ok then w1 else w in
      let w3 = if handle == invalid_handle then w2 else t.destroy_object s handle w2 in
      (if rv == Rv.ok && rv' == Rv.ok then secret text ss else failed, t.return_session s w3)

  -- On a session of the key's slot.
  on_session : ℕ → (ℕ → W → Answer × W) → W → Answer × W
  on_session k run w =
      let slot = t.get_slotid k w in
      let (rv, s, w1) = t.get_session slot ckm_ml_kem w in
      let done = run s w1 in
      if slot == unavailable then (failed, w) else (if rv == Rv.ok then done else (failed, w1))

  encapsulate_on : ℕ → ℕ → ℕ → ℕ → W → Answer × W
  unfolding take_secret
  encapsulate_on k ct_size ss_size s w =
      let (handle, w1) = t.get_handle k w in
      let (rv, text, made, w2) = t.encapsulate_key s handle ct_size w1 in
      take_secret rv made (some text) ss_size s w2

  decapsulate_on : ℕ → List ℕ → ℕ → ℕ → W → Answer × W
  unfolding take_secret
  decapsulate_on k ct ss_size s w =
      let (handle, w1) = t.get_handle k w in
      let (rv, made, w2) = t.decapsulate_key s handle ct w1 in take_secret rv made none ss_size s w2

  -- The sizes of the buffers for the text and the secret, where both are there.
  pub encapsulate : Option (ℕ × ℕ) → Context → W → Answer × W
  unfolding on_session encapsulate_on
  encapsulate buffers c w = elim c.key [
    | none ↦ (failed, w)
    | some k ↦ elim (get_lengths (t.key_size k w)) [
      | none ↦ (failed, w)
      | some (ct_len, ss_len) ↦ elim buffers [
        | none ↦ (lengths ct_len ss_len, w)
        | some (ct_size, ss_size) ↦
            let done = on_session k (encapsulate_on k ct_size ss_size) w in
            if ltb ct_size ct_len || ltb ss_size ss_len then (failed, w) else done
      ]
    ]
  ]

  -- The size of the buffer for the secret, if it is there, and the text.
  pub decapsulate : Option ℕ → List ℕ → Context → W → Answer × W
  unfolding on_session decapsulate_on
  decapsulate buffer ct c w = elim c.key [
    | none ↦ (failed, w)
    | some k ↦ elim (get_lengths (t.key_size k w)) [
      | none ↦ (failed, w)
      | some (ct_len, ss_len) ↦ elim buffer [
        | none ↦ (lengths ct_len ss_len, w)
        | some ss_size ↦
            let done = on_session k (decapsulate_on k ct ss_size) w in
            if ltb ss_size ss_len then (failed, w) else done
      ]
    ]
  ]

  -- Without the memory that is freed.
  abbrev pub freectx : Context → W → W
  freectx c w = t.obj_free c.key w
