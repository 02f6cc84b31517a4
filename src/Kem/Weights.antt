-- ===== src/Kem/Weights.antt =====
-- What encapsulation and decapsulation of src/kem.c take and give back.
use pkcs11_provider.Base.{
  ℕ, ◌+◌, ◌-◌, ◌≡◌, refl, ◌≢◌, inl, inr, ◌||◌, Option, none, some, List, arith, ltb, ◌==◌,
  if◌then◌else◌, Bool-cases,
}
use pkcs11_provider.Codes.{invalid_handle, unavailable}
use pkcs11_provider.Codes.Rv
use pkcs11_provider.Kem.{
  Token, Context, Answer, get_lengths, take_secret, on_session, encapsulate_on, decapsulate_on,
  encapsulate, decapsulate, ckm_ml_kem,
}

-- The weight of a reference, if there is one, and of a key with a handle, if it has one.
abbrev pub weight_of : ℕ → Option ℕ → ℕ
weight_of ref none = 0
weight_of ref (some k) = ref

abbrev pub made_weight : ℕ → ℕ → ℕ
made_weight object handle = if handle == invalid_handle then 0 else object

-- `held` weighs what is taken: a reference counts `ref`, a session `session` and a key of a secret
-- `object`. Only the calls that take one of them, when they succeed, add its weight, and only those that
-- give it back take it off; a call that leaves no handle makes no key.
pub record Weighs {W : Type 0} (t : Token W) (ref session object : ℕ) (held : W → ℕ) : Type 0 where
  pub status_held : (w : W) → held (t.status w).1 ≡ held w
  pub handle_held : (k : ℕ) (w : W) → held (t.get_handle k w).1 ≡ held w
  pub referenced :
      (k : ℕ) (w : W) → held (t.obj_ref k w).1 ≡ held w + weight_of ref (t.obj_ref k w).0
  pub freed : (k : ℕ) (w : W) → held (t.obj_free (some k) w) ≡ held w - ref
  pub none_freed : (w : W) → held (t.obj_free none w) ≡ held w
  pub taken :
      (i m : ℕ) (w : W)
      → (t.get_session i m w).0 ≡ Rv.ok
      → held (t.get_session i m w).2 ≡ held w + session
  pub not_taken :
      (i m : ℕ) (w : W) → (t.get_session i m w).0 ≢ Rv.ok → held (t.get_session i m w).2 ≡ held w
  pub returned : (s : ℕ) (w : W) → held (t.return_session s w) ≡ held w - session
  pub encapsulated :
      (s k n : ℕ) (w : W)
      → held (t.encapsulate_key s k n w).3
        ≡ held w + made_weight object (t.encapsulate_key s k n w).2
  pub decapsulated :
      (s k : ℕ) (ct : List ℕ) (w : W)
      → held (t.decapsulate_key s k ct w).2
        ≡ held w + made_weight object (t.decapsulate_key s k ct w).1
  pub value_held : (s k n : ℕ) (w : W) → held (t.get_value s k n w).2 ≡ held w
  pub destroyed : (s k : ℕ) (w : W) → held (t.destroy_object s k w) ≡ held w - object

module _ {W : Type 0} (t : Token W) (ref session object : ℕ) (held : W → ℕ)
    (laws : Weighs t ref session object held) where
  -- Behind the making of a secret's key: it and the session go back.
  take_secret-held :
      (rv handle : ℕ) (text : Option (List ℕ)) (size s n : ℕ) (w : W)
      → held w ≡ n + session + made_weight object handle
      → held (take_secret t rv handle text size s w).1 ≡ n
  unfolding take_secret
  take_secret-held rv handle text size s n w one =
      let w2 = if rv == Rv.ok then (t.get_value s handle size w).2 else w in
      let e1 = laws.value_held s handle size w in
      let e2 : held w2 ≡ held w = ground (arith, e1) in
      let e3 = laws.destroyed s handle w2 in
      elim (Bool-cases (handle == invalid_handle)) [
        | inl made_none ↦
            let weight : made_weight object handle ≡ 0 = rw (made_weight, made_none) refl in
            rw made_none (omega (arith, laws.returned s w2, e2, one, weight))
        | inr made ↦
            let weight : made_weight object handle ≡ object = rw (made_weight, made) refl in
            rw made
              (omega (arith, laws.returned s (t.destroy_object s handle w2), e3, e2, one, weight))
      ]

  on_session-held :
      (k : ℕ) (run : ℕ → W → Answer × W) (w : W)
      → ((s n : ℕ) (v : W) → held v ≡ n + session → held (run s v).1 ≡ n)
      → held (on_session t k run w).1 ≡ held w
  unfolding on_session
  on_session-held k run w keeps =
      let slot = t.get_slotid k w in
      let (rv, s, w1) = t.get_session slot ckm_ml_kem w in
      elim (Bool-cases (slot == unavailable)) [
        | inl bad ↦ rw bad refl
        | inr there ↦ elim (Bool-cases (rv == Rv.ok)) [
          | inl good ↦
              rw (there, good) (keeps s (held w) w1 (laws.taken slot ckm_ml_kem w (ground arith)))
          | inr bad ↦ rw (there, bad) (laws.not_taken slot ckm_ml_kem w (ground arith))
        ]
      ]

  encapsulate_on-held :
      (k ct_size ss_size s n : ℕ) (w : W)
      → held w ≡ n + session
      → held (encapsulate_on t k ct_size ss_size s w).1 ≡ n
  unfolding encapsulate_on
  encapsulate_on-held k ct_size ss_size s n w one =
      let (handle, w1) = t.get_handle k w in
      let (rv, text, made, w2) = t.encapsulate_key s handle ct_size w1 in
      let e1 = laws.handle_held k w in
      let e2 = laws.encapsulated s handle ct_size w1 in
      take_secret-held rv made (some text) ss_size s n w2 (omega (arith, e1, e2, one))

  decapsulate_on-held :
      (k : ℕ) (ct : List ℕ) (ss_size s n : ℕ) (w : W)
      → held w ≡ n + session
      → held (decapsulate_on t k ct ss_size s w).1 ≡ n
  unfolding decapsulate_on
  decapsulate_on-held k ct ss_size s n w one =
      let (handle, w1) = t.get_handle k w in
      let (rv, made, w2) = t.decapsulate_key s handle ct w1 in
      let e1 = laws.handle_held k w in
      let e2 = laws.decapsulated s handle ct w1 in
      take_secret-held rv made none ss_size s n w2 (omega (arith, e1, e2, one))

  pub encapsulate-held :
      (buffers : Option (ℕ × ℕ)) (c : Context) (w : W) → held (encapsulate t buffers c w).1 ≡ held w
  unfolding encapsulate
  encapsulate-held buffers c w = by_key c.key buffers
    where
      run :
          (k ct_size ss_size : ℕ)
          → held (on_session t k (encapsulate_on t k ct_size ss_size) w).1 ≡ held w
      run k ct_size ss_size =
          on_session-held k (encapsulate_on t k ct_size ss_size) w
            (encapsulate_on-held k ct_size ss_size)

      by_lengths :
          (k : ℕ) (o : Option (ℕ × ℕ)) (buffers : Option (ℕ × ℕ))
          → held
              (elim o as (λ o. Answer × W) [
                | none ↦ (Answer.failed, w)
                | some (ct_len, ss_len) ↦ elim buffers as (λ o. Answer × W) [
                  | none ↦ (Answer.lengths ct_len ss_len, w)
                  | some (ct_size, ss_size) ↦
                      if ltb ct_size ct_len || ltb ss_size ss_len
                      then (Answer.failed, w)
                      else on_session t k (encapsulate_on t k ct_size ss_size) w
                ]
              ]).1
            ≡ held w
      by_lengths k none buffers = refl
      by_lengths k (some l) none = refl
      by_lengths k (some l) (some (ct_size, ss_size)) =
          elim (Bool-cases (ltb ct_size l.0 || ltb ss_size l.1)) [
            | inl small ↦ rw small refl
            | inr fits ↦ rw fits (run k ct_size ss_size)
          ]

      by_key :
          (o : Option ℕ) (buffers : Option (ℕ × ℕ))
          → held (encapsulate t buffers (record c { key = o }) w).1 ≡ held w
      by_key none buffers = refl
      by_key (some k) buffers = by_lengths k (get_lengths (t.key_size k w)) buffers

  pub decapsulate-held :
      (buffer : Option ℕ) (ct : List ℕ) (c : Context) (w : W)
      → held (decapsulate t buffer ct c w).1 ≡ held w
  unfolding decapsulate
  decapsulate-held buffer ct c w = by_key c.key buffer
    where
      run : (k ss_size : ℕ) → held (on_session t k (decapsulate_on t k ct ss_size) w).1 ≡ held w
      run k ss_size =
          on_session-held k (decapsulate_on t k ct ss_size) w (decapsulate_on-held k ct ss_size)

      by_lengths :
          (k : ℕ) (o : Option (ℕ × ℕ)) (buffer : Option ℕ)
          → held
              (elim o as (λ o. Answer × W) [
                | none ↦ (Answer.failed, w)
                | some (ct_len, ss_len) ↦ elim buffer as (λ o. Answer × W) [
                  | none ↦ (Answer.lengths ct_len ss_len, w)
                  | some ss_size ↦
                      if ltb ss_size ss_len
                      then (Answer.failed, w)
                      else on_session t k (decapsulate_on t k ct ss_size) w
                ]
              ]).1
            ≡ held w
      by_lengths k none buffer = refl
      by_lengths k (some l) none = refl
      by_lengths k (some l) (some ss_size) = elim (Bool-cases (ltb ss_size l.1)) [
        | inl small ↦ rw small refl
        | inr fits ↦ rw fits (run k ss_size)
      ]

      by_key :
          (o : Option ℕ) (buffer : Option ℕ)
          → held (decapsulate t buffer ct (record c { key = o }) w).1 ≡ held w
      by_key none buffer = refl
      by_key (some k) buffer = by_lengths k (get_lengths (t.key_size k w)) buffer
