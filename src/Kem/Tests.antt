-- ===== src/Kem/Tests.antt =====
-- Examples on src/kem.c: a token that counts the sessions, references and keys of secrets together.
use pkcs11_provider.Base.{ℕ, ◌+◌, ◌-◌, ◌≡◌, refl, true, false, none, some, [], ◌∷◌, arith}
use pkcs11_provider.Codes.Rv
use pkcs11_provider.Kem.{Token, get_lengths, encapsulate, Operation, Answer}
use pkcs11_provider.Kem.Weights.{Weighs}
use pkcs11_provider.Kem.Lifetime.{Call, lifetime, lifetime-weighs}

abbrev counter : Token ℕ
counter = record {
  status = λ w. (Rv.ok, w);
  get_class = λ k w. 2;
  key_type = λ k w. 0x49;
  key_size = λ k w. 800;
  get_slotid = λ k w. 1;
  get_handle = λ k w. (7, w);
  obj_ref = λ k w. (some k, w + 1);
  obj_free = λ k w. elim k [ none ↦ w | some i ↦ w - 1 ];
  get_session = λ i m w. (Rv.ok, w, w + 1);
  return_session = λ s w. w - 1;
  encapsulate_key = λ s k n w. (Rv.ok, 1 ∷ [], 9, w + 1);
  decapsulate_key = λ s k ct w. (Rv.general_error, 0, w);
  get_value = λ s k n w. (Rv.ok, 5 ∷ [], w);
  destroy_object = λ s k w. w - 1;
}

counter-Weighs : Weighs counter 1 1 1 (λ w. w)
counter-Weighs = record {
  status_held = λ w. refl;
  handle_held = λ k w. refl;
  referenced = λ k w. refl;
  freed = λ k w. refl;
  none_freed = λ w. refl;
  taken = λ i m w e. refl;
  not_taken = λ i m w e. absurd (e refl);
  returned = λ s w. refl;
  encapsulated = λ s k n w. refl;
  decapsulated = λ s k ct w. omega arith;
  value_held = λ s k n w. refl;
  destroyed = λ s k w. refl;
}

encapsulates_once :
    encapsulate counter (some (768, 32)) (record { key = some 3; op = Operation.encapsulation }) 4
    ≡ (Answer.secret (some (1 ∷ [])) (5 ∷ []), 4)
unfolding encapsulate get_lengths
encapsulates_once = refl

lifetime-weighs_example :
    lifetime counter
      (Call.encapsulate_inits (some 3) false
        ∷ Call.encapsulates (some (768, 32))
        ∷ Call.encapsulate_inits (some 4) true
        ∷ Call.decapsulates (some 32) (1 ∷ [])
        ∷ [])
      4
    ≡ 4
lifetime-weighs_example =
    lifetime-weighs counter 1 1 1 (λ w. w) counter-Weighs
      (Call.encapsulate_inits (some 3) false
        ∷ Call.encapsulates (some (768, 32))
        ∷ Call.encapsulate_inits (some 4) true
        ∷ Call.decapsulates (some 32) (1 ∷ [])
        ∷ [])
      4
