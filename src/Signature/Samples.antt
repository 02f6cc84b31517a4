-- ===== src/Signature/Samples.antt =====
-- A small token and small numbers for examples on src/sig/signature.c and src/sig/ecdsa.c.
use pkcs11_provider.Base.{
  ℕ, ◌+◌, ◌-◌, ◌≡◌, refl, sym, ap, true, false, Option, none, some, some-injective, List, [], ◌∷◌,
  arith, ◌==◌, if◌then◌else◌, length, get_elem?, AreBytes,
}
use pkcs11_provider.Codes.Rv
use pkcs11_provider.Signature.Token.{Token, Counts}
use pkcs11_provider.Signature.Der.{Asn1, Documented}
use pkcs11_provider.Signature.Der.Room.{IsDer}
use pkcs11_provider.Signature.Ecdsa.{Keys, ckk_ec}

abbrev number : Option ℕ → ℕ
number none = 0
number (some n) = n

-- The state counts the sessions that are taken. A key is its class.
abbrev pub counter : Token ℕ
counter = record {
  status = λ w. (Rv.ok, w);
  malloc = λ w. (true, w);
  get_class = λ k w. number k;
  get_slotid = λ k w. 1;
  get_handle = λ k w. (7, w);
  always_authenticate = λ k w. false;
  find_associated = λ k c w. (none, w);
  obj_ref = λ k w. (k, w);
  obj_free = λ k w. w;
  try_session_ref = λ k m l w. (Rv.ok, w, w + 1);
  get_session = λ i m l w. (Rv.ok, w, w + 1);
  return_session = λ s w. elim s [ none ↦ w | some i ↦ w - 1 ];
  mark_broken = λ s w. w;
  context_specific_login = λ s w. (Rv.ok, w);
  sign_init = λ s m k w. (Rv.ok, w);
  verify_init = λ s m k w. (Rv.ok, w);
  sign = λ s i n w. (Rv.ok, 17 ∷ 18 ∷ [], w);
  verify = λ s i j w. (Rv.ok, w);
  sign_update = λ s i w. (Rv.ok, w);
  verify_update = λ s i w. (Rv.ok, w);
  sign_final = λ s n w. (Rv.ok, 17 ∷ 18 ∷ [], w);
  verify_final = λ s i w. (Rv.ok, w);
  session_cancel = λ s o w. (Rv.ok, w);
  operation_state_length = λ s w. (Rv.ok, 8, w);
  operation_state = λ s w. (Rv.ok, [], w);
  set_operation_state = λ s i k w. (Rv.ok, w);
  md_fetch = λ n w. (true, w);
  md_new = λ w. (some 1, w);
  md_free = λ m w. w;
  md_init = λ m n i w. (true, w);
  md_update = λ m i w. (true, w);
  md_final = λ m w. (true, [], w);
  md_copy = λ m n w. (true, w);
}

pub counter-Counts : Counts counter (λ w. w)
counter-Counts = record {
  status_held = λ w. refl;
  malloc_held = λ w. refl;
  handle_held = λ k w. refl;
  associated_held = λ k c w. refl;
  ref_held = λ k w. refl;
  free_held = λ k w. refl;
  ref_taken = λ k m l w e. refl;
  ref_not_taken = λ k m l w e. absurd (e refl);
  taken = λ i m l w e. refl;
  not_taken = λ i m l w e. absurd (e refl);
  returned = λ s w. refl;
  none_returned = λ w. refl;
  broken_held = λ s w. refl;
  login_held = λ s w. refl;
  sign_init_held = λ s m k w. refl;
  verify_init_held = λ s m k w. refl;
  sign_held = λ s i n w. refl;
  verify_held = λ s i j w. refl;
  sign_update_held = λ s i w. refl;
  verify_update_held = λ s i w. refl;
  sign_final_held = λ s n w. refl;
  verify_final_held = λ s i w. refl;
  cancel_held = λ s o w. refl;
  length_held = λ s w. refl;
  state_held = λ s w. refl;
  set_held = λ s i k w. refl;
  fetch_held = λ n w. refl;
  new_held = λ w. refl;
  md_free_held = λ m w. refl;
  md_init_held = λ m n i w. refl;
  md_update_held = λ m i w. refl;
  md_final_held = λ m w. refl;
  md_copy_held = λ m n w. refl;
}

-- A token that finds every signature to be wrong.
abbrev pub strict : Token ℕ
strict = record counter { verify = λ s i j w. (Rv.signature_invalid, w) }

-- Keys whose fields have one byte.
abbrev pub tiny_keys : Keys ℕ
tiny_keys = record { key_type = λ k w. ckk_ec; key_size = λ k w. 1 }

abbrev both : Option ℕ → Option ℕ → Option (ℕ × ℕ)
both none s = none
both (some r) none = none
both (some r) (some s) = some (r, s)

abbrev first_of : List ℕ → Option ℕ
first_of [] = none
first_of (x ∷ xs) = elim xs [ [] ↦ some x | y ∷ ys ↦ none ]

-- Numbers of one byte, below 128.
abbrev pub tiny : Asn1 ℕ (ℕ × ℕ)
tiny = record {
  sig_new = true;
  bin2bn = first_of;
  set0 = both;
  get0 = λ x. x;
  i2d = λ x. some (48 ∷ 6 ∷ 2 ∷ 1 ∷ x.0 ∷ 2 ∷ 1 ∷ x.1 ∷ []);
  d2i = λ der. both (get_elem? der 4) (get_elem? der 7);
  bn2binpad = λ b n. if n == 1 then some (b ∷ []) else none;
}

pub tiny-Documented : Documented tiny
tiny-Documented = record {
  numbers = both_of;
  decoded = λ x der e. (x, (rw (← some-injective _ _ e) refl, refl));
  padded = one_byte;
}
  where
    both_of : (r s : Option ℕ) (x : ℕ × ℕ) → both r s ≡ some x → (r ≡ some x.0) × (s ≡ some x.1)
    both_of none s x e = cc
    both_of (some r) none x e = cc
    both_of (some r) (some s) x e =
        (ap (λ p. some (p.0)) (some-injective _ _ e), ap (λ p. some (p.1)) (some-injective _ _ e))

    one_byte :
        (bytes : List ℕ) (b : ℕ)
        → AreBytes bytes
        → first_of bytes ≡ some b
        → (if length bytes == 1 then some (b ∷ []) else none) ≡ some bytes
    one_byte [] b are e = cc
    one_byte (x ∷ []) b are e = ap (λ n. some (n ∷ [])) (sym (some-injective _ _ e))
    one_byte (x ∷ y ∷ ys) b are e = cc

pub tiny-IsDer : IsDer tiny (λ b. 1)
tiny-IsDer = record {
  sequence = λ r s x der made e. ap length (sym (some-injective _ _ e));
  contents = λ bytes b e. omega arith;
}
