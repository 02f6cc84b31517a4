-- ===== src/Cipher/Token.antt =====
-- What src/cipher.c asks of its surroundings: sessions (src/session.c), keys (src/obj/object.c), the
-- calls of the module (src/interface.gen.c) and memory, over an unknown state `W`.
use pkcs11_provider.Base.{ℕ, ◌+◌, ◌-◌, ◌≡◌, ◌≢◌, Bool, Option, some, List}
use pkcs11_provider.Codes.Rv
use pkcs11_provider.Cipher.Unpad.{Chance}

-- `CK_MECHANISM`: the type and the parameter, if there is one.
abbrev pub Mechanism : Type 0
Mechanism = ℕ × Option (List ℕ)

-- What a call of the module that writes leaves: the return value, the contents of the output buffer and
-- the length it reports.
pub record Output : Type 0 where
  pub rv : ℕ
  pub out : List ℕ
  pub outlen : ℕ

-- A pointer to a session or to an object is a number.
pub record Token (W : Type 0) : Type 0 where
  pub status : W → ℕ × W
  pub memdup : W → Bool × W
  pub import_secret_key : List ℕ → W → Option ℕ × W
  pub obj_ref : ℕ → W → Option ℕ × W
  pub obj_free : Option ℕ → W → W
  -- With the key and the mechanism: the return value and the session.
  pub try_session_ref : Option ℕ → ℕ → W → ℕ × Option ℕ × W
  pub return_session : ℕ → W → W
  pub mark_broken : ℕ → W → W
  -- `C_EncryptInit` and `C_DecryptInit`, with the session, the mechanism and the key.
  pub encrypt_init : ℕ → Option Mechanism → Option ℕ → W → ℕ × W
  pub decrypt_init : ℕ → Option Mechanism → Option ℕ → W → ℕ × W
  pub session_cancel : ℕ → ℕ → W → ℕ × W
  -- With the session, the input (null, or its bytes), its length and the size of the output buffer.
  pub encrypt : ℕ → List ℕ → ℕ → W → Output × W
  pub decrypt : ℕ → List ℕ → ℕ → W → Output × W
  pub encrypt_update : ℕ → Option (List ℕ) → ℕ → ℕ → W → Output × W
  pub decrypt_update : ℕ → Option (List ℕ) → ℕ → ℕ → W → Output × W
  pub encrypt_final : ℕ → ℕ → W → Output × W
  pub decrypt_final : ℕ → ℕ → W → Output × W
  -- What `tlsunpad` finds.
  pub chance : W → Chance × W

-- `held` counts the sessions that were taken and not given back: only `try_session_ref` takes one, when
-- it succeeds, and only `return_session` gives one back.
pub record Counts {W : Type 0} (t : Token W) (held : W → ℕ) : Type 0 where
  pub status_held : (w : W) → held (t.status w).1 ≡ held w
  pub memdup_held : (w : W) → held (t.memdup w).1 ≡ held w
  pub import_held : (k : List ℕ) (w : W) → held (t.import_secret_key k w).1 ≡ held w
  pub ref_held : (k : ℕ) (w : W) → held (t.obj_ref k w).1 ≡ held w
  pub free_held : (k : Option ℕ) (w : W) → held (t.obj_free k w) ≡ held w
  pub taken :
      (k : Option ℕ) (m : ℕ) (w : W)
      → (t.try_session_ref k m w).0 ≡ Rv.ok
      → (s : ℕ) × ((t.try_session_ref k m w).1 ≡ some s)
        × (held (t.try_session_ref k m w).2 ≡ held w + 1)
  pub not_taken :
      (k : Option ℕ) (m : ℕ) (w : W)
      → (t.try_session_ref k m w).0 ≢ Rv.ok
      → held (t.try_session_ref k m w).2 ≡ held w
  pub returned : (s : ℕ) (w : W) → held (t.return_session s w) ≡ held w - 1
  pub broken_held : (s : ℕ) (w : W) → held (t.mark_broken s w) ≡ held w
  pub encrypt_init_held :
      (s : ℕ) (m : Option Mechanism) (k : Option ℕ) (w : W)
      → held (t.encrypt_init s m k w).1 ≡ held w
  pub decrypt_init_held :
      (s : ℕ) (m : Option Mechanism) (k : Option ℕ) (w : W)
      → held (t.decrypt_init s m k w).1 ≡ held w
  pub cancel_held : (s o : ℕ) (w : W) → held (t.session_cancel s o w).1 ≡ held w
  pub encrypt_held : (s : ℕ) (i : List ℕ) (n : ℕ) (w : W) → held (t.encrypt s i n w).1 ≡ held w
  pub decrypt_held : (s : ℕ) (i : List ℕ) (n : ℕ) (w : W) → held (t.decrypt s i n w).1 ≡ held w
  pub encrypt_update_held :
      (s : ℕ) (i : Option (List ℕ)) (l n : ℕ) (w : W) → held (t.encrypt_update s i l n w).1 ≡ held w
  pub decrypt_update_held :
      (s : ℕ) (i : Option (List ℕ)) (l n : ℕ) (w : W) → held (t.decrypt_update s i l n w).1 ≡ held w
  pub encrypt_final_held : (s n : ℕ) (w : W) → held (t.encrypt_final s n w).1 ≡ held w
  pub decrypt_final_held : (s n : ℕ) (w : W) → held (t.decrypt_final s n w).1 ≡ held w
  pub chance_held : (w : W) → held (t.chance w).1 ≡ held w
