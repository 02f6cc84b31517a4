-- ===== src/Signature/Token.antt =====
-- What src/sig/signature.c asks of its surroundings: sessions (src/session.c), keys (src/obj/object.c),
-- the calls of the module (src/interface.gen.c), OpenSSL's digests and memory, over an unknown state `W`.
use pkcs11_provider.Base.{ℕ, ◌+◌, ◌-◌, ◌≡◌, ◌≢◌, Bool, Option, none, some, List}
use pkcs11_provider.Codes.Rv

-- A pointer to a session, a key or an `EVP_MD_CTX` is a number; `none` is the null pointer, which stands
-- for an invalid handle in a call of the module. A mechanism is its type: its parameter is not looked at.
pub record Token (W : Type 0) : Type 0 where
  pub status : W → ℕ × W
  pub malloc : W → Bool × W
  -- Keys: the class, the slot and the handle, which may be fetched anew, a flag, and the key on the other
  -- side of a pair.
  pub get_class : Option ℕ → W → ℕ
  pub get_slotid : Option ℕ → W → ℕ
  pub get_handle : Option ℕ → W → ℕ × W
  pub always_authenticate : Option ℕ → W → Bool
  pub find_associated : Option ℕ → ℕ → W → Option ℕ × W
  pub obj_ref : Option ℕ → W → Option ℕ × W
  pub obj_free : Option ℕ → W → W
  -- Sessions: with the key, or the slot, the mechanism and whether a login is needed, the return value
  -- and the session if that is `CKR_OK`.
  pub try_session_ref : Option ℕ → ℕ → Bool → W → ℕ × ℕ × W
  pub get_session : ℕ → ℕ → Bool → W → ℕ × ℕ × W
  pub return_session : Option ℕ → W → W
  pub mark_broken : ℕ → W → W
  pub context_specific_login : ℕ → W → ℕ × W
  -- The module's calls. The mechanism is null where an operation is to be dropped; a call that signs is
  -- given the size of the buffer and leaves the bytes that it wrote.
  pub sign_init : ℕ → Option ℕ → ℕ → W → ℕ × W
  pub verify_init : ℕ → Option ℕ → ℕ → W → ℕ × W
  pub sign : Option ℕ → List ℕ → ℕ → W → ℕ × List ℕ × W
  pub verify : Option ℕ → List ℕ → List ℕ → W → ℕ × W
  pub sign_update : ℕ → List ℕ → W → ℕ × W
  pub verify_update : ℕ → List ℕ → W → ℕ × W
  pub sign_final : ℕ → ℕ → W → ℕ × List ℕ × W
  pub verify_final : ℕ → List ℕ → W → ℕ × W
  pub session_cancel : ℕ → ℕ → W → ℕ × W
  pub operation_state_length : ℕ → W → ℕ × ℕ × W
  pub operation_state : ℕ → W → ℕ × List ℕ × W
  pub set_operation_state : ℕ → List ℕ → ℕ → W → ℕ × W
  -- `EVP_MD_fetch` of a name, `EVP_MD_CTX_new`, `EVP_DigestInit_ex2` with the slot that is preferred, and
  -- the other calls on a digest.
  pub md_fetch : List ℕ → W → Bool × W
  pub md_new : W → Option ℕ × W
  pub md_free : Option ℕ → W → W
  pub md_init : ℕ → List ℕ → ℕ → W → Bool × W
  pub md_update : ℕ → List ℕ → W → Bool × W
  pub md_final : ℕ → W → Bool × List ℕ × W
  pub md_copy : ℕ → ℕ → W → Bool × W

-- `held` counts the sessions that were taken and not given back: only the two requests take one, when
-- they succeed, and only `return_session` gives one back, unless it is called with none.
pub record Counts {W : Type 0} (t : Token W) (held : W → ℕ) : Type 0 where
  pub status_held : (w : W) → held (t.status w).1 ≡ held w
  pub malloc_held : (w : W) → held (t.malloc w).1 ≡ held w
  pub handle_held : (k : Option ℕ) (w : W) → held (t.get_handle k w).1 ≡ held w
  pub associated_held : (k : Option ℕ) (c : ℕ) (w : W) → held (t.find_associated k c w).1 ≡ held w
  pub ref_held : (k : Option ℕ) (w : W) → held (t.obj_ref k w).1 ≡ held w
  pub free_held : (k : Option ℕ) (w : W) → held (t.obj_free k w) ≡ held w
  pub ref_taken :
      (k : Option ℕ) (m : ℕ) (l : Bool) (w : W)
      → (t.try_session_ref k m l w).0 ≡ Rv.ok
      → held (t.try_session_ref k m l w).2 ≡ held w + 1
  pub ref_not_taken :
      (k : Option ℕ) (m : ℕ) (l : Bool) (w : W)
      → (t.try_session_ref k m l w).0 ≢ Rv.ok
      → held (t.try_session_ref k m l w).2 ≡ held w
  pub taken :
      (i m : ℕ) (l : Bool) (w : W)
      → (t.get_session i m l w).0 ≡ Rv.ok
      → held (t.get_session i m l w).2 ≡ held w + 1
  pub not_taken :
      (i m : ℕ) (l : Bool) (w : W)
      → (t.get_session i m l w).0 ≢ Rv.ok
      → held (t.get_session i m l w).2 ≡ held w
  pub returned : (s : ℕ) (w : W) → held (t.return_session (some s) w) ≡ held w - 1
  pub none_returned : (w : W) → held (t.return_session none w) ≡ held w
  pub broken_held : (s : ℕ) (w : W) → held (t.mark_broken s w) ≡ held w
  pub login_held : (s : ℕ) (w : W) → held (t.context_specific_login s w).1 ≡ held w
  pub sign_init_held :
      (s : ℕ) (m : Option ℕ) (k : ℕ) (w : W) → held (t.sign_init s m k w).1 ≡ held w
  pub verify_init_held :
      (s : ℕ) (m : Option ℕ) (k : ℕ) (w : W) → held (t.verify_init s m k w).1 ≡ held w
  pub sign_held : (s : Option ℕ) (i : List ℕ) (n : ℕ) (w : W) → held (t.sign s i n w).2 ≡ held w
  pub verify_held : (s : Option ℕ) (i j : List ℕ) (w : W) → held (t.verify s i j w).1 ≡ held w
  pub sign_update_held : (s : ℕ) (i : List ℕ) (w : W) → held (t.sign_update s i w).1 ≡ held w
  pub verify_update_held : (s : ℕ) (i : List ℕ) (w : W) → held (t.verify_update s i w).1 ≡ held w
  pub sign_final_held : (s n : ℕ) (w : W) → held (t.sign_final s n w).2 ≡ held w
  pub verify_final_held : (s : ℕ) (i : List ℕ) (w : W) → held (t.verify_final s i w).1 ≡ held w
  pub cancel_held : (s o : ℕ) (w : W) → held (t.session_cancel s o w).1 ≡ held w
  pub length_held : (s : ℕ) (w : W) → held (t.operation_state_length s w).2 ≡ held w
  pub state_held : (s : ℕ) (w : W) → held (t.operation_state s w).2 ≡ held w
  pub set_held :
      (s : ℕ) (i : List ℕ) (k : ℕ) (w : W) → held (t.set_operation_state s i k w).1 ≡ held w
  pub fetch_held : (n : List ℕ) (w : W) → held (t.md_fetch n w).1 ≡ held w
  pub new_held : (w : W) → held (t.md_new w).1 ≡ held w
  pub md_free_held : (m : Option ℕ) (w : W) → held (t.md_free m w) ≡ held w
  pub md_init_held : (m : ℕ) (n : List ℕ) (i : ℕ) (w : W) → held (t.md_init m n i w).1 ≡ held w
  pub md_update_held : (m : ℕ) (i : List ℕ) (w : W) → held (t.md_update m i w).1 ≡ held w
  pub md_final_held : (m : ℕ) (w : W) → held (t.md_final m w).2 ≡ held w
  pub md_copy_held : (m n : ℕ) (w : W) → held (t.md_copy m n w).1 ≡ held w
