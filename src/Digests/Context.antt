-- ===== src/Digests/Context.antt =====
-- src/digests.c: the contexts of digests and their sessions.
pub mod Counted
use pkcs11_provider.Base.{
  ℕ, Bool, true, false, not, Option, none, some, List, [], ◌∷◌, ltb, ◌==◌, if◌then◌else◌, length,
}
use pkcs11_provider.Codes.{unavailable}
use pkcs11_provider.Codes.Rv
use pkcs11_provider.Digests.{get_digest_size}

-- What the code asks of src/session.c, of the module and of memory, over an unknown state `W`. A session
-- is a number; where none is given, the module is called with an invalid handle.
pub record Token (W : Type 0) : Type 0 where
  pub status : W → ℕ × W
  -- With the slot and the mechanism: the return value, the session if that is `CKR_OK`, the world.
  pub get_session : ℕ → ℕ → W → ℕ × ℕ × W
  pub return_session : Option ℕ → W → W
  pub digest_init : ℕ → ℕ → W → ℕ × W
  pub digest_update : Option ℕ → List ℕ → W → ℕ × W
  -- With the size of the buffer: the return value and the bytes written.
  pub digest_final : Option ℕ → ℕ → W → ℕ × List ℕ × W
  -- The call for the length, and that for the state.
  pub operation_state_length : ℕ → W → ℕ × ℕ × W
  pub operation_state : ℕ → W → ℕ × List ℕ × W
  pub malloc : ℕ → W → Bool × W
  pub set_operation_state : ℕ → List ℕ → W → ℕ × W

-- `struct p11prov_digest_ctx`.
pub record Context : Type 0 where
  pub mechtype : ℕ
  pub session : Option ℕ

-- The context that `DISPATCH_DIGEST_NEWCTX_FN` makes for a mechanism.
abbrev pub newctx : ℕ → Context
newctx mech = record { mechtype = mech; session = none }

module _ {W : Type 0} (t : Token W) where
  -- The parameter for the slot may be missing, and may be unreadable.
  abbrev slot_param : Option (Option ℕ) → Option ℕ
  slot_param none = some unavailable
  slot_param (some v) = v

  init_at : ℕ → Context → W → Bool × Context × W
  init_at slotid c w =
      let (ret, s, w1) = t.get_session slotid c.mechtype w in
      let (ret', w2) = t.digest_init s c.mechtype w1 in
      if not (ret == Rv.ok)
      then (false, c, w1)
      else (if ret' == Rv.ok
          then (true, record c { session = some s }, w2)
          else (false, record c { session = none }, t.return_session (some s) w2))

  unfoldable pub init : Option (Option ℕ) → Context → W → Bool × Context × W
  unfolding init_at
  init param c w =
      let (status, w1) = t.status w in
      let begun : Bool × Context × W = elim (slot_param param) [
        | none ↦ (false, c, w1)
        | some slotid ↦ init_at slotid c w1
      ] in
      if status == Rv.ok then begun else (false, c, w1)

  pub update : List ℕ → Context → W → Bool × W
  update [] c w = (true, w)
  update (b ∷ bs) c w = let (ret, w') = t.digest_update c.session (b ∷ bs) w in (ret == Rv.ok, w')

  -- Whether it succeeds, what it writes to `*size` and into the buffer.
  pub final : ℕ → Context → W → Bool × Option ℕ × List ℕ × W
  final buf_size c w =
      let (ret, size) = get_digest_size c.mechtype in
      elim size [
        | none ↦ (false, none, [], w)
        | some digest_size ↦
            let (ret', out, w') = t.digest_final c.session digest_size w in
            if buf_size == 0
            then (true, some digest_size, [], w)
            else (if ltb buf_size digest_size
                then (true, none, [], w)
                else (if ret' == Rv.ok
                    then (true, some (length out), out, w')
                    else (false, none, [], w')))
      ]

  -- The old context takes a second session and the saved state.
  restore : List ℕ → Context → W → Context × W
  restore state c w =
      let (ret, s, w1) = t.get_session unavailable c.mechtype w in
      let (ret', w2) = t.set_operation_state s state w1 in
      if not (ret == Rv.ok)
      then (c, w1)
      else (if ret' == Rv.ok
          then (record c { session = some s }, w2)
          else (c, t.return_session (some s) w2))

  -- Behind the move of the session `s` to the new context.
  save : ℕ → Context → W → Context × W
  unfolding restore
  save s c w =
      let (ret, len, w1) = t.operation_state_length s w in
      let (room, w2) = t.malloc len w1 in
      let (ret', state, w3) = t.operation_state s w2 in
      if not (ret == Rv.ok)
      then (c, w1)
      else (if not room then (c, w2) else (if ret' == Rv.ok then restore state c w3 else (c, w3)))

  -- The old context and the new one, where there is memory.
  pub dupctx : Context → W → Context × Context × W
  unfolding save
  dupctx c w = elim c.session [
    | none ↦ (c, c, w)
    | some s ↦ let (c', w') = save s (record c { session = none }) w in (c', c, w')
  ]

  pub freectx : Context → W → W
  freectx c w = t.return_session c.session w
