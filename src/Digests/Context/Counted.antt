-- ===== src/Digests/Context/Counted.antt =====
-- How each call on a digest's context changes the number of sessions that are taken.
use pkcs11_provider.Base.{
  ℕ, ◌+◌, ◌-◌, ◌≡◌, refl, ap, ◌∙◌, ◌≢◌, inl, inr, Bool, true, false, Option, none, some, List, [],
  ◌∷◌, arith, ltb, ◌==◌, if◌then◌else◌, Bool-cases, length, set,
}
use pkcs11_provider.Codes.Rv
use pkcs11_provider.Codes.{unavailable}
use pkcs11_provider.Digests.{get_digest_size}
use pkcs11_provider.Digests.Context.{
  Token, Context, init_at, init, update, final, restore, save, dupctx, freectx, slot_param,
}

-- `held` counts the sessions that were taken and not given back: only `get_session` takes one, when it
-- succeeds, and only `return_session` gives one back, unless it is called with none.
pub record Counts {W : Type 0} (t : Token W) (held : W → ℕ) : Type 0 where
  pub status_held : (w : W) → held (t.status w).1 ≡ held w
  pub taken :
      (i m : ℕ) (w : W)
      → (t.get_session i m w).0 ≡ Rv.ok
      → held (t.get_session i m w).2 ≡ held w + 1
  pub not_taken :
      (i m : ℕ) (w : W) → (t.get_session i m w).0 ≢ Rv.ok → held (t.get_session i m w).2 ≡ held w
  pub returned : (s : ℕ) (w : W) → held (t.return_session (some s) w) ≡ held w - 1
  pub none_returned : (w : W) → held (t.return_session none w) ≡ held w
  pub init_held : (s m : ℕ) (w : W) → held (t.digest_init s m w).1 ≡ held w
  pub update_held : (s : Option ℕ) (i : List ℕ) (w : W) → held (t.digest_update s i w).1 ≡ held w
  pub final_held : (s : Option ℕ) (n : ℕ) (w : W) → held (t.digest_final s n w).2 ≡ held w
  pub length_held : (s : ℕ) (w : W) → held (t.operation_state_length s w).2 ≡ held w
  pub state_held : (s : ℕ) (w : W) → held (t.operation_state s w).2 ≡ held w
  pub malloc_held : (n : ℕ) (w : W) → held (t.malloc n w).1 ≡ held w
  pub set_held : (s : ℕ) (i : List ℕ) (w : W) → held (t.set_operation_state s i w).1 ≡ held w

-- One for a context with a session.
abbrev pub holds_session : Context → ℕ
holds_session c = elim c.session [ none ↦ 0 | some s ↦ 1 ]

module _ {W : Type 0} (t : Token W) (held : W → ℕ) (laws : Counts t held) where
  init_at-held :
      (slotid : ℕ) (c : Context) (w : W)
      → let (done, c', w') = init_at t slotid c w in
        (c.session ≡ none → held w' ≡ held w + holds_session c')
        × (done ≡ true → held w' ≡ held w + 1)
        × (done ≡ true → holds_session c' ≡ 1)
  unfolding init_at
  init_at-held slotid c w =
      let (ret, s, w1) = t.get_session slotid c.mechtype w in
      let (ret', w2) = t.digest_init s c.mechtype w1 in
      let e = laws.init_held s c.mechtype w1 in
      let r = laws.returned s w2 in
      elim (Bool-cases (ret == Rv.ok)) [
        | inr bad ↦
            let same = laws.not_taken slotid c.mechtype w (ground arith) in
            rw bad (
              λ free. rw (holds_session, free) (omega (arith, same)),
              λ d. absurd cc,
              λ d. absurd cc,
            )
        | inl good ↦
            let more = laws.taken slotid c.mechtype w (ground arith) in
            elim (Bool-cases (ret' == Rv.ok)) [
              | inl begun ↦
                  rw (good, begun)
                    (λ free. omega (arith, e, more), λ d. omega (arith, e, more), λ d. refl)
              | inr failed ↦
                  rw (good, failed)
                    (λ free. omega (arith, e, more, r), λ d. absurd cc, λ d. absurd cc)
            ]
      ]

  -- `init` on a context without a session; and what it takes where it succeeds, on any context.
  pub init-held :
      (param : Option (Option ℕ)) (c : Context) (w : W)
      → let (done, c', w') = init t param c w in
        (c.session ≡ none → held w' ≡ held w + holds_session c')
        × (done ≡ true → held w' ≡ held w + 1)
        × (done ≡ true → holds_session c' ≡ 1)
  unfolding init
  init-held param c w =
      let e = laws.status_held w in
      let w1 = (t.status w).1 in
      elim (Bool-cases ((t.status w).0 == Rv.ok)) [
        | inr bad ↦
            rw bad
              (λ free. rw (holds_session, free) (omega (arith, e)), λ d. absurd cc, λ d. absurd cc)
        | inl good ↦ rw good (by_slot (slot_param t param) w1 e)
      ]
    where
      by_slot :
          (slot : Option ℕ) (v : W)
          → held v ≡ held w
          → let r : Bool × Context × W = elim slot [
            | none ↦ (false, c, v)
            | some slotid ↦ init_at t slotid c v
          ] in
            (c.session ≡ none → held r.2 ≡ held w + holds_session r.1)
            × (r.0 ≡ true → held r.2 ≡ held w + 1)
            × (r.0 ≡ true → holds_session r.1 ≡ 1)
      by_slot none v e =
          (λ free. rw (holds_session, free) (omega (arith, e)), λ d. absurd cc, λ d. absurd cc)
      by_slot (some slotid) v e =
          let (one, two, three) = init_at-held slotid c v in
          (
            λ free. one free ∙ ap (λ n. n + holds_session (init_at t slotid c v).1) e,
            λ d. two d ∙ ap (λ n. n + 1) e,
            three,
          )

  pub update-held : (bytes : List ℕ) (c : Context) (w : W) → held (update t bytes c w).1 ≡ held w
  unfolding update
  update-held [] c w = refl
  update-held (b ∷ bs) c w = laws.update_held c.session (b ∷ bs) w

  pub final-held : (buf_size : ℕ) (c : Context) (w : W) → held (final t buf_size c w).3 ≡ held w
  unfolding final
  final-held buf_size c w = by_size (get_digest_size c.mechtype).1
    where
      by_size :
          (size : Option ℕ)
          → let r : Bool × Option ℕ × List ℕ × W = elim size [
            | none ↦ (false, none, [], w)
            | some digest_size ↦
                let (ret', out, w') = t.digest_final c.session digest_size w in
                if buf_size == 0
                then (true, some digest_size, [], w)
                else (if ltb buf_size digest_size
                    then (true, none, [], w)
                    else (if ret' == Rv.ok
                        then (true, some (length out), out, w')
                        else (false, none, [], w')))
          ] in
            held r.3 ≡ held w
      by_size none = refl
      by_size (some n) = let e = laws.final_held c.session n w in ground (arith, e)

  restore-held :
      (state : List ℕ) (c : Context) (w : W)
      → c.session ≡ none
      → let (c', w') = restore t state c w in held w' ≡ held w + holds_session c'
  unfolding restore
  restore-held state c w free =
      let (ret, s, w1) = t.get_session unavailable c.mechtype w in
      let (ret', w2) = t.set_operation_state s state w1 in
      let e = laws.set_held s state w1 in
      let r = laws.returned s w2 in
      elim (Bool-cases (ret == Rv.ok)) [
        | inr bad ↦
            let same = laws.not_taken unavailable c.mechtype w (ground arith) in
            rw (bad, holds_session, free) (omega (arith, same))
        | inl good ↦
            let more = laws.taken unavailable c.mechtype w (ground arith) in
            elim (Bool-cases (ret' == Rv.ok)) [
              | inl set ↦ rw (good, set) (omega (arith, e, more))
              | inr failed ↦ rw (good, failed, holds_session, free) (omega (arith, e, more, r))
            ]
      ]

  save-held :
      (s : ℕ) (c : Context) (w : W)
      → c.session ≡ none
      → let (c', w') = save t s c w in held w' ≡ held w + holds_session c'
  unfolding save
  save-held s c w free =
      let (ret, len, w1) = t.operation_state_length s w in
      let (room, w2) = t.malloc len w1 in
      let (ret', state, w3) = t.operation_state s w2 in
      let e1 = laws.length_held s w in
      let e2 = laws.malloc_held len w1 in
      let e3 = laws.state_held s w2 in
      let none' : holds_session c ≡ 0 = rw (holds_session, free) refl in
      let r = restore-held state c w3 free in
      elim (Bool-cases (ret == Rv.ok)) [
        | inr bad ↦ rw bad (omega (arith, e1, none'))
        | inl good ↦ elim (Bool-cases room) [
          | inr full_memory ↦ rw (good, full_memory) (omega (arith, e1, e2, none'))
          | inl there ↦ elim (Bool-cases (ret' == Rv.ok)) [
            | inr bad ↦ rw (good, there, bad) (omega (arith, e1, e2, e3, none'))
            | inl saved ↦ rw (good, there, saved) (omega (arith, e1, e2, e3, r))
          ]
        ]
      ]

  pub dupctx-held :
      (n : ℕ) (c : Context) (w : W)
      → held w ≡ n + holds_session c
      → let (c', d, w') = dupctx t c w in held w' ≡ n + holds_session c' + holds_session d
  unfolding dupctx
  dupctx-held n c w one = by_session c.session one
    where
      by_session :
          (o : Option ℕ)
          → held w ≡ n + elim o [ none ↦ 0 | some s ↦ 1 ]
          → let (c', d, w') = dupctx t (record c { session = o }) w in
            held w' ≡ n + holds_session c' + holds_session d
      by_session none one = omega (arith, one)
      by_session (some s) one = omega (arith, one, save-held s (record c { session = none }) w refl)

  pub freectx-held :
      (n : ℕ) (c : Context) (w : W) → held w ≡ n + holds_session c → held (freectx t c w) ≡ n
  unfolding freectx
  freectx-held n c w one = by_session c.session one
    where
      by_session :
          (o : Option ℕ)
          → held w ≡ n + elim o [ none ↦ 0 | some s ↦ 1 ]
          → held (t.return_session o w) ≡ n
      by_session none one = omega (arith, one, laws.none_returned w)
      by_session (some s) one = omega (arith, one, laws.returned s w)
