-- ===== src/Random.antt =====
-- src/random.c: random numbers from a token.
mod Tests
use pkcs11_provider.Base.{
  ℕ, ◌+◌, ◌-◌, ◌≡◌, refl, ◌≢◌, ◌⊎◌, inl, inr, Bool, true, false, ◌&&◌, Option, none, some, List, [],
  ◌∷◌, arith, ◌==◌, if◌then◌else◌, Bool-cases,
}
use pkcs11_provider.Codes.{unavailable}
use pkcs11_provider.Codes.Rv

-- What the code asks of src/session.c and of the module.
pub record Source (W : Type 0) : Type 0 where
  -- With the slot: the return value, the session if that is `CKR_OK`, the slot that is then left in the
  -- context, the world.
  pub get_session : ℕ → W → ℕ × ℕ × ℕ × W
  pub return_session : ℕ → W → W
  pub seed_random : ℕ → List ℕ → W → ℕ × W
  -- With the session and the length: the return value and the bytes.
  pub generate_random : ℕ → ℕ → W → ℕ × List ℕ × W

module _ {W : Type 0} (t : Source W) where
  -- A seed that is null or empty is left out; what the module answers to one is ignored.
  seed : ℕ → Option (List ℕ) → W → W
  seed s none w = w
  seed s (some []) w = w
  seed s (some (b ∷ bs)) w = (t.seed_random s (b ∷ bs) w).1

  -- With the context's slot, the length and the additional input: whether it succeeds, the bytes and the
  -- slot.
  pub generate : ℕ → ℕ → Option (List ℕ) → W → Bool × List ℕ × ℕ × W
  unfolding seed
  generate slotid outlen adin w =
      let (ret, s, slotid', w1) = t.get_session slotid w in
      let (ret', out, w2) = t.generate_random s outlen (seed s adin w1) in
      if ret == Rv.ok
      then (ret' == Rv.ok, out, slotid', t.return_session s w2)
      else (false, [], slotid', w1)

  -- With the context's slot, the entropy and the additional input.
  pub reseed : ℕ → Option (List ℕ) → Option (List ℕ) → W → Bool × ℕ × W
  unfolding seed
  reseed slotid entropy adin w =
      let (ret, s, slotid', w1) = t.get_session slotid w in
      let res = false in
      if ret == Rv.ok
      then (res, slotid', t.return_session s (seed s adin (seed s entropy w1)))
      else (res, slotid', w1)

  -- `p11prov_check_random`.
  pub check_random : W → ℕ × W
  unfolding generate
  check_random w =
      let (done, out, slotid, w') = generate unavailable 8 none w in
      (if done then Rv.ok else Rv.function_not_supported, w')

-- `held` counts the sessions that were taken and not given back: only `get_session` takes one, when it
-- succeeds, and only `return_session` gives one back.
pub record Counts {W : Type 0} (t : Source W) (held : W → ℕ) : Type 0 where
  pub taken :
      (i : ℕ) (w : W) → (t.get_session i w).0 ≡ Rv.ok → held (t.get_session i w).3 ≡ held w + 1
  pub not_taken :
      (i : ℕ) (w : W) → (t.get_session i w).0 ≢ Rv.ok → held (t.get_session i w).3 ≡ held w
  pub returned : (s : ℕ) (w : W) → held (t.return_session s w) ≡ held w - 1
  pub seed_held : (s : ℕ) (i : List ℕ) (w : W) → held (t.seed_random s i w).1 ≡ held w
  pub generate_held : (s n : ℕ) (w : W) → held (t.generate_random s n w).2 ≡ held w

module _ {W : Type 0} (t : Source W) (held : W → ℕ) (laws : Counts t held) where
  seed-held : (s : ℕ) (bytes : Option (List ℕ)) (w : W) → held (seed t s bytes w) ≡ held w
  unfolding seed
  seed-held s none w = refl
  seed-held s (some []) w = refl
  seed-held s (some (b ∷ bs)) w = laws.seed_held s (b ∷ bs) w

  generate-held :
      (slotid outlen : ℕ) (adin : Option (List ℕ)) (w : W)
      → held (generate t slotid outlen adin w).3 ≡ held w
  unfolding generate
  generate-held slotid outlen adin w =
      let (ret, s, slotid', w1) = t.get_session slotid w in
      let v = seed t s adin w1 in
      let e1 = seed-held s adin w1 in
      let e2 = laws.generate_held s outlen v in
      let r = laws.returned s (t.generate_random s outlen v).2 in
      elim (Bool-cases (ret == Rv.ok)) [
        | inr bad ↦ let same = laws.not_taken slotid w (ground arith) in rw bad same
        | inl good ↦
            let more = laws.taken slotid w (ground arith) in
            rw good (omega (arith, e1, e2, r, more))
      ]

  -- Where sessions are taken and given back only by `p11prov_get_session` and `p11prov_return_session`:
  -- `p11prov_rand_reseed` gives back the session that it took, and it never succeeds, also where the module takes the entropy.
  pub reseed_fails :
      (slotid : ℕ) (entropy adin : Option (List ℕ)) (w : W)
      → ((reseed t slotid entropy adin w).0 ≡ false)
        × (held (reseed t slotid entropy adin w).2 ≡ held w)
  unfolding reseed
  reseed_fails slotid entropy adin w =
      let (ret, s, slotid', w1) = t.get_session slotid w in
      let v = seed t s entropy w1 in
      let e1 = seed-held s entropy w1 in
      let e2 = seed-held s adin v in
      let r = laws.returned s (seed t s adin v) in
      elim (Bool-cases (ret == Rv.ok)) [
        | inr bad ↦ let same = laws.not_taken slotid w (ground arith) in rw bad (refl, same)
        | inl good ↦
            let more = laws.taken slotid w (ground arith) in
            rw good (refl, omega (arith, e1, e2, r, more))
      ]

  -- Where sessions are taken and given back only by `p11prov_get_session` and `p11prov_return_session`:
  -- the test of the random numbers leaves no session taken, and it answers `CKR_OK` exactly if a session was to be had and the module
  -- then generated bytes on it.
  pub check_random_lem :
      (w : W)
      → let (ret, s, i, w1) = t.get_session unavailable w in
        ((check_random t w).0 ≡ (
          if ret == Rv.ok && (t.generate_random s 8 w1).0 == Rv.ok
          then Rv.ok
          else Rv.function_not_supported))
        × (held (check_random t w).1 ≡ held w)
  unfolding check_random
  check_random_lem w =
      let (ret, s, i, w1) = t.get_session unavailable w in
      (answered (Bool-cases (ret == Rv.ok)), generate-held unavailable 8 none w)
    where
      answered :
          let (ret, s, i, w1) = t.get_session unavailable w in
          ((ret == Rv.ok) ≡ true) ⊎ ((ret == Rv.ok) ≡ false)
          → (check_random t w).0 ≡ (
              if ret == Rv.ok && (t.generate_random s 8 w1).0 == Rv.ok
              then Rv.ok
              else Rv.function_not_supported)
      answered (inl good) = rw good refl
      answered (inr bad) = rw bad refl
