-- ===== src/Random/Tests.antt =====
-- Examples on src/random.c: a token that refuses to generate.
use pkcs11_provider.Base.{ℕ, ◌+◌, ◌-◌, ◌≡◌, refl, false, none, some, [], ◌∷◌}
use pkcs11_provider.Codes.Rv
use pkcs11_provider.Random.{Source, Counts, reseed, reseed_fails}

abbrev mute : Source ℕ
mute = record {
  get_session = λ i w. (Rv.ok, w, 0, w + 1);
  return_session = λ s w. w - 1;
  seed_random = λ s i w. (Rv.ok, w);
  generate_random = λ s n w. (Rv.general_error, [], w);
}

mute-Counts : Counts mute (λ w. w)
mute-Counts = record {
  taken = λ i w e. refl;
  not_taken = λ i w e. absurd (e refl);
  returned = λ s w. refl;
  seed_held = λ s i w. refl;
  generate_held = λ s n w. refl;
}

reseed_fails_example :
    ((reseed mute 0 (some (1 ∷ 2 ∷ [])) none 3).0 ≡ false)
    × ((reseed mute 0 (some (1 ∷ 2 ∷ [])) none 3).2 ≡ 3)
reseed_fails_example = reseed_fails mute (λ w. w) mute-Counts 0 (some (1 ∷ 2 ∷ [])) none 3
