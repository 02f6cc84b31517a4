-- ===== src/Access/Login/Tests.antt =====
-- A login with a wrong pin, and one on the last attempt.
use pkcs11_provider.Base.{
  ℕ, ◌≡◌, refl, ◌≢◌, inl, inr, true, false, Option, none, some, [], ◌∷◌, arith,
}
use pkcs11_provider.Slot.{Slot}
use pkcs11_provider.Access.Login.Ends.{Left, after_fetch-Left}
use pkcs11_provider.Access.Login.Pins.{try_pin_incorrect, try_pin_refused}
use pkcs11_provider.Codes.Rv
use pkcs11_provider.Codes.Rv
use pkcs11_provider.Access.Login.Pins.{try_pin_incorrect}
use pkcs11_provider.Slot.Samples.{slot_with}
use pkcs11_provider.Codes.{cku_user}
use pkcs11_provider.Access.Samples.{desk, config}
use pkcs11_provider.Session.Samples.{
  calm, free_session, sample_pool, calm-Ticks, calm-GivesHandles, calm-IsQuiet, used_session,
}
use pkcs11_provider.Access.Login.{try_pin, check_pin_flags_ok, logged_in, stored_pin, after_fetch}

try_pin_incorrect_example :
    stored_pin config
      (some (48 ∷ []))
      (try_pin calm desk config cku_user (some (48 ∷ [])) true free_session (slot_with 6) 0).2
    ≢ some (48 ∷ [])
unfolding try_pin check_pin_flags_ok logged_in
try_pin_incorrect_example =
    try_pin_incorrect calm desk config cku_user (48 ∷ []) true free_session (slot_with 6) 0
      (λ v. refl) (omega arith) refl config (some (48 ∷ []))

try_pin_refused_example :
    let (ret, s', slot', w') =
      try_pin calm desk config cku_user none true free_session (slot_with 6) 3 in
    (ret ≢ Rv.ok) × (s' ≡ free_session) × (slot' ≡ slot_with 6) × (w' ≡ 3)
try_pin_refused_example =
    try_pin_refused calm desk config cku_user none true free_session (slot_with 6) 3
      (inr (inl refl))

after_fetch-Left_example :
    (out : ℕ × Option ℕ × Slot × ℕ) × (after_fetch calm desk config 20003 none false true
        (slot_with 6)
        (Rv.ok, some 0, sample_pool, 0)
      ≡ some out)
    × Left true 0 out
after_fetch-Left_example =
    after_fetch-Left calm calm-Ticks calm-GivesHandles desk config 20001 (omega arith) calm-IsQuiet
      none false true (slot_with 6) sample_pool 0 used_session 0 refl refl refl
