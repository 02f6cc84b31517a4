-- ===== src/Access/Login/Pins.antt =====
-- Which pins are sent to a token.
use pkcs11_provider.Base.{
  ℕ, ◌≡◌, ◌≢◌, ◌⊎◌, Bool, true, Option, some, List, arith, has_flag, same_bytes_refl,
}
use pkcs11_provider.Codes.Flag
use pkcs11_provider.Codes.Rv
use pkcs11_provider.Slot.{Slot}
use pkcs11_provider.Access.{Desk, Config}
use pkcs11_provider.Session.{Host, Session}
use pkcs11_provider.Access.Login.{stored_pin, try_pin}

stored_pin-differs :
    (cfg : Config) (uri_pin : Option (List ℕ)) (slot : Slot) (bad : List ℕ)
    → slot.bad_pin ≡ some bad
    → stored_pin cfg uri_pin slot ≢ some bad
unfolding stored_pin
stored_pin-differs cfg uri_pin slot bad e = ground (arith, same_bytes_refl bad)

module _ {W : Type 0} (h : Host W) (d : Desk W) (cfg : Config) where
  -- When the token is on its last attempt, its pin is locked or has to be changed, or its state cannot
  -- be had, a login ends with an error before the pin is tried: the session, the slot's memory and the
  -- token are left alone, whatever the pin.
  pub try_pin_refused :
      (user_type : ℕ) (pin : Option (List ℕ)) (cache : Bool) (s : Session) (slot : Slot) (w : W)
      → let (rv, flags, w1) = d.get_token_info w slot.id in
        (rv ≢ Rv.ok)
          ⊎ ((has_flag flags Flag.user_pin_final_try ≡ true)
              ⊎ ((has_flag flags Flag.user_pin_locked ≡ true)
                  ⊎ (has_flag flags Flag.user_pin_to_be_changed ≡ true)))
        → let (ret, s', slot', w') = try_pin h d cfg user_type pin cache s slot w in
          (ret ≢ Rv.ok) × (s' ≡ s) × (slot' ≡ slot) × (w' ≡ w1)
  unfolding try_pin
  try_pin_refused user_type pin cache s slot w danger =
      (ground arith, ground arith, ground arith, ground arith)

  remembers :
      (user_type : ℕ) (pin : List ℕ) (cache : Bool) (s : Session) (slot : Slot) (w : W)
      → ((v : W) → (h.alloc v).0 ≡ true)
      → (d.get_token_info w slot.id).0 ≢ Rv.pin_incorrect
      → (try_pin h d cfg user_type (some pin) cache s slot w).0 ≡ Rv.pin_incorrect
      → (try_pin h d cfg user_type (some pin) cache s slot w).2.bad_pin ≡ some pin
  unfolding try_pin
  remembers user_type pin cache s slot w room odd e =
      let w1 = (d.get_token_info w slot.id).2 in
      ground (arith, room (d.login w1 s.handle user_type (some pin)).1)

  -- If there is memory for it, and the state of the token can be asked without the answer
  -- `CKR_PIN_INCORRECT`, a pin that the token found incorrect is not taken again from the URI, the
  -- configuration or the cache.
  pub try_pin_incorrect :
      (user_type : ℕ) (pin : List ℕ) (cache : Bool) (s : Session) (slot : Slot) (w : W)
      → ((v : W) → (h.alloc v).0 ≡ true)
      → (d.get_token_info w slot.id).0 ≢ Rv.pin_incorrect
      → let (ret, s', slot', w') = try_pin h d cfg user_type (some pin) cache s slot w in
        ret ≡ Rv.pin_incorrect
        → (cfg' : Config) (uri_pin : Option (List ℕ)) → stored_pin cfg' uri_pin slot' ≢ some pin
  try_pin_incorrect user_type pin cache s slot w room odd e cfg' uri_pin =
      stored_pin-differs cfg' uri_pin _ pin (remembers user_type pin cache s slot w room odd e)
