-- ===== src/Access/Samples.antt =====
-- A token for the examples, which knows one pin, and a configuration.
use pkcs11_provider.Base.{ℕ, suc, true, false, none, some, [], ◌∷◌, ltb, if◌then◌else◌, same_bytes}
use pkcs11_provider.Codes.Flag
use pkcs11_provider.Codes.Rv
use pkcs11_provider.Access.{Desk, Config}

-- The pin is 49 50; the world counts the attempts.
abbrev pub desk : Desk ℕ
desk = record {
  login = λ w s user pin. (
    elim pin [
      | none ↦ Rv.pin_incorrect
      | some p ↦ if same_bytes p (49 ∷ 50 ∷ []) then Rv.ok else Rv.pin_incorrect
    ],
    suc w,
  );
  get_token_info =
      λ w s. (Rv.ok, if ltb w 3 then Flag.token_initialized else Flag.user_pin_final_try, w);
  pw_cb = λ w. (none, w);
  prompt_for_pin = λ w. (some (49 ∷ 50 ∷ []), w);
}

abbrev pub config : Config
config = record {
  login_behavior = 0;
  cache_pins = true;
  no_session_callbacks = false;
  ctx_pin = none;
}
