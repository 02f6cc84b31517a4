-- ===== src/Slot/Samples.antt =====
-- Slots for the examples.
use pkcs11_provider.Base.{ℕ, ◌+◌, none, [], ◌∷◌}
use pkcs11_provider.Session.Samples.{sample_pool}
use pkcs11_provider.Codes.Flag
use pkcs11_provider.Slot.{Slot}

-- A present and initialised token that requires a login and offers two mechanisms.
abbrev pub slot_with : ℕ → Slot
slot_with id = record {
  id = id;
  slot_flags = Flag.token_present;
  token_flags = Flag.login_required + Flag.token_initialized;
  slot_description = [];
  slot_manufacturer = [];
  label = [];
  manufacturer = [];
  model = [];
  serial = [];
  cached_pin = none;
  bad_pin = none;
  mechs = 1 ∷ 9 ∷ [];
  pool = sample_pool;
  objects = none;
}
