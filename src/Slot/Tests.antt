-- ===== src/Slot/Tests.antt =====
-- Runs of the initialisation of the slots and of their lookups.
use pkcs11_provider.Base.{ℕ, ◌≡◌, true, none, [], ◌∷◌, arith}
use pkcs11_provider.Slot.Init.{init_slots-last_fails}
use pkcs11_provider.Codes.Rv
use pkcs11_provider.Slot.Samples.{slot_with}
use pkcs11_provider.Slot.{Slot, Probe, init_slots}

abbrev probe : ℕ → Slot → Probe
probe rv s = record { slot_rv = rv; token_rv = 0; slot = s }

init_slots-last_fails_example :
    init_slots Rv.ok true (probe 0 (slot_with 6) ∷ probe 5 (slot_with 4) ∷ []) ≡ (5, none)
init_slots-last_fails_example =
    init_slots-last_fails (probe 0 (slot_with 6) ∷ []) (probe 5 (slot_with 4)) (omega arith)
      (omega arith)
