-- ===== src/Access/Tests.antt =====
-- Sessions for a slot of the examples.
use pkcs11_provider.Base.{ℕ, ◌≡◌, refl, true, false, Option, none, some, [], ◌∷◌, arith}
use pkcs11_provider.Access.Get.Handles.{pool_session-Delivers, Delivers}
use pkcs11_provider.Slot.Samples.{slot_with}
use pkcs11_provider.Access.Samples.{desk, config}
use pkcs11_provider.Session.Samples.{calm, sample_pool, calm-Ticks, calm-GivesHandles}
use pkcs11_provider.Session.{Pool, bare_session}
use pkcs11_provider.Codes.{unavailable}
use pkcs11_provider.Access.Refs.{try_ref}
use pkcs11_provider.Access.Refs.NoHandle.{try_ref_no_handle}
use pkcs11_provider.Access.Get.{pool_session}
use pkcs11_provider.Slot.{Slot}
use pkcs11_provider.Access.{Request}

abbrev plain_request : Request
plain_request = record {
  uri = none;
  mechtype = unavailable;
  has_cb = false;
  reqlogin = false;
  rw_session = false;
}

pool_session-Delivers_example :
    (ret : ℕ) × (r : Option ℕ) × (s' : Slot) × (w' : ℕ) × (pool_session calm desk config 20003 0
        plain_request
        (slot_with 6)
        0
      ≡ some (ret, r, s', w'))
    × Delivers calm calm-Ticks calm-GivesHandles desk config (ret, r, s'.pool, w')
pool_session-Delivers_example =
    pool_session-Delivers calm calm-Ticks calm-GivesHandles desk config 20001 0 (omega arith)
      plain_request (slot_with 6) 0

-- A session that was returned and has no handle any more.
abbrev bare_pool : Pool
bare_pool = record sample_pool { sessions = bare_session ∷ [] }

try_ref_no_handle_example :
    try_ref calm config 5 6 false bare_pool 0 bare_session 0
    ≡ some (some 0, record bare_pool { sessions = record bare_session { in_use = true } ∷ [] }, 0)
try_ref_no_handle_example =
    try_ref_no_handle calm config 5 6 false bare_pool 0 bare_session 0 refl refl refl refl
