-- ===== src/Session/Tests.antt =====
-- Runs of the operations on sessions in the calm world.
use pkcs11_provider.Base.{ℕ, ◌≡◌, refl, ◌≢◌, true, false, some, arith, length, get_elem?}
use pkcs11_provider.Session.Handle.Opens.{Opened, token_session_open-Opened}
use pkcs11_provider.Codes.Rv
use pkcs11_provider.Session.Lifecycle.Forks.{AllFresh, fork_reset-AllFresh}
use pkcs11_provider.Session.Release.Idle.{Settled, return_session-Settled}
use pkcs11_provider.Session.Fetch.{fetch_session}
use pkcs11_provider.Session.Samples.{
  calm, sample_pool, calm-IsQuiet, used_session, calm-Ticks, calm-GivesHandles,
}
use pkcs11_provider.Session.Lifecycle.{fork_reset}
use pkcs11_provider.Session.Handle.{token_session_open}
use pkcs11_provider.Session.{Session}
use pkcs11_provider.Session.Release.{return_session}
use pkcs11_provider.Session.Fetch.Bounds.{Grown, fetch_session-Grown}
use pkcs11_provider.Session.Fetch.Reuse.{Chosen, choose, preferences, fetch_session-Chosen}

fetch_session-Chosen_example :
    Chosen calm calm-IsQuiet sample_pool
      (choose (preferences 4) sample_pool.sessions)
      (fetch_session calm sample_pool 4 false 0)
fetch_session-Chosen_example = fetch_session-Chosen calm calm-IsQuiet sample_pool 4 0

fetch_session-Grown_example : Grown calm sample_pool (fetch_session calm sample_pool 4 true 0)
fetch_session-Grown_example = fetch_session-Grown calm sample_pool 4 true 0

return_session-Settled_example :
    let p' = (return_session calm sample_pool (some 0) 0).0 in
    ((s' : Session) × (get_elem? p'.sessions 0 ≡ some s')
      × Settled calm calm-IsQuiet sample_pool used_session s')
    × ((j : ℕ) → 0 ≢ j → get_elem? p'.sessions j ≡ get_elem? sample_pool.sessions j)
return_session-Settled_example =
    return_session-Settled calm calm-IsQuiet sample_pool 0 used_session 0 refl refl

token_session_open-Opened_example :
    (r : ℕ × Session × ℕ) × (token_session_open calm 20003 5 false 4 used_session 0 ≡ some r)
    × Opened used_session r
token_session_open-Opened_example =
    token_session_open-Opened calm calm-Ticks calm-GivesHandles 20001 5 false 4 used_session 0
      (omega arith)

fork_reset-AllFresh_example :
    let p' = (fork_reset calm sample_pool 0).0 in AllFresh p'.sessions × (length p'.sessions ≡ 3)
fork_reset-AllFresh_example = fork_reset-AllFresh calm sample_pool 0 refl
