-- ===== src/Session/Fetch/Tests.antt =====
-- A run of `fetch_session` that gives out a free session.
use pkcs11_provider.Base.{◌≡◌, refl, false, some, get_elem?}
use pkcs11_provider.Session.Fetch.Exclusive.{Given, fetch_session-Given}
use pkcs11_provider.Session.{Session}
use pkcs11_provider.Codes.Rv
use pkcs11_provider.Session.Samples.{calm, sample_pool}
use pkcs11_provider.Session.Fetch.{fetch_session, looks, look_referenced, look_free, passes, scan}

fetch_session-Given_example :
    let (rv, r, p', w') = fetch_session calm sample_pool 4 false 0 in
    (rv ≡ Rv.ok) × ((s : Session) × (get_elem? p'.sessions 1 ≡ some s) × Given calm 1 s)
unfolding fetch_session looks look_referenced look_free passes scan
fetch_session-Given_example = fetch_session-Given calm sample_pool 4 false 0 1 refl
