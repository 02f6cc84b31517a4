-- ===== src/Cipher/Params/Kept.antt =====
-- What the parameters of a cipher's context leave alone.
use pkcs11_provider.Base.{ℕ, ◌≤◌, ◌≡◌, refl, Option, none, some, arith}
use pkcs11_provider.Cipher.Params.{
  Params, Context, set_ctx_params, set_padding, set_tls_version, set_tls_mac_size, evp_max_md_size,
}

set_padding-session :
    (o : Option (Option ℕ)) (c : Context) → (set_padding o c).1.session ≡ c.session
unfolding set_padding
set_padding-session none c = refl
set_padding-session (some none) c = refl
set_padding-session (some (some v)) c = ground arith

set_tls_version-session :
    (o : Option (Option ℕ)) (c : Context) → (set_tls_version o c).1.session ≡ c.session
unfolding set_tls_version
set_tls_version-session none c = refl
set_tls_version-session (some none) c = refl
set_tls_version-session (some (some v)) c = ground arith

set_tls_mac_size-session :
    (o : Option (Option ℕ)) (c : Context) → (set_tls_mac_size o c).1.session ≡ c.session
unfolding set_tls_mac_size
set_tls_mac_size-session none c = refl
set_tls_mac_size-session (some none) c = refl
set_tls_mac_size-session (some (some v)) c = ground arith

pub set_ctx_params-session : (p : Params) (c : Context) → (set_ctx_params p c).1.session ≡ c.session
unfolding set_ctx_params
set_ctx_params-session p c =
    let c1 = (set_padding p.padding c).1 in
    let c2 = (set_tls_version p.tls_version c1).1 in
    let e1 = set_padding-session p.padding c in
    let e2 = set_tls_version-session p.tls_version c1 in
    let e3 = set_tls_mac_size-session p.tls_mac_size c2 in ground arith

-- The size of the MAC is at most that of the largest digest.
abbrev pub IsSmall : Context → Type 0
IsSmall c = c.tlsmacsize ≤ evp_max_md_size

set_padding-IsSmall :
    (o : Option (Option ℕ)) (c : Context) → IsSmall c → IsSmall (set_padding o c).1
unfolding set_padding
set_padding-IsSmall none c h = h
set_padding-IsSmall (some none) c h = h
set_padding-IsSmall (some (some v)) c h = ground arith

set_tls_version-IsSmall :
    (o : Option (Option ℕ)) (c : Context) → IsSmall c → IsSmall (set_tls_version o c).1
unfolding set_tls_version
set_tls_version-IsSmall none c h = h
set_tls_version-IsSmall (some none) c h = h
set_tls_version-IsSmall (some (some v)) c h = ground arith

set_tls_mac_size-IsSmall :
    (o : Option (Option ℕ)) (c : Context) → IsSmall c → IsSmall (set_tls_mac_size o c).1
unfolding set_tls_mac_size
set_tls_mac_size-IsSmall none c h = h
set_tls_mac_size-IsSmall (some none) c h = h
set_tls_mac_size-IsSmall (some (some v)) c h = ground arith

pub set_ctx_params-IsSmall : (p : Params) (c : Context) → IsSmall c → IsSmall (set_ctx_params p c).1
unfolding set_ctx_params
set_ctx_params-IsSmall p c h =
    let c1 = (set_padding p.padding c).1 in
    let c2 = (set_tls_version p.tls_version c1).1 in
    let h1 = set_padding-IsSmall p.padding c h in
    let h2 = set_tls_version-IsSmall p.tls_version c1 h1 in
    let h3 = set_tls_mac_size-IsSmall p.tls_mac_size c2 h2 in ground arith
