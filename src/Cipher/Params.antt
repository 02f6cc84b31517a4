-- ===== src/Cipher/Params.antt =====
-- src/cipher.c: the context of a cipher, and the parameters that OpenSSL sets on it.
pub mod Kept
use pkcs11_provider.Base.{
  ℕ, ◌/◌, Bool, true, false, not, ◌||◌, Option, none, some, List, ltb, ◌==◌, if◌then◌else◌, codes,
  same_bytes,
}

-- `CKF_ENCRYPT` and `CKF_DECRYPT`.
abbrev pub ckf_encrypt : ℕ
ckf_encrypt = 0x100

abbrev pub ckf_decrypt : ℕ
ckf_decrypt = 0x200

-- `CKM_AES_*`.
abbrev pub aes_ecb : ℕ
aes_ecb = 0x1081

abbrev pub aes_cbc : ℕ
aes_cbc = 0x1082

abbrev pub aes_cbc_pad : ℕ
aes_cbc_pad = 0x1085

abbrev pub aes_cts : ℕ
aes_cts = 0x1089

-- OpenSSL's `EVP_MAX_MD_SIZE`.
abbrev pub evp_max_md_size : ℕ
evp_max_md_size = 64

pub data SessionState : Type 0 where
  sess_unused : SessionState
  sess_initialized : SessionState
  sess_finalized : SessionState

-- `struct p11prov_cipher_ctx`; `mech` is `mechanism` and `param`.
pub record Context : Type 0 where
  pub key : Option ℕ
  pub keysize : ℕ
  pub pad : Bool
  pub mechanism : ℕ
  pub param : Option (List ℕ)
  pub operation : ℕ
  pub session : Option ℕ
  pub session_state : SessionState
  pub tlsver : ℕ
  pub tlsmacsize : ℕ
  pub tlsmac : Option (List ℕ)

-- `p11prov_cipher_newctx`, where there is memory.
abbrev pub newctx : ℕ → ℕ → Context
newctx size mechanism = record {
  key = none;
  keysize = size / 8;
  pad = true;
  mechanism = mechanism;
  param = none;
  operation = 0;
  session = none;
  session_state = SessionState.sess_unused;
  tlsver = 0;
  tlsmacsize = 0;
  tlsmac = none;
}

-- The parameters of a call that the code looks for: each may be missing, and one that is there may have
-- a value that cannot be read.
pub record Params : Type 0 where
  pub padding : Option (Option ℕ)
  pub cts_mode : Option (Option (List ℕ))
  pub tls_version : Option (Option ℕ)
  pub tls_mac_size : Option (Option ℕ)

abbrev has_session : Context → Bool
has_session c = elim c.session [ none ↦ false | some s ↦ true ]

set_padding : Option (Option ℕ) → Context → Bool × Context
set_padding none c = (true, c)
set_padding (some none) c = (false, c)
set_padding (some (some v)) c =
    let pad = v == 1 in
    let c' = record c { pad = pad } in
    if ltb 1 v
    then (false, c)
    else (if c.mechanism == aes_cbc
        then (true, if pad then record c' { mechanism = aes_cbc_pad } else c')
        else (if c.mechanism == aes_cbc_pad
            then (true, if pad then c' else record c' { mechanism = aes_cbc })
            else (not pad, c')))

check_cts_mode : Option (Option (List ℕ)) → Context → Bool
check_cts_mode none c = true
check_cts_mode (some none) c = not (c.mechanism == aes_cts)
check_cts_mode (some (some mode)) c = not (c.mechanism == aes_cts) || same_bytes mode (codes "CS1")

set_tls_version : Option (Option ℕ) → Context → Bool × Context
set_tls_version none c = (true, c)
set_tls_version (some none) c = (false, c)
set_tls_version (some (some version)) c =
    if version == 0x301 || (version == 0x302 || version == 0x303)
    then (true, record c { tlsver = version })
    else (false, c)

set_tls_mac_size : Option (Option ℕ) → Context → Bool × Context
set_tls_mac_size none c = (true, c)
set_tls_mac_size (some none) c = (false, c)
set_tls_mac_size (some (some macsize)) c =
    if ltb evp_max_md_size macsize then (false, c) else (true, record c { tlsmacsize = macsize })

-- `p11prov_aes_set_ctx_params`: whether it succeeds. What it set before a refusal stays set.
unfoldable pub set_ctx_params : Params → Context → Bool × Context
unfolding set_padding check_cts_mode set_tls_version set_tls_mac_size
set_ctx_params p c =
    let (padded, c1) = set_padding p.padding c in
    let (versioned, c2) = set_tls_version p.tls_version c1 in
    if has_session c
    then (false, c)
    else (if not padded
        then (false, c1)
        else (if not (check_cts_mode p.cts_mode c1)
            then (false, c1)
            else (if not versioned then (false, c2) else set_tls_mac_size p.tls_mac_size c2)))
