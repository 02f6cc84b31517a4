-- ===== src/Access.antt =====
-- The part of src/session.c above a single pool: logins, and the choice of a slot and a session for a
-- caller. What runs in a slot changes that slot: its session pool and the pins that it remembers.
pub mod Login
pub mod Get
pub mod Refs
pub mod Samples
mod Tests
use pkcs11_provider.Base.{ℕ, Bool, Option, List}
use pkcs11_provider.Uri.Parse.{Uri}

-- What the code asks of the token and the user for a login.
pub record Desk (W : Type 0) : Type 0 where
  -- `C_Login` with the handle, the user type and the pin, if any.
  pub login : W → ℕ → ℕ → Option (List ℕ) → ℕ × W
  -- `C_GetTokenInfo`: the return value and the flags.
  pub get_token_info : W → ℕ → ℕ × ℕ × W
  -- The caller's passphrase callback and the provider's own prompt: the pin, if one was given.
  pub pw_cb : W → Option (List ℕ) × W
  pub prompt_for_pin : W → Option (List ℕ) × W

-- The provider's configuration, as far as it is read here.
pub record Config : Type 0 where
  pub login_behavior : ℕ
  pub cache_pins : Bool
  pub no_session_callbacks : Bool
  pub ctx_pin : Option (List ℕ)

-- `PUBKEY_LOGIN_ALWAYS` of src/provider.h.
abbrev pub login_always : ℕ
login_always = 1

-- A caller of `p11prov_get_session`: its URI, its mechanism, whether it has a passphrase callback, and
-- what kind of session it wants.
pub record Request : Type 0 where
  pub uri : Option Uri
  pub mechtype : ℕ
  pub has_cb : Bool
  pub reqlogin : Bool
  pub rw_session : Bool
