-- ===== src/Access/Login/Kept.antt =====
-- What a login leaves as it is.
use pkcs11_provider.Base.{
  ℕ, ◌≡◌, refl, ◌∙◌, Bool, true, false, Option, none, some, List, arith, if◌then◌else◌,
}
use pkcs11_provider.Session.Fetch.{is_login_state}
use pkcs11_provider.Codes.{cku_user}
use pkcs11_provider.Codes.Rv
use pkcs11_provider.Access.Login.{try_pin, token_login, logged_in, Pin, choose_pin}
use pkcs11_provider.Slot.{Slot, set_bad_pin, set_cached_pin}
use pkcs11_provider.Session.Handle.{session_ref}
use pkcs11_provider.Access.{Desk, Config}
use pkcs11_provider.Session.{Host, Session}
use pkcs11_provider.Access.Login.{Pin, no_pin, stored, asked, failed}

module _ {W : Type 0} (h : Host W) (d : Desk W) (cfg : Config) where
  -- The session keeps its claim and its pool, and the slot its pool.
  pub record Kept (s : Session) (slot : Slot) (r : ℕ × Session × Slot × W) : Type 0 where
    pub used : r.1.in_use ≡ s.in_use
    pub pooled : r.1.pooled ≡ s.pooled
    pub same : r.2.pool ≡ slot.pool

  try_pin-Kept :
      (user_type : ℕ) (pin : Option (List ℕ)) (cache : Bool) (s : Session) (slot : Slot) (w : W)
      → Kept s slot (try_pin h d cfg user_type pin cache s slot w)
  unfolding try_pin logged_in set_bad_pin set_cached_pin session_ref
  try_pin-Kept user_type none cache s slot w = record {
    used = ground arith;
    pooled = ground arith;
    same = ground arith;
  }
  try_pin-Kept user_type (some p) cache s slot w = record {
    used = ground arith;
    pooled = ground arith;
    same = ground arith;
  }

  token_login-Kept :
      (uri_pin : Option (List ℕ)) (has_cb : Bool) (user_type : ℕ) (s : Session) (slot : Slot)
      (w : W)
      → Kept s slot (token_login h d cfg uri_pin has_cb user_type s slot w)
  unfolding token_login
  token_login-Kept uri_pin has_cb user_type s slot w =
      by_choice (choose_pin h d cfg has_cb uri_pin slot w)
    where
      by_choice :
          (c : Pin × W)
          → Kept s slot (elim (c.0) [
            | no_pin ↦ try_pin h d cfg user_type none false s slot (c.1)
            | stored p ↦ try_pin h d cfg user_type (some p) false s slot (c.1)
            | asked p ↦ try_pin h d cfg user_type (some p) cfg.cache_pins s slot (c.1)
            | failed rv ↦ (rv, s, slot, c.1)
          ])
      by_choice (no_pin, v) = try_pin-Kept user_type none false s slot v
      by_choice (stored p, v) = try_pin-Kept user_type (some p) false s slot v
      by_choice (asked p, v) = try_pin-Kept user_type (some p) cfg.cache_pins s slot v
      by_choice (failed rv, v) = record { used = refl; pooled = refl; same = refl }

  pub Kept-if :
      (b : Bool) (s : Session) (slot : Slot) (r r' : ℕ × Session × Slot × W)
      → Kept s slot r
      → Kept s slot r'
      → Kept s slot (if b then r else r')
  Kept-if true s slot r r' k k' = k
  Kept-if false s slot r r' k k' = k'

  pub Kept-from :
      (s t : Session) (slot : Slot) (r : ℕ × Session × Slot × W)
      → t.in_use ≡ s.in_use
      → t.pooled ≡ s.pooled
      → Kept t slot r
      → Kept s slot r
  Kept-from s t slot r used pooled k = record {
    used = k.used ∙ used;
    pooled = k.pooled ∙ pooled;
    same = k.same;
  }

  -- The step that logs in, unless the session is in a login state.
  pub log_in-Kept :
      (uri_pin : Option (List ℕ)) (has_cb : Bool) (s : Session) (slot : Slot) (w : W)
      → Kept s slot (
          if is_login_state s.state
          then (Rv.ok, s, slot, w)
          else token_login h d cfg uri_pin has_cb cku_user s slot w)
  log_in-Kept uri_pin has_cb s slot w =
      Kept-if (is_login_state s.state) s slot (Rv.ok, s, slot, w) _
        (record { used = refl; pooled = refl; same = refl })
        (token_login-Kept uri_pin has_cb cku_user s slot w)
