-- ===== src/Cipher/Samples.antt =====
-- A small token for examples on src/cipher.c: it counts the sessions that are taken, and its ciphers
-- leave the data as it is.
use pkcs11_provider.Base.{
  ℕ, ◌+◌, ◌-◌, ◌≡◌, refl, Bool, true, ◌&&◌, none, some, List, [], ◌∷◌, arith, ltb, replicate,
  AreBytes,
}
use pkcs11_provider.Codes.Rv
use pkcs11_provider.Cipher.Params.{Params, Context, SessionState, newctx, aes_cbc}
use pkcs11_provider.Cipher.Token.{Token, Output, Counts}
use pkcs11_provider.Cipher.Unpad.{Chance, tls1_0}

abbrev pub lucky : Chance
lucky = record { room = true; seeded = true; randmac = replicate 64 7 }

-- The module writes its input back, or nothing where there is none.
abbrev echo : List ℕ → ℕ → ℕ → Output × ℕ
echo i n w = (record { rv = Rv.ok; out = i; outlen = n }, w)

abbrev pub counter : Token ℕ
counter = record {
  status = λ w. (Rv.ok, w);
  memdup = λ w. (true, w);
  import_secret_key = λ k w. (some 5, w);
  obj_ref = λ k w. (some k, w);
  obj_free = λ k w. w;
  try_session_ref = λ k m w. (Rv.ok, some w, w + 1);
  return_session = λ s w. w - 1;
  mark_broken = λ s w. w;
  encrypt_init = λ s m k w. (Rv.ok, w);
  decrypt_init = λ s m k w. (Rv.ok, w);
  session_cancel = λ s o w. (Rv.ok, w);
  encrypt = λ s i n w. echo i n w;
  decrypt = λ s i n w. echo i n w;
  encrypt_update = λ s i l n w. echo [] n w;
  decrypt_update = λ s i l n w. echo [] n w;
  encrypt_final = λ s n w. echo [] n w;
  decrypt_final = λ s n w. echo [] n w;
  chance = λ w. (lucky, w);
}

pub counter-Counts : Counts counter (λ w. w)
counter-Counts = record {
  status_held = λ w. refl;
  memdup_held = λ w. refl;
  import_held = λ k w. refl;
  ref_held = λ k w. refl;
  free_held = λ k w. refl;
  taken = λ k m w e. (w, refl, refl);
  not_taken = λ k m w e. absurd (e refl);
  returned = λ s w. refl;
  broken_held = λ s w. refl;
  encrypt_init_held = λ s m k w. refl;
  decrypt_init_held = λ s m k w. refl;
  cancel_held = λ s o w. refl;
  encrypt_held = λ s i n w. refl;
  decrypt_held = λ s i n w. refl;
  encrypt_update_held = λ s i l n w. refl;
  decrypt_update_held = λ s i l n w. refl;
  encrypt_final_held = λ s n w. refl;
  decrypt_final_held = λ s n w. refl;
  chance_held = λ w. refl;
}

-- A token whose decryption leaves a buffer of zeros.
abbrev pub zeros : Token ℕ
zeros = record counter {
  decrypt = λ s i n w. (record { rv = Rv.ok; out = replicate n 0; outlen = n }, w);
}

abbrev pub no_params : Params
no_params = record { padding = none; cts_mode = none; tls_version = none; tls_mac_size = none }

-- A context that runs an operation of TLS 1.0 with a MAC of 3 bytes, on the session 4.
abbrev pub tls_context : ℕ → Context
tls_context op = record (newctx 128 aes_cbc) {
  key = some 9;
  operation = op;
  session = some 4;
  session_state = SessionState.sess_initialized;
  tlsver = tls1_0;
  tlsmacsize = 3;
}

-- Lists that a test finds to be of bytes.
abbrev all_bytes : List ℕ → Bool
all_bytes [] = true
all_bytes (b ∷ bs) = ltb b 256 && all_bytes bs

pub by_test : (bs : List ℕ) → all_bytes bs ≡ true → AreBytes bs
by_test [] e = tt
by_test (b ∷ bs) e = ground (arith, by_test bs)
