-- ===== src/AsymmetricCipher/Tests.antt =====
-- Examples on src/asymmetric_cipher.c: a master key of TLS 1.2, and one of a version that is not expected.
use pkcs11_provider.Base.{
  ℕ, zero, suc, ◌+◌, ◌-◌, ◌<◌, ◌≡◌, refl, true, false, none, some, List, [], ◌∷◌, arith, replicate,
  length-replicate, codes, AreBytes,
}
use pkcs11_provider.AsymmetricCipher.{TlsPadding, AreVersions, decrypt_pkcs1, decrypt_pkcs1_lem}
use pkcs11_provider.Codes.Rv
use pkcs11_provider.Digests.{get_name}
use pkcs11_provider.Digests.Names.{no_case}
use pkcs11_provider.AsymmetricCipher.Context.{
  Context, newctx, Params, number, text, tls_padding_id, rsa_pkcs_oaep, ckz_data_specified,
  set_ctx_params, mgf_name, map_mgf,
}
use pkcs11_provider.AsymmetricCipher.Context.Mgf.{map_mgf-mgf_name}
use pkcs11_provider.AsymmetricCipher.Run.{Token, decrypt}
use pkcs11_provider.AsymmetricCipher.Run.Ledger.{Counts, decrypt-held}
use pkcs11_provider.AsymmetricCipher.Run.Answers.{Yields}
use pkcs11_provider.AsymmetricCipher.Run.Rooms.{wild, decrypt-wild}

abbrev tls1_2 : TlsPadding
tls1_2 = record {
  enabled = true;
  client_ver_major = 3;
  client_ver_minor = 3;
  alt_ver_major = 0;
  alt_ver_minor = 0;
}

tls1_2-AreVersions : AreVersions tls1_2
tls1_2-AreVersions = record {
  client_major = omega arith;
  client_minor = omega arith;
  alt_major = omega arith;
  alt_minor = omega arith;
}

are_bytes : (n v : ℕ) → v < 256 → AreBytes (replicate n v)
are_bytes zero v l = tt
are_bytes (suc n) v l = (l, are_bytes n v l)

abbrev old_key : List ℕ
old_key = 3 ∷ 1 ∷ replicate 62 5

decrypt_pkcs1_lem_example :
    decrypt_pkcs1 tls1_2 true (replicate 48 9) Rv.ok old_key 48
    ≡ some (0, some (replicate 48 9), some 48)
decrypt_pkcs1_lem_example =
    decrypt_pkcs1_lem tls1_2 (replicate 48 9) old_key Rv.ok 48 3 1 refl tls1_2-AreVersions
      (are_bytes 48 9 (omega arith)) refl (omega arith, (omega arith, are_bytes 62 5 (omega arith)))
      (omega arith) refl refl (omega arith) (omega arith)

abbrev no_params : Params
no_params = record {
  pad_mode = none;
  oaep_digest = none;
  mgf1_digest = none;
  oaep_label = none;
  tls_client_version = none;
  tls_negotiated_version = none;
}

-- A token that counts the sessions that are taken and whose keys have 64 bytes; it decrypts to zeros.
abbrev counter : Token ℕ
counter = record {
  status = λ w. (Rv.ok, w);
  obj_ref = λ k w. (k, w);
  get_class = λ k w. 3;
  key_size = λ k w. 64;
  get_handle = λ k w. (7, w);
  always_authenticate = λ k w. false;
  try_session_ref = λ k m l w. (Rv.ok, w, w + 1);
  return_session = λ s w. elim s [ none ↦ w | some i ↦ w - 1 ];
  context_specific_login = λ s w. (Rv.ok, w);
  encrypt_init = λ s m k w. (Rv.ok, w);
  encrypt = λ s i n w. (Rv.ok, i, w);
  decrypt_init = λ s m k w. (Rv.ok, w);
  decrypt = λ s i n r w. (Rv.ok, replicate n 0, n, w);
  zalloc = λ n w. (true, w);
  rand_priv_bytes = λ n w. (true, replicate 48 9, w);
}

counter-Counts : Counts counter (λ w. w)
counter-Counts = record {
  handle_held = λ k w. refl;
  taken = λ k m l w e. refl;
  not_taken = λ k m l w e. absurd (e refl);
  returned = λ s w. refl;
  none_returned = λ w. refl;
  login_held = λ s w. refl;
  encrypt_init_held = λ s m k w. refl;
  encrypt_held = λ s i n w. refl;
  decrypt_init_held = λ s m k w. refl;
  decrypt_held = λ s i n r w. refl;
  filled = λ s i n r w. length-replicate n 0;
  zalloc_held = λ n w. refl;
  rand_held = λ n w. refl;
}

-- A context for TLS 1.2 with the key 3.
abbrev for_tls : Context
for_tls = record newctx { key = some 3; tls_padding = tls1_2 }

decrypt-held_example : Yields (decrypt counter (some 48) (1 ∷ 2 ∷ []) for_tls 5) (λ r. r.2 ≡ 5)
decrypt-held_example =
    decrypt-held counter (λ w. w) counter-Counts (some 48) (1 ∷ 2 ∷ []) for_tls 5 (omega arith)

-- A module that fails where it is told too much.
abbrev refuse : ℕ → List ℕ → ℕ → ℕ → ℕ → ℕ × List ℕ × ℕ × ℕ
refuse s i n r w = (Rv.general_error, [], 0, w)

decrypt-wild_example :
    decrypt (wild counter refuse) (some 48) (1 ∷ 2 ∷ []) for_tls 5
    ≡ decrypt counter (some 48) (1 ∷ 2 ∷ []) for_tls 5
decrypt-wild_example = decrypt-wild counter refuse (some 48) (1 ∷ 2 ∷ []) for_tls 5 refl

-- A padding for TLS stays set when OAEP is chosen behind it.
keeps_tls :
    let c =
      (set_ctx_params no_case
        (some (record no_params { pad_mode = some (number (some tls_padding_id)) }))
        newctx).1 in
    let c' =
      (set_ctx_params no_case
        (some (record no_params { pad_mode = some (text (some (codes "oaep"))) }))
        c).1 in
    (c'.tls_padding.enabled ≡ true) × (c'.mechtype ≡ rsa_pkcs_oaep)
unfolding set_ctx_params
keeps_tls = (refl, refl)

named_mgf : mgf_name 2 ≡ some (codes "SHA2-256")
unfolding mgf_name get_name
named_mgf = refl

map_mgf-mgf_name_example : map_mgf no_case (codes "SHA2-256") ≡ 2
map_mgf-mgf_name_example = map_mgf-mgf_name no_case (λ a b. refl) 2 (codes "SHA2-256") named_mgf

-- With OAEP and a padding for TLS at once, the module is told of 64 bytes in a buffer of 48.
abbrev confused : Context
confused = record for_tls { mechtype = rsa_pkcs_oaep }

overruns :
    decrypt (wild counter refuse) (some 48) (1 ∷ 2 ∷ []) confused 5
    ≡ some (
      record { result = 0; out = none; outlen = none },
      record confused { source = ckz_data_specified },
      5,
    )
unfolding decrypt
overruns = refl
