-- ===== src/AsymmetricCipher/Context.antt =====
-- src/asymmetric_cipher.c: the context of an RSA encryption, and the parameters that are set in it.
pub mod Mgf
pub mod Copy
use pkcs11_provider.Base.{
  ℕ, ◌/◌, ◌%◌, Bool, true, false, not, Option, none, some, List, [], ◌∷◌, ◌==◌, if◌then◌else◌,
  codes, same_bytes,
}
use pkcs11_provider.Codes.{unavailable}
use pkcs11_provider.Digests.{get_by_name, get_name}
use pkcs11_provider.AsymmetricCipher.{TlsPadding}

-- `CKM_RSA_*`.
abbrev pub rsa_pkcs : ℕ
rsa_pkcs = 0x01

abbrev pub rsa_x_509 : ℕ
rsa_x_509 = 0x03

abbrev pub rsa_pkcs_oaep : ℕ
rsa_pkcs_oaep = 0x09

abbrev pub rsa_x9_31 : ℕ
rsa_x9_31 = 0x0B

-- `CKZ_DATA_SPECIFIED`.
abbrev pub ckz_data_specified : ℕ
ckz_data_specified = 1

-- OpenSSL's `RSA_PKCS1_WITH_TLS_PADDING`.
abbrev pub tls_padding_id : ℕ
tls_padding_id = 7

-- `struct p11prov_rsaenc_ctx`, with the fields of its `oaep_params`.
pub record Context : Type 0 where
  pub key : Option ℕ
  pub mechtype : ℕ
  pub hash_alg : ℕ
  pub mgf : ℕ
  pub source : ℕ
  pub source_data : Option (List ℕ)
  pub tls_padding : TlsPadding

-- What `p11prov_rsaenc_newctx` fills in.
abbrev pub newctx : Context
newctx = record {
  key = none;
  mechtype = rsa_pkcs;
  hash_alg = 0;
  mgf = 0;
  source = 0;
  source_data = none;
  tls_padding = record {
    enabled = false;
    client_ver_major = 0;
    client_ver_minor = 0;
    alt_ver_major = 0;
    alt_ver_minor = 0;
  };
}

-- The mechanism, and the context where it is an OAEP one.
abbrev pub set_mechanism : Context → ℕ × Context
set_mechanism c = (
  c.mechtype,
  if c.mechtype == rsa_pkcs_oaep then record c { source = ckz_data_specified } else c,
)

-- An entry of `padding_map`, whose numbers and names are OpenSSL's.
pub record Padding : Type 0 where
  pub type : ℕ
  pub ossl_id : ℕ
  pub name : List ℕ

abbrev padding : ℕ → ℕ → List ℕ → Padding
padding t i n = record { type = t; ossl_id = i; name = n }

-- `padding_map` without its last entry.
abbrev pub padding_map : List Padding
padding_map =
    padding rsa_x_509 3 (codes "none")
    ∷ padding rsa_pkcs 1 (codes "pkcs1")
    ∷ padding rsa_pkcs tls_padding_id (codes "pkcs1")
    ∷ padding rsa_pkcs_oaep 4 (codes "oaep")
    ∷ padding rsa_x9_31 5 (codes "x931")
    ∷ []

-- The loops over it, for the first entry that passes a test.
pub find_padding : (Padding → Bool) → List Padding → Option Padding
find_padding p [] = none
find_padding p (e ∷ es) = let rest = find_padding p es in if p e then some e else rest

-- `mfg_map` without its last entry: a digest and the function that makes a mask with it.
abbrev pub mfg_map : List (ℕ × ℕ)
mfg_map =
    (0x2D0, 9)
    ∷ (0x2C0, 8)
    ∷ (0x2B0, 7)
    ∷ (0x2B5, 6)
    ∷ (0x270, 4)
    ∷ (0x260, 3)
    ∷ (0x250, 2)
    ∷ (0x255, 5)
    ∷ (0x220, 1)
    ∷ []

-- The two loops over it.
pub find_digest : List (ℕ × ℕ) → ℕ → Option ℕ
find_digest [] mgf = none
find_digest ((d, g) ∷ es) mgf = let rest = find_digest es mgf in if g == mgf then some d else rest

pub find_mgf : List (ℕ × ℕ) → ℕ → ℕ
find_mgf [] digest = unavailable
find_mgf ((d, g) ∷ es) digest = let rest = find_mgf es digest in if d == digest then g else rest

-- The name, if there is one.
unfoldable pub mgf_name : ℕ → Option (List ℕ)
unfolding find_digest
mgf_name mgf = elim (find_digest mfg_map mgf) [ none ↦ none | some d ↦ (get_name d).1 ]

-- How a padding mode is given: as a number, where that can be read, as a text, if there is one, or as
-- anything else.
pub data PadMode : Type 0 where
  number : Option ℕ → PadMode
  text : Option (List ℕ) → PadMode
  other : PadMode

-- The parameters, each where it is given, with its value where that can be read.
pub record Params : Type 0 where
  pub pad_mode : Option PadMode
  pub oaep_digest : Option (Option (List ℕ))
  pub mgf1_digest : Option (Option (List ℕ))
  pub oaep_label : Option (Option (List ℕ))
  pub tls_client_version : Option (Option ℕ)
  pub tls_negotiated_version : Option (Option ℕ)

-- The type of a padding that was found.
found_type : Option Padding → Context → Bool × Context
found_type none c = (false, c)
found_type (some e) c = (true, record c { mechtype = e.type })

enable_tls : Context → Context
enable_tls c = record c { tls_padding = record c.tls_padding { enabled = true } }

set_pad_mode : Option PadMode → Context → Bool × Context
unfolding find_padding found_type enable_tls
set_pad_mode none c = (true, c)
set_pad_mode (some (number none)) c = (false, c)
set_pad_mode (some (number (some n))) c =
    found_type (find_padding (λ e. e.ossl_id == n) padding_map)
      (if n == tls_padding_id then enable_tls c else c)
set_pad_mode (some (text none)) c = (false, c)
set_pad_mode (some (text (some s))) c =
    found_type (find_padding (λ e. same_bytes s e.name) padding_map) c
set_pad_mode (some other) c = (false, c)

-- With `OPENSSL_strcasecmp` against 0.
module _ (same : List ℕ → List ℕ → Bool) where
  pub map_mgf : List ℕ → ℕ
  unfolding find_mgf
  map_mgf name = elim (get_by_name same name).1 [ none ↦ unavailable | some d ↦ find_mgf mfg_map d ]

  set_oaep_digest : Option (Option (List ℕ)) → Context → Bool × Context
  set_oaep_digest none c = (true, c)
  set_oaep_digest (some none) c = (false, c)
  set_oaep_digest (some (some digest)) c = elim (get_by_name same digest).1 [
    | none ↦ (false, c)
    | some d ↦ (true, record c { hash_alg = d })
  ]

  set_mgf1_digest : Option (Option (List ℕ)) → Context → Bool × Context
  set_mgf1_digest none c = (true, c)
  set_mgf1_digest (some none) c = (false, c)
  set_mgf1_digest (some (some digest)) c =
      let g = map_mgf digest in (not (g == unavailable), record c { mgf = g })

  set_oaep_label : Option (Option (List ℕ)) → Context → Bool × Context
  set_oaep_label none c = (true, c)
  set_oaep_label (some none) c = (false, c)
  set_oaep_label (some (some label)) c = (true, record c { source_data = some label })

  set_client_version : Option (Option ℕ) → Context → Bool × Context
  set_client_version none c = (true, c)
  set_client_version (some none) c = (false, c)
  set_client_version (some (some v)) c = (
    true,
    record c {
      tls_padding = record c.tls_padding {
        client_ver_major = (v / 256) % 256;
        client_ver_minor = v % 256;
      };
    },
  )

  set_negotiated_version : Option (Option ℕ) → Context → Bool × Context
  set_negotiated_version none c = (true, c)
  set_negotiated_version (some none) c = (false, c)
  set_negotiated_version (some (some v)) c = (
    true,
    record c {
      tls_padding = record c.tls_padding {
        alt_ver_major = (v / 256) % 256;
        alt_ver_minor = v % 256;
      };
    },
  )

  -- One parameter behind the others, which must have been taken.
  behind_others : (Context → Bool × Context) → Bool × Context → Bool × Context
  behind_others f (done, c) = let next = f c in if done then next else (false, c)

  unfoldable pub set_ctx_params : Option Params → Context → Bool × Context
  unfolding set_pad_mode set_oaep_digest set_mgf1_digest set_oaep_label set_client_version
      set_negotiated_version behind_others
  set_ctx_params none c = (true, c)
  set_ctx_params (some ps) c = behind_others (set_negotiated_version ps.tls_negotiated_version) (
      behind_others (set_client_version ps.tls_client_version) (
        behind_others (set_oaep_label ps.oaep_label) (
          behind_others (set_mgf1_digest ps.mgf1_digest)
            (behind_others (set_oaep_digest ps.oaep_digest) (set_pad_mode ps.pad_mode c)))))
