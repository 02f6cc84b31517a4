-- ===== src/AsymmetricCipher/Context/Mgf.antt =====
-- The digests of the functions that make masks for OAEP.
use pkcs11_provider.Base.{ℕ, ◌≡◌, refl, Bool, Option, none, some, List, arith}
use pkcs11_provider.Digests.{get_name}
use pkcs11_provider.Digests.Names.{IgnoresCase, get_by_name-get_name, get_name_found}
use pkcs11_provider.AsymmetricCipher.Context.{mfg_map, find_digest, find_mgf, mgf_name, map_mgf}

find_mgf-find_digest : (g d : ℕ) → find_digest mfg_map g ≡ some d → find_mgf mfg_map d ≡ g
unfolding find_digest find_mgf
find_mgf-find_digest g d e = ground arith

module _ (same : List ℕ → List ℕ → Bool) (law : IgnoresCase same) where
  -- The name that is read for a mask function names the same function when it is set, where
  -- `OPENSSL_strcasecmp` ignores case and no more.
  pub map_mgf-mgf_name : (g : ℕ) (name : List ℕ) → mgf_name g ≡ some name → map_mgf same name ≡ g
  unfolding mgf_name map_mgf
  map_mgf-mgf_name g name e = by_digest (find_digest mfg_map g) refl e
    where
      by_digest :
          (o : Option ℕ)
          → find_digest mfg_map g ≡ o
          → (elim o as (λ o. Option (List ℕ)) [ none ↦ none | some d ↦ (get_name d).1 ]) ≡ some name
          → map_mgf same name ≡ g
      by_digest none q e = cc
      by_digest (some d) q e =
          let named = get_by_name-get_name same law d name (get_name_found d name e) in
          rw (map_mgf, named) (find_mgf-find_digest g d q)
