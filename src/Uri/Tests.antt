-- ===== src/Uri/Tests.antt =====
-- A URI with a separator in its label, and one with a byte in its identifier that is not text.
use pkcs11_provider.Base.{
  ℕ, ◌≡◌, refl, false, Option, none, some, List, [], ◌∷◌, ◌++◌, arith, codes,
}
use pkcs11_provider.Uri.Parse.RoundTrip.{parse_uri-uri_component}
use pkcs11_provider.Uri.Parse.{parse_uri, empty_uri}
use pkcs11_provider.Uri.Codec.{HasNoSeparator, encode-HasNoSeparator}
use pkcs11_provider.Uri.{no_null, encode, uri_component}

abbrev no_files : List ℕ → Option (Option (List ℕ))
no_files f = none

parse_uri-uri_component_example :
    parse_uri no_files (
      codes "pkcs11:"
      ++ (uri_component (codes "id") (0 ∷ 255 ∷ [])
          ++ uri_component (codes "object") (65 ∷ 59 ∷ [])))
    ≡ some (record empty_uri { id = some (0 ∷ 255 ∷ []); object = some (65 ∷ 59 ∷ []) })
unfolding no_null
parse_uri-uri_component_example =
    parse_uri-uri_component no_files (0 ∷ 255 ∷ []) (65 ∷ 59 ∷ []) (omega arith, (omega arith, tt))
      (omega arith, (omega arith, tt)) refl

encode-HasNoSeparator_example : HasNoSeparator (encode false (65 ∷ 59 ∷ []))
encode-HasNoSeparator_example =
    encode-HasNoSeparator false (65 ∷ 59 ∷ []) (omega arith, (omega arith, tt))
