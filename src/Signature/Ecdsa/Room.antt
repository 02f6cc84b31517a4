-- ===== src/Signature/Ecdsa/Room.antt =====
-- The size that src/sig/ecdsa.c names for a signature.
use pkcs11_provider.Base.{ℕ, ◌*◌, ◌<◌, ◌≡◌, some, List, arith, length}
use pkcs11_provider.Codes.Rv
use pkcs11_provider.Signature.Der.{Asn1, convert_raw_to_der}
use pkcs11_provider.Signature.Der.Room.{IsDer, Encodes, convert_raw_to_der_room}
use pkcs11_provider.Signature.Context.{Context}
use pkcs11_provider.Signature.Ecdsa.{Keys, sig_size}

module _ {W B S : Type 0} (keys : Keys W) (a : Asn1 B S) (octets : B → ℕ)
    (der_of : IsDer a octets) where
  -- For a field of fewer than 127 bytes, a buffer of the size that `p11prov_ecdsa_sig_size` names takes
  -- the text of any raw signature of two fields that OpenSSL, which keeps to DER, encodes.
  pub convert_raw_to_der-sig_size :
      (c : Context) (w : W) (raw der : List ℕ) (sigsize : ℕ)
      → sig_size keys c w ≡ (Rv.ok, some sigsize)
      → keys.key_size c.key w < 127
      → length raw ≡ 2 * keys.key_size c.key w
      → Encodes a raw der
      → convert_raw_to_der a raw sigsize ≡ some der
  unfolding sig_size
  convert_raw_to_der-sig_size c w raw der sigsize named few two e =
      convert_raw_to_der_room a octets der_of raw der (keys.key_size c.key w) sigsize e two few
        (ground (arith, named))
