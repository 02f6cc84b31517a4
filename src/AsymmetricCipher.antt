-- ===== src/AsymmetricCipher.antt =====
-- src/asymmetric_cipher.c: what follows a PKCS#1 decryption, without a branch on secret data.
mod Tests
pub mod Context
pub mod Run
use pkcs11_provider.Base.{
  ℕ, ◌^◌, ◌≤◌, ◌<◌, bit_and, bit_or, ◌≡◌, refl, sym, ap₂, ◌∙◌, inl, inr, Bool, true, false, not,
  ◌&&◌, ◌||◌, Option, none, some, List, arith, ltb, ◌==◌, if◌then◌else◌, Bool-cases, length,
  get_elem?, AreBytes, AreBytes-get_elem?, slice, slice-AreBytes, length-slice,
}
use pkcs11_provider.Codes.Rv
use pkcs11_provider.Word.{constant_equal, constant_select_buf, constant_select_int}
use pkcs11_provider.Word.Masks.{
  constant_equal_small, constant_select_buf_lem, constant_select_int_lem,
}

-- OpenSSL's `SSL_MAX_MASTER_KEY_LENGTH`.
abbrev pub max_master_key_length : ℕ
max_master_key_length = 48

-- `struct tls_padding`.
pub record TlsPadding : Type 0 where
  pub enabled : Bool
  pub client_ver_major : ℕ
  pub client_ver_minor : ℕ
  pub alt_ver_major : ℕ
  pub alt_ver_minor : ℕ

-- Whether the first two bytes of the buffer are a version that is expected, as 1 or 0.
version_cond : TlsPadding → ℕ → ℕ → ℕ
version_cond p b0 b1 =
    let ver_cond =
      bit_and (constant_equal b0 p.client_ver_major) (constant_equal b1 p.client_ver_minor) in
    let alt_cond =
      bit_and (constant_equal b0 p.alt_ver_major) (constant_equal b1 p.alt_ver_minor) in
    if not (p.alt_ver_major == 0) then bit_or ver_cond alt_cond else ver_cond

-- `p11prov_tls_constant_time_depadding`, with what `RAND_priv_bytes_ex` answers and fills in, the buffer
-- and the size that the module reported: whether it succeeds, what it copies to `out`, if it does, the
-- size and the condition. `none` is a read outside the buffer.
pub tls_depadding :
    TlsPadding → Bool → List ℕ → List ℕ → ℕ → Option (Bool × Option (List ℕ) × ℕ × ℕ)
unfolding version_cond
tls_depadding p seeded randbuf buf out_size =
    let size = max_master_key_length in
    let with_bytes : Option (Bool × Option (List ℕ) × ℕ × ℕ) = elim (get_elem? buf 0) [
      | none ↦ none
      | some b0 ↦ elim (get_elem? buf 1) [
        | none ↦ none
        | some b1 ↦
            let cond = bit_and (constant_equal out_size size) (version_cond p b0 b1) in
            if ltb (length buf) size
            then none
            else some (true, some (constant_select_buf cond (slice buf 0 size) randbuf), size, cond)
      ]
    ] in
    if seeded then with_bytes else some (false, none, out_size, 0)

-- The end of `p11prov_rsaenc_decrypt` for `CKM_RSA_PKCS`, with the module's return value: the result as
-- an `int`, what is copied to `out` for TLS, and `*outlen`, if it is written.
pub decrypt_pkcs1 :
    TlsPadding → Bool → List ℕ → ℕ → List ℕ → ℕ → Option (ℕ × Option (List ℕ) × Option ℕ)
decrypt_pkcs1 p seeded randbuf ret buf out_size =
    let cond = constant_equal ret Rv.ok in
    if p.enabled
    then (elim (tls_depadding p seeded randbuf buf out_size) [
      | none ↦ none
      | some (done, out, size, tls_cond) ↦
          if done
          then some (constant_select_int (bit_and cond tls_cond) 1 0, out, some size)
          else some (0, out, none)
    ])
    else some (constant_select_int cond 1 0, none, some out_size)

-- A version that is expected, told with comparisons.
abbrev pub is_expected : TlsPadding → ℕ → ℕ → Bool
is_expected p b0 b1 =
    (b0 == p.client_ver_major && b1 == p.client_ver_minor)
    || (not (p.alt_ver_major == 0) && (b0 == p.alt_ver_major && b1 == p.alt_ver_minor))

-- Bits as Booleans.
and_bit :
    (a b : Bool) → bit_and (if a then 1 else 0) (if b then 1 else 0) ≡ (if a && b then 1 else 0)
and_bit true true = refl
and_bit true false = refl
and_bit false true = refl
and_bit false false = refl

or_bit : (a b : Bool) → bit_or (if a then 1 else 0) (if b then 1 else 0) ≡ (if a || b then 1 else 0)
or_bit true true = refl
or_bit true false = refl
or_bit false true = refl
or_bit false false = refl

-- The bytes of the versions.
pub record AreVersions (p : TlsPadding) : Type 0 where
  pub client_major : p.client_ver_major < 256
  pub client_minor : p.client_ver_minor < 256
  pub alt_major : p.alt_ver_major < 256
  pub alt_minor : p.alt_ver_minor < 256

equal_bytes :
    (a b c d : ℕ)
    → a < 256
    → b < 256
    → c < 256
    → d < 256
    → bit_and (constant_equal a b) (constant_equal c d) ≡ (if a == b && c == d then 1 else 0)
equal_bytes a b c d la lb lc ld =
    ap₂ bit_and (constant_equal_small a b (omega arith) (omega arith))
      (constant_equal_small c d (omega arith) (omega arith))
    ∙ and_bit (a == b) (c == d)

version_cond_lem :
    (p : TlsPadding) (b0 b1 : ℕ)
    → AreVersions p
    → b0 < 256
    → b1 < 256
    → version_cond p b0 b1 ≡ (if is_expected p b0 b1 then 1 else 0)
unfolding version_cond
version_cond_lem p b0 b1 v l0 l1 =
    let client =
      equal_bytes b0 p.client_ver_major b1 p.client_ver_minor l0 v.client_major l1 v.client_minor in
    let alt = equal_bytes b0 p.alt_ver_major b1 p.alt_ver_minor l0 v.alt_major l1 v.alt_minor in
    elim (Bool-cases (p.alt_ver_major == 0)) [
      | inl unset ↦
          rw (unset, client) (or_false (b0 == p.client_ver_major && b1 == p.client_ver_minor))
      | inr there ↦
          rw (there, client, alt)
            (or_bit (b0 == p.client_ver_major && b1 == p.client_ver_minor)
              (b0 == p.alt_ver_major && b1 == p.alt_ver_minor))
    ]
  where
    or_false : (a : Bool) → if◌then◌else◌ {A = ℕ} a 1 0 ≡ (if a || false then 1 else 0)
    or_false true = refl
    or_false false = refl

-- For a buffer of bytes that holds a master key, whose first two bytes are given, 48 random bytes, and a
-- size and a return value below 2^63, in a TLS decryption where randomness is to be had: `out` becomes
-- the decrypted key if the module reported 48 bytes and the version is an expected one, and the random
-- bytes if not; the result is 1 exactly if moreover the module answered `CKR_OK`, and 0 if not; and
-- `*outlen` is 48 in each case.
pub decrypt_pkcs1_lem :
    (p : TlsPadding) (randbuf buf : List ℕ) (ret out_size b0 b1 : ℕ)
    → p.enabled ≡ true
    → AreVersions p
    → AreBytes randbuf
    → length randbuf ≡ max_master_key_length
    → AreBytes buf
    → max_master_key_length ≤ length buf
    → get_elem? buf 0 ≡ some b0
    → get_elem? buf 1 ≡ some b1
    → ret < 2 ^ 63
    → out_size < 2 ^ 63
    → let good = out_size == max_master_key_length && is_expected p b0 b1 in
      decrypt_pkcs1 p true randbuf ret buf out_size
      ≡ some (
        if ret == Rv.ok && good then 1 else 0,
        some (if good then slice buf 0 max_master_key_length else randbuf),
        some max_master_key_length,
      )
unfolding decrypt_pkcs1 tls_depadding
decrypt_pkcs1_lem p randbuf buf ret out_size b0 b1 enabled versions random size are whole at_0 at_1
      l1 l2 =
    let good = out_size == max_master_key_length && is_expected p b0 b1 in
    let key = slice buf 0 max_master_key_length in
    let small0 = AreBytes-get_elem? buf 0 b0 are at_0 in
    let small1 = AreBytes-get_elem? buf 1 b1 are at_1 in
    let long : ltb (length buf) max_master_key_length ≡ false = ground arith in
    let cond : bit_and (constant_equal out_size max_master_key_length) (version_cond p b0 b1)
        ≡ (if good then 1 else 0) =
      ap₂ bit_and (constant_equal_small out_size max_master_key_length l2 (omega arith))
        (version_cond_lem p b0 b1 versions small0 small1)
      ∙ and_bit (out_size == max_master_key_length) (is_expected p b0 b1) in
    let copied =
      constant_select_buf_lem good key randbuf (slice-AreBytes buf 0 max_master_key_length are)
        random (length-slice buf 0 max_master_key_length whole ∙ sym size) in
    let result : bit_and (constant_equal ret Rv.ok) (if good then 1 else 0)
        ≡ (if ret == Rv.ok && good then 1 else 0) =
      ap₂ bit_and (constant_equal_small ret Rv.ok l1 (omega arith)) refl
      ∙ and_bit (ret == Rv.ok) good in
    let answered = constant_select_int_lem 1 0 (ret == Rv.ok && good) (omega arith) (omega arith) in
    rw (enabled, at_0, at_1, long, cond, copied, result, answered) refl
