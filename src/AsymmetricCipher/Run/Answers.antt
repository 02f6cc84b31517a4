-- ===== src/AsymmetricCipher/Run/Answers.antt =====
-- What follows a decryption in src/asymmetric_cipher.c reads inside its buffers.
use pkcs11_provider.Base.{
  ℕ, ◌≤◌, bit_and, ◌≡◌, inl, inr, Bool, true, false, Option, none, some, List, arith, ltb,
  if◌then◌else◌, Bool-cases, length, get_elem?-lt,
}
use pkcs11_provider.Word.{constant_select_int, constant_equal}
use pkcs11_provider.Codes.Rv
use pkcs11_provider.AsymmetricCipher.{
  max_master_key_length, decrypt_pkcs1, tls_depadding, TlsPadding,
}

-- There is a result, and it has a property.
abbrev pub Yields {ℓ} : {A : Type ℓ} → Option A → (A → Type 0) → Type 0
Yields none P = ⊥
Yields (some r) P = P r

-- A decryption for TLS reads no more than a buffer of 48 bytes has.
tls_depadding-Yields :
    (p : TlsPadding) (seeded : Bool) (randbuf buf : List ℕ) (size : ℕ)
    → max_master_key_length ≤ length buf
    → Yields (tls_depadding p seeded randbuf buf size) (λ r. Unit)
unfolding tls_depadding
tls_depadding-Yields p false randbuf buf size room = tt
tls_depadding-Yields p true randbuf buf size room =
    let (b0, at0) = get_elem?-lt buf 0 (omega arith) in
    let (b1, at1) = get_elem?-lt buf 1 (omega arith) in
    let long : ltb (length buf) max_master_key_length ≡ false = ground arith in
    rw (at0, at1, long) tt

pub decrypt_pkcs1-Yields :
    (p : TlsPadding) (seeded : Bool) (randbuf : List ℕ) (ret : ℕ) (buf : List ℕ) (size : ℕ)
    → (p.enabled ≡ true → max_master_key_length ≤ length buf)
    → Yields (decrypt_pkcs1 p seeded randbuf ret buf size) (λ r. Unit)
unfolding decrypt_pkcs1 tls_depadding
decrypt_pkcs1-Yields p seeded randbuf ret buf size room = elim (Bool-cases p.enabled) [
  | inr plain ↦ rw plain tt
  | inl tls ↦ rw tls (
      by_depadding (tls_depadding p seeded randbuf buf size)
        (tls_depadding-Yields p seeded randbuf buf size (room tls)))
]
  where
    by_depadding :
        (o : Option (Bool × Option (List ℕ) × ℕ × ℕ))
        → Yields o (λ r. Unit)
        → Yields
            (elim o as (λ o. Option (ℕ × Option (List ℕ) × Option ℕ)) [
              | none ↦ none
              | some (done, out, n, tls_cond) ↦
                  if done
                  then some (
                    constant_select_int (bit_and (constant_equal ret Rv.ok) tls_cond) 1 0,
                    out,
                    some n,
                  )
                  else some (0, out, none)
            ])
            (λ r. Unit)
    by_depadding none y = y
    by_depadding (some (done, out, n, cond)) y = elim (Bool-cases done) [
      | inl good ↦ rw good tt
      | inr bad ↦ rw bad tt
    ]
