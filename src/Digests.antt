-- ===== src/Digests.antt =====
-- src/digests.c: the table of digests and its lookups.
pub mod Names
mod Tests
pub mod Ledger
pub mod Context
use pkcs11_provider.Base.{
  ℕ, ◌-◌, ◌*◌, ◌/◌, Bool, false, ◌||◌, Option, none, some, List, [], ◌∷◌, ◌==◌, if◌then◌else◌,
  codes,
}
use pkcs11_provider.Codes.Rv

-- An entry of `digest_map`.
pub record Entry : Type 0 where
  pub digest : ℕ
  pub block_size : ℕ
  pub digest_size : ℕ
  pub names : List (List ℕ)

abbrev entry : ℕ → ℕ → ℕ → List (List ℕ) → Entry
entry d b s names = record { digest = d; block_size = b; digest_size = s; names = names }

-- `digest_map` without its last entry, which ends the loops.
abbrev pub digest_map : List Entry
digest_map =
    entry 0x220 64 20
      (codes "SHA1" ∷ codes "SHA-1" ∷ codes "SSL3-SHA1" ∷ codes "1.3.14.3.2.26" ∷ [])
    ∷ entry 0x255 64 28
        (codes "SHA2-224" ∷ codes "SHA-224" ∷ codes "SHA224" ∷ codes "2.16.840.1.101.3.4.2.4" ∷ [])
    ∷ entry 0x250 64 32
        (codes "SHA2-256" ∷ codes "SHA-256" ∷ codes "SHA256" ∷ codes "2.16.840.1.101.3.4.2.1" ∷ [])
    ∷ entry 0x260 128 48
        (codes "SHA2-384" ∷ codes "SHA-384" ∷ codes "SHA384" ∷ codes "2.16.840.1.101.3.4.2.2" ∷ [])
    ∷ entry 0x270 128 64
        (codes "SHA2-512" ∷ codes "SHA-512" ∷ codes "SHA512" ∷ codes "2.16.840.1.101.3.4.2.3" ∷ [])
    ∷ entry 0x48 128 28 (
        codes "SHA2-512/224"
        ∷ codes "SHA-512/224"
        ∷ codes "SHA512-224"
        ∷ codes "2.16.840.1.101.3.4.2.5"
        ∷ [])
    ∷ entry 0x4C 128 32 (
        codes "SHA2-512/256"
        ∷ codes "SHA-512/256"
        ∷ codes "SHA512-256"
        ∷ codes "2.16.840.1.101.3.4.2.6"
        ∷ [])
    ∷ entry 0x2B5 ((1600 - 224 * 2) / 8) 28 (codes "SHA3-224" ∷ codes "2.16.840.1.101.3.4.2.7" ∷ [])
    ∷ entry 0x2B0 ((1600 - 256 * 2) / 8) 32 (codes "SHA3-256" ∷ codes "2.16.840.1.101.3.4.2.8" ∷ [])
    ∷ entry 0x2C0 ((1600 - 384 * 2) / 8) 48 (codes "SHA3-384" ∷ codes "2.16.840.1.101.3.4.2.9" ∷ [])
    ∷ entry 0x2D0 ((1600 - 512 * 2) / 8) 64
        (codes "SHA3-512" ∷ codes "2.16.840.1.101.3.4.2.10" ∷ [])
    ∷ []

-- The loop of the lookups by mechanism, over the entries that are left.
find_entry : List Entry → ℕ → Option Entry
find_entry [] digest = none
find_entry (e ∷ es) digest =
    let rest = find_entry es digest in if e.digest == digest then some e else rest

-- The return value and what is written, if anything is.
abbrev answer : {A : Type 0} → (Entry → A) → Option Entry → ℕ × Option A
answer f none = (Rv.mechanism_invalid, none)
answer f (some e) = (Rv.ok, some (f e))

pub get_block_size : ℕ → ℕ × Option ℕ
unfolding find_entry
get_block_size digest = answer (λ e. e.block_size) (find_entry digest_map digest)

pub get_digest_size : ℕ → ℕ × Option ℕ
unfolding find_entry
get_digest_size digest = answer (λ e. e.digest_size) (find_entry digest_map digest)

-- The first of an entry's names.
abbrev first_name : Entry → List ℕ
first_name e = elim e.names [ [] ↦ [] | n ∷ ns ↦ n ]

unfoldable pub get_name : ℕ → ℕ × Option (List ℕ)
unfolding find_entry
get_name digest = answer first_name (find_entry digest_map digest)

-- With `OPENSSL_strcasecmp` against 0.
module _ (same : List ℕ → List ℕ → Bool) where
  has_name : List (List ℕ) → List ℕ → Bool
  has_name [] name = false
  has_name (n ∷ ns) name = same name n || has_name ns name

  find_name : List Entry → List ℕ → ℕ × Option ℕ
  unfolding has_name
  find_name [] name = (Rv.mechanism_invalid, none)
  find_name (e ∷ es) name =
      let rest = find_name es name in if has_name e.names name then (Rv.ok, some e.digest) else rest

  unfoldable pub get_by_name : List ℕ → ℕ × Option ℕ
  unfolding find_name
  get_by_name name = find_name digest_map name
