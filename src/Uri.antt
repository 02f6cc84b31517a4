-- ===== src/Uri.antt =====
-- src/util.c: PKCS#11 URIs. A text is the list of its bytes up to the null byte, so `*str` is false at
-- the end of a list, and `str[i]` past the end is the null byte or past it.
pub mod Numbers
pub mod Codec
pub mod Parse
mod Tests
use pkcs11_provider.Base.{
  ℕ, zero, suc, ◌+◌, ◌-◌, ◌*◌, ◌/◌, ◌%◌, Bool, true, false, not, ◌&&◌, ◌||◌, Option, none, some,
  List, [], ◌∷◌, ◌++◌, ltb, leb, ◌==◌, if◌then◌else◌, length,
}

-- Errors, `errno` values of Linux. `ENOMEM`, which only an allocation that fails gives, is left out.
pub data Errno : Type 0 where
  einval enoent erange : Errno

pub data Parsed {ℓ} (A : Type ℓ) : Type ℓ where
  ok : A → Parsed A
  err : Errno → Parsed A

infixl 5 ◌>>=◌
abbrev pub ◌>>=◌ {ℓ κ} : {A : Type ℓ} {B : Type κ} → Parsed A → (A → Parsed B) → Parsed B
ok a >>= f = f a
err e >>= f = err e

-- One digit of `hex_to_byte`.
pub hex_digit : ℕ → Option ℕ
hex_digit s =
    if leb b'0' s && leb s b'9'
    then some (s - b'0')
    else (if leb b'a' s && leb s b'f'
        then some (s - b'a' + 10)
        else (if leb b'A' s && leb s b'F' then some (s - b'A' + 10) else none))

-- `(c[0] << 4) | c[1]`, of two digits below 16.
pub hex_to_byte : ℕ → ℕ → Parsed ℕ
unfolding hex_digit
hex_to_byte s0 s1 = elim (hex_digit s0) [
  | none ↦ err einval
  | some c0 ↦ elim (hex_digit s1) [ none ↦ err einval | some c1 ↦ ok (c0 * 16 + c1) ]
]

-- `parse_attr` over the first `len` bytes of a text, behind the allocation of the output, which is taken
-- to succeed. An escape that does not fit in them is refused.
pub parse_attr : ℕ → List ℕ → Parsed (List ℕ)
unfolding hex_to_byte
parse_attr zero str = ok []
parse_attr (suc len) [] = ok []
parse_attr (suc (suc (suc len))) (c ∷ s0 ∷ s1 ∷ str) = elim (c == b'%') [
  | true ↦ do b ← hex_to_byte s0 s1; out ← parse_attr len str; ok (b ∷ out)
  | false ↦ do out ← parse_attr (suc (suc len)) (s0 ∷ s1 ∷ str); ok (c ∷ out)
]
parse_attr (suc len) (c ∷ str) = elim (c == b'%') [
  | true ↦ err einval
  | false ↦ do out ← parse_attr len str; ok (c ∷ out)
]

-- `byte_to_hex`: the escape of a byte, or the byte itself.
pub hex_char : ℕ → ℕ
hex_char d = if ltb d 10 then b'0' + d else b'A' + d - 10

pub byte_to_hex : ℕ → Bool → List ℕ
unfolding hex_char
byte_to_hex c bin =
    if bin || (ltb c 39 || (c == b'/' || (c == b';' || (c == b'?' || ltb b'~' c))))
    then b'%' ∷ hex_char (c / 16) ∷ hex_char (c % 16) ∷ []
    else c ∷ []

-- The bytes that `uri_component` writes for a value.
pub encode : Bool → List ℕ → List ℕ
unfolding byte_to_hex
encode bin [] = []
encode bin (b ∷ bs) = byte_to_hex b bin ++ encode bin bs

-- `uri_component` for a value whose length is given, or that ends at its null byte, in which case the
-- list is the text up to there. A name of two characters, `id`, has all its bytes escaped.
-- The name and the value are not null, and the allocation of the text is taken to succeed.
pub uri_component : List ℕ → List ℕ → List ℕ
unfolding encode
uri_component name val = name ++ (b'=' ∷ (encode (length name == 2) val ++ (b';' ∷ [])))

-- `parse_utf8str`: no null byte in the value.
pub no_null : List ℕ → Bool
no_null [] = true
no_null (b ∷ bs) = not (b == 0) && no_null bs

pub parse_utf8str : ℕ → List ℕ → Parsed (List ℕ)
unfolding no_null
parse_utf8str len str = do out ← parse_attr len str; if no_null out then ok out else err einval

-- Where `p11prov_parse_uri` cuts a URI into its components.
abbrev pub is_separator : ℕ → Bool
is_separator c = c == b';' || (c == b'?' || c == b'&')
