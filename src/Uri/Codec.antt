-- ===== src/Uri/Codec.antt =====
-- The escapes of `uri_component` against `parse_attr`, in src/util.c.
use pkcs11_provider.Base.{
  ℕ, zero, suc, ◌/◌, ◌%◌, ◌<◌, ◌≡◌, refl, ◌⊎◌, inl, inr, Bool, true, false, ◌||◌, some, List, [],
  ◌∷◌, ◌++◌, arith, ltb, ◌==◌, Bool-cases, length, AreBytes,
}
use pkcs11_provider.Uri.{
  hex_digit, hex_to_byte, parse_attr, encode, hex_char, ◌>>=◌, ok, byte_to_hex, is_separator,
}

-- A digit is read back.
hex_digit-hex_char : (d : ℕ) → d < 16 → hex_digit (hex_char d) ≡ some d
unfolding hex_digit hex_char
hex_digit-hex_char d l = ground arith

hex_to_byte-digits : (b : ℕ) → b < 256 → hex_to_byte (hex_char (b / 16)) (hex_char (b % 16)) ≡ ok b
unfolding hex_to_byte
hex_to_byte-digits b l =
    ground
      (arith, hex_digit-hex_char (b / 16) (omega arith), hex_digit-hex_char (b % 16) (omega arith))

-- A byte that starts no escape stands for itself.
parse_attr-literal :
    (len c : ℕ) (str : List ℕ)
    → (c == b'%') ≡ false
    → parse_attr (suc len) (c ∷ str) ≡ (parse_attr len str >>= λ out. ok (c ∷ out))
unfolding parse_attr
parse_attr-literal zero c str e = ground arith
parse_attr-literal (suc zero) c str e = ground arith
parse_attr-literal (suc (suc len)) c [] e = ground arith
parse_attr-literal (suc (suc len)) c (s0 ∷ []) e = ground arith
parse_attr-literal (suc (suc len)) c (s0 ∷ s1 ∷ str) e = ground arith

parse_attr-escape :
    (len c0 c1 b : ℕ) (str : List ℕ)
    → hex_to_byte c0 c1 ≡ ok b
    → parse_attr (suc (suc (suc len))) (b'%' ∷ c0 ∷ c1 ∷ str)
      ≡ (parse_attr len str >>= λ out. ok (b ∷ out))
unfolding parse_attr
parse_attr-escape len c0 c1 b str e = rw (e, ◌>>=◌)

byte_to_hex-cases :
    (c : ℕ) (bin : Bool)
    → (byte_to_hex c bin ≡ b'%' ∷ hex_char (c / 16) ∷ hex_char (c % 16) ∷ [])
      ⊎ ((byte_to_hex c bin ≡ c ∷ []) × ((c == b'%') ≡ false) × (is_separator c ≡ false))
unfolding byte_to_hex
byte_to_hex-cases c true = inl refl
byte_to_hex-cases c false =
    elim (Bool-cases (ltb c 39 || (c == b'/' || (c == b';' || (c == b'?' || ltb b'~' c))))) [
      | inl escaped ↦ inl (rw escaped)
      | inr plain ↦ inr (rw plain, ground arith, ground arith)
    ]

-- The value that `uri_component` writes for bytes is read back by `parse_attr`, whatever follows it in
-- the text, with all bytes escaped or only those that need it.
pub parse_attr-encode :
    (bin : Bool) (bs rest : List ℕ)
    → AreBytes bs
    → parse_attr (length (encode bin bs)) (encode bin bs ++ rest) ≡ ok bs
unfolding encode
parse_attr-encode bin [] rest are = unfold parse_attr in refl
parse_attr-encode bin (b ∷ bs) rest are =
    let ih = parse_attr-encode bin bs rest are.1 in
    elim (byte_to_hex-cases b bin) [
      | inl e ↦
          rw
            (e, parse_attr-escape (length (encode bin bs)) _ _ b _ (hex_to_byte-digits b are.0), ih)
      | inr (e, plain, _) ↦ rw (e, parse_attr-literal (length (encode bin bs)) b _ plain, ih)
    ]

abbrev pub HasNoSeparator : List ℕ → Type 0
HasNoSeparator [] = Unit {0}
HasNoSeparator (c ∷ cs) = (is_separator c ≡ false) × HasNoSeparator cs

hex_char-plain : (d : ℕ) → d < 16 → is_separator (hex_char d) ≡ false
unfolding hex_char
hex_char-plain d l = ground arith

byte_to_hex-HasNoSeparator : (c : ℕ) (bin : Bool) → c < 256 → HasNoSeparator (byte_to_hex c bin)
byte_to_hex-HasNoSeparator c bin l = elim (byte_to_hex-cases c bin) [
  | inl e ↦
      rw e
        (refl, (hex_char-plain (c / 16) (omega arith), (hex_char-plain (c % 16) (omega arith), tt)))
  | inr (e, _, plain) ↦ rw e (plain, tt)
]

append-HasNoSeparator :
    (xs ys : List ℕ) → HasNoSeparator xs → HasNoSeparator ys → HasNoSeparator (xs ++ ys)
append-HasNoSeparator [] ys a b = b
append-HasNoSeparator (x ∷ xs) ys a b = (a.0, append-HasNoSeparator xs ys a.1 b)

-- An encoded value holds no separator, so no value ends its component early.
pub encode-HasNoSeparator :
    (bin : Bool) (bs : List ℕ) → AreBytes bs → HasNoSeparator (encode bin bs)
unfolding encode
encode-HasNoSeparator bin [] are = tt
encode-HasNoSeparator bin (b ∷ bs) are =
    append-HasNoSeparator (byte_to_hex b bin) (encode bin bs)
      (byte_to_hex-HasNoSeparator b bin are.0) (encode-HasNoSeparator bin bs are.1)
