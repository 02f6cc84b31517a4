-- ===== src/Uri/Numbers.antt =====
-- The numbers in a URI: `parse_ulong` and `parse_version` of src/util.c, over the C library's `strtoul`
-- with base 10.
use pkcs11_provider.Base.{
  ℕ, suc, ◌+◌, ◌-◌, ◌*◌, ◌%◌, Bool, true, false, ◌&&◌, ◌||◌, Option, none, some, List, [], ◌∷◌, ltb,
  leb, ◌==◌, if◌then◌else◌,
}
use pkcs11_provider.Codes.{ulong_mod}
use pkcs11_provider.Uri.{Parsed, ok, ◌>>=◌, err, einval, erange}

abbrev is_digit : ℕ → Bool
is_digit c = leb b'0' c && leb c b'9'

-- `isspace` in the C locale.
abbrev is_space : ℕ → Bool
is_space c = c == 32 || (leb 9 c && leb c 13)

-- The value of the digits at the front, behind the value so far, and how many there are.
digits : ℕ → List ℕ → ℕ × ℕ
digits acc [] = (acc, 0)
digits acc (c ∷ cs) =
    let rest = digits (acc * 10 + (c - b'0')) cs in
    if is_digit c then (rest.0, suc rest.1) else (acc, 0)

count_spaces : List ℕ → ℕ × List ℕ
count_spaces [] = (0, [])
count_spaces (c ∷ cs) =
    let rest = count_spaces cs in if is_space c then (suc rest.0, rest.1) else (0, c ∷ cs)

-- A sign, if there is one: whether it is a minus, its length, and the text behind it.
sign : List ℕ → Bool × ℕ × List ℕ
sign [] = (false, 0, [])
sign (c ∷ cs) =
    if c == b'-' then (true, 1, cs) else (if c == b'+' then (false, 1, cs) else (false, 0, c ∷ cs))

-- `strtoul`: the value, or `ERANGE`, and how many bytes were read; none if there is no digit.
pub strtoul : List ℕ → Parsed ℕ × ℕ
unfolding digits count_spaces sign
strtoul str =
    let (spaces, str1) = count_spaces str in
    let (minus, signs, str2) = sign str1 in
    let (value, n) = digits 0 str2 in
    if n == 0 then (ok 0, 0) else (
      if ltb value ulong_mod
          then ok (if minus then (ulong_mod - value) % ulong_mod else value)
          else err erange,
      spaces + signs + n,
    )

pub parse_ulong : ℕ → List ℕ → Parsed ℕ
unfolding strtoul
parse_ulong len str =
    let (r, n) = strtoul str in r >>= λ val. (if n == len then ok val else err einval)

-- `strchr (str, '.')`: the text before the dot, by its length, and the text behind it.
pub find_dot : List ℕ → Option (ℕ × List ℕ)
find_dot [] = none
find_dot (c ∷ cs) = elim (c == b'.') [
  | true ↦ some (0, cs)
  | false ↦ elim (find_dot cs) [ none ↦ none | some (n, rest) ↦ some (suc n, rest) ]
]

byte_of : ℕ → Parsed ℕ
byte_of val = if ltb 255 val then err einval else ok val

-- The major and the minor number. Where the dot lies past `len`, the major number does not fill the
-- text before it, and `len - (n + 1)` is not reached.
pub parse_version : ℕ → List ℕ → Parsed (ℕ × ℕ)
unfolding find_dot byte_of
parse_version len str = if ltb len 3 || ltb 7 len then err einval else elim (find_dot str) [
  | none ↦ err einval
  | some (n, rest) ↦ do
    major ← parse_ulong n str >>= byte_of
    minor ← parse_ulong (len - (n + 1)) rest >>= byte_of
    ok (major, minor)
]
