-- ===== src/Uri/Parse.antt =====
-- `p11prov_parse_uri` of src/util.c, its handlers, and `p11prov_uri_match_token`.
pub mod RoundTrip
use pkcs11_provider.Base.{
  ℕ, suc, ◌+◌, ◌-◌, Bool, true, false, ◌&&◌, ◌||◌, Option, none, some, List, [], ◌∷◌, ◌++◌, ◌==◌,
  if◌then◌else◌, length, codes, strip_prefix, same_bytes, same_prefix,
}
use pkcs11_provider.Codes.Rv
use pkcs11_provider.Uri.Numbers.{parse_version, parse_ulong}
use pkcs11_provider.Uri.{
  Parsed, is_separator, err, ok, enoent, ◌>>=◌, parse_utf8str, einval, parse_attr,
}
use pkcs11_provider.Codes.{unavailable}

-- `struct p11prov_uri`; a null pointer is `none`, and so is an attribute that was not set.
pub record Uri : Type 0 where
  pub library_description : Option (List ℕ)
  pub library_manufacturer : Option (List ℕ)
  pub library_version : ℕ × ℕ
  pub token : Option (List ℕ)
  pub manufacturer : Option (List ℕ)
  pub model : Option (List ℕ)
  pub serial : Option (List ℕ)
  pub slot_description : Option (List ℕ)
  pub slot_id : ℕ
  pub slot_manufacturer : Option (List ℕ)
  pub id : Option (List ℕ)
  pub object : Option (List ℕ)
  pub object_class : ℕ
  pub pin : Option (List ℕ)

abbrev pub empty_uri : Uri
empty_uri = record {
  library_description = none;
  library_manufacturer = none;
  library_version = (0, 0);
  token = none;
  manufacturer = none;
  model = none;
  serial = none;
  slot_description = none;
  slot_id = unavailable;
  slot_manufacturer = none;
  id = none;
  object = none;
  object_class = unavailable;
  pin = none;
}

-- `parse_class`, with the values of `CKO_DATA` and the others.
pub class_of : List ℕ → Option ℕ
class_of s =
    if same_bytes s (codes "data")
    then some 0
    else (if same_bytes s (codes "cert")
        then some 1
        else (if same_bytes s (codes "public")
            then some 2
            else (if same_bytes s (codes "private")
                then some 3
                else (if same_bytes s (codes "secret-key") then some 4 else none))))

pub parse_class : ℕ → List ℕ → Parsed ℕ
unfolding class_of
parse_class len str = do
  s ← parse_utf8str len str
  elim (class_of s) [ none ↦ err einval | some c ↦ ok c ]

-- What `get_pin_file` removes from the end of a pin.
strip_end : List ℕ → List ℕ
strip_end [] = []
strip_end (c ∷ cs) = elim (strip_end cs) [
  | [] ↦ if c == 10 || c == 13 then [] else c ∷ []
  | d ∷ ds ↦ c ∷ d ∷ ds
]

-- A file as `BIO_new_file` and `BIO_gets` have it: none if it cannot be opened, and then what is read.
module _ (files : List ℕ → Option (Option (List ℕ))) where
  read_pin : List ℕ → Parsed (List ℕ)
  unfolding strip_end
  read_pin filename = elim (files filename) [
    | none ↦ err enoent
    | some r ↦ elim r [ none ↦ err einval | some bytes ↦ ok (strip_end bytes) ]
  ]

  pub get_pin_file : ℕ → List ℕ → Parsed (List ℕ)
  unfolding read_pin
  get_pin_file len str = do
    pinfile ← parse_attr len str
    elim (strip_prefix (codes "file:") pinfile) [
      | some filename ↦ read_pin filename
      | none ↦ elim (strip_prefix (codes "|") pinfile) [
        | some r ↦ err einval
        | none ↦ read_pin pinfile
      ]
    ]

  -- The handlers of the components, by name. `parse_ck_attribute` is `parse_attr` for `CKA_ID` and
  -- `parse_utf8str` for `CKA_LABEL`.
  abbrev pub Handler : Type 0
  Handler = ℕ → List ℕ → Uri → Parsed Uri

  pub table : List (List ℕ × Handler)
  unfolding get_pin_file parse_class
  table =
      (
        codes "library-description",
        λ n s u. do t ← parse_utf8str n s; ok (record u { library_description = some t }),
      )
      ∷ (
        codes "library-manufacturer",
        λ n s u. do t ← parse_utf8str n s; ok (record u { library_manufacturer = some t }),
      )
      ∷ (
        codes "library-version",
        λ n s u. do v ← parse_version n s; ok (record u { library_version = v }),
      )
      ∷ (codes "token", λ n s u. do t ← parse_utf8str n s; ok (record u { token = some t }))
      ∷ (
        codes "manufacturer",
        λ n s u. do t ← parse_utf8str n s; ok (record u { manufacturer = some t }),
      )
      ∷ (codes "model", λ n s u. do t ← parse_utf8str n s; ok (record u { model = some t }))
      ∷ (codes "serial", λ n s u. do t ← parse_utf8str n s; ok (record u { serial = some t }))
      ∷ (
        codes "slot-description",
        λ n s u. do t ← parse_utf8str n s; ok (record u { slot_description = some t }),
      )
      ∷ (codes "slot-id", λ n s u. do v ← parse_ulong n s; ok (record u { slot_id = v }))
      ∷ (
        codes "slot-manufacturer",
        λ n s u. do t ← parse_utf8str n s; ok (record u { slot_manufacturer = some t }),
      )
      ∷ (codes "id", λ n s u. do t ← parse_attr n s; ok (record u { id = some t }))
      ∷ (codes "object", λ n s u. do t ← parse_utf8str n s; ok (record u { object = some t }))
      ∷ (codes "type", λ n s u. do c ← parse_class n s; ok (record u { object_class = c }))
      ∷ (codes "pin-value", λ n s u. do t ← parse_utf8str n s; ok (record u { pin = some t }))
      ∷ (codes "pin-source", λ n s u. do t ← get_pin_file n s; ok (record u { pin = some t }))
      ∷ (codes "object-type", λ n s u. do c ← parse_class n s; ok (record u { object_class = c }))
      ∷ []

  -- The inner loop: the first entry whose name and an equals sign stand at the front; a component of
  -- another name changes nothing.
  pub dispatch : List (List ℕ × Handler) → ℕ → List ℕ → Uri → Parsed Uri
  dispatch [] len p u = ok u
  dispatch ((name, handler) ∷ entries) len p u = elim (strip_prefix (name ++ codes "=") p) [
    | none ↦ dispatch entries len p u
    | some value ↦ handler (len - (length name + 1)) value u
  ]

  -- The outer loop over the components, each with its length.
  pub parse_components : List (ℕ × List ℕ) → Uri → Parsed Uri
  unfolding dispatch table
  parse_components [] u = ok u
  parse_components ((len, p) ∷ ps) u = dispatch table len p u >>= parse_components ps

-- The length of a text up to its first separator, which `strpbrk` finds.
pub span : List ℕ → ℕ
span [] = 0
span (c ∷ cs) = elim (is_separator c) [ true ↦ 0 | false ↦ suc (span cs) ]

-- What stands behind each separator of a text, with its length.
pub behind : List ℕ → List (ℕ × List ℕ)
unfolding span
behind [] = []
behind (c ∷ cs) = elim (is_separator c) [ true ↦ (span cs, cs) ∷ behind cs | false ↦ behind cs ]

-- The return value is the URI, or a null pointer. The allocation of the URI that is returned, and those
-- of its components, are taken to succeed.
pub parse_uri : (List ℕ → Option (Option (List ℕ))) → List ℕ → Option Uri
unfolding parse_components behind
parse_uri files uri = elim (strip_prefix (codes "pkcs11:") uri) [
  | none ↦ none
  | some p ↦ elim (parse_components files ((span p, p) ∷ behind p) empty_uri) [
    | ok u ↦ some u
    | err e ↦ none
  ]
]

-- A text that the URI wants, against a field of fixed size that was trimmed.
abbrev wants : ℕ → Option (List ℕ) → List ℕ → Bool
wants n none field = true
wants n (some t) field = same_prefix n t field

-- What `p11prov_uri_match_token` compares with: the slot's and the token's texts.
pub record TokenTexts : Type 0 where
  pub t_slot_description : List ℕ
  pub t_slot_manufacturer : List ℕ
  pub t_label : List ℕ
  pub t_manufacturer : List ℕ
  pub t_model : List ℕ
  pub t_serial : List ℕ

pub uri_match_token : Uri → ℕ → TokenTexts → ℕ
uri_match_token u slot_id t =
    if (u.slot_id == unavailable || u.slot_id == slot_id)
      && (wants 64 u.slot_description t.t_slot_description
          && (wants 32 u.slot_manufacturer t.t_slot_manufacturer
              && (wants 16 u.model t.t_model
                  && (wants 32 u.manufacturer t.t_manufacturer
                      && (wants 32 u.token t.t_label && wants 16 u.serial t.t_serial)))))
    then Rv.ok
    else Rv.cancel
