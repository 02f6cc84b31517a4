-- ===== src/Digests/Names.antt =====
-- The names of digests, without regard to case.
use pkcs11_provider.Base.{
  ℕ, suc, ◌+◌, ◌≡◌, refl, sym, ap, subst, ◌∙◌, inl, inr, Bool, true, ◌&&◌, Option, none, some,
  some-injective, List, [], ◌∷◌, arith, leb, ◌==◌, if◌then◌else◌, Bool-cases, get_elem?, All,
  All-get_elem?, same_bytes, same_bytes→≡, same_bytes_refl,
}
use pkcs11_provider.Codes.Rv
use pkcs11_provider.Digests.{
  Entry, digest_map, get_by_name, find_name, has_name, find_entry, first_name, get_name, answer,
}

-- A letter from `A` to `Z` as one from `a` to `z`.
abbrev lower_char : ℕ → ℕ
lower_char c = if leb 65 c && leb c 90 then c + 32 else c

abbrev pub lower : List ℕ → List ℕ
lower [] = []
lower (c ∷ cs) = lower_char c ∷ lower cs

-- What `OPENSSL_strcasecmp` is documented to compare.
abbrev pub IgnoresCase : (List ℕ → List ℕ → Bool) → Type 0
IgnoresCase same = (a b : List ℕ) → same a b ≡ same_bytes (lower a) (lower b)

-- That itself.
abbrev pub no_case : List ℕ → List ℕ → Bool
no_case a b = same_bytes (lower a) (lower b)

module _ (same : List ℕ → List ℕ → Bool) (law : IgnoresCase same) where
  has_name-no_case :
      (ns : List (List ℕ)) (name other : List ℕ)
      → lower name ≡ lower other
      → has_name same ns name ≡ has_name no_case ns other
  unfolding has_name
  has_name-no_case [] name other e = refl
  has_name-no_case (n ∷ ns) name other e = rw (law name n, e, has_name-no_case ns name other e) refl

  find_name-no_case :
      (es : List Entry) (name other : List ℕ)
      → lower name ≡ lower other
      → find_name same es name ≡ find_name no_case es other
  unfolding find_name
  find_name-no_case [] name other e = refl
  find_name-no_case (x ∷ es) name other e =
      rw (has_name-no_case x.names name other e, find_name-no_case es name other e) refl

-- Each name of each digest is found, and no earlier digest has it.
abbrev Found : Entry → Type 0
Found e = All (λ n. find_name no_case digest_map n ≡ (Rv.ok, some e.digest)) e.names

digest_map-Found : All Found digest_map
unfolding find_name has_name
digest_map-Found = (
  (refl, (refl, (refl, (refl, tt)))),
  (
    (refl, (refl, (refl, (refl, tt)))),
    (
      (refl, (refl, (refl, (refl, tt)))),
      (
        (refl, (refl, (refl, (refl, tt)))),
        (
          (refl, (refl, (refl, (refl, tt)))),
          (
            (refl, (refl, (refl, (refl, tt)))),
            (
              (refl, (refl, (refl, (refl, tt)))),
              (
                (refl, (refl, tt)),
                ((refl, (refl, tt)), ((refl, (refl, tt)), ((refl, (refl, tt)), tt))),
              ),
            ),
          ),
        ),
      ),
    ),
  ),
)

-- For a comparison of names that ignores the case of letters: a name that is one of a digest's names, in
-- any case, is found, and the digest that is found is that one.
pub get_by_name-digest_map :
    (same : List ℕ → List ℕ → Bool)
    → IgnoresCase same
    → (i j : ℕ) (e : Entry) (n name : List ℕ) → get_elem? digest_map i ≡ some e
    → get_elem? e.names j ≡ some n
    → same name n ≡ true
    → get_by_name same name ≡ (Rv.ok, some e.digest)
unfolding get_by_name
get_by_name-digest_map same law i j e n name at_i at_j equal =
    let case : lower name ≡ lower n =
      same_bytes→≡ (lower name) (lower n) (sym (law name n) ∙ equal) in
    find_name-no_case same law digest_map name n case
    ∙ All-get_elem? (λ n. find_name no_case digest_map n ≡ (Rv.ok, some e.digest)) e.names j n
        (All-get_elem? Found digest_map i e digest_map-Found at_i) at_j

find_entry-get_elem? :
    (es : List Entry) (digest : ℕ) (e : Entry)
    → find_entry es digest ≡ some e
    → (i : ℕ) × (get_elem? es i ≡ some e) × (e.digest ≡ digest)
unfolding find_entry
find_entry-get_elem? [] digest e eq = cc
find_entry-get_elem? (x ∷ es) digest e eq = elim (Bool-cases (x.digest == digest)) [
  | inl here ↦
      let same : x ≡ e =
        some-injective x e
          (subst (λ b. (if b then some x else find_entry es digest) ≡ some e) here eq) in
      (0, ap some same, ap (λ (r : Entry). r.digest) (sym same) ∙ (ground arith))
  | inr there ↦
      let (i, at_i, d) =
        find_entry-get_elem? es digest e
          (subst (λ b. (if b then some x else find_entry es digest) ≡ some e) there eq) in
      (suc i, at_i, d)
]

-- Every entry has a name.
digest_map-first_name : All (λ e. get_elem? e.names 0 ≡ some (first_name e)) digest_map
digest_map-first_name =
    (refl, (refl, (refl, (refl, (refl, (refl, (refl, (refl, (refl, (refl, (refl, tt)))))))))))

-- For a comparison of names that ignores the case of letters: the name that `p11prov_digest_get_name`
-- gives to a digest is one that `p11prov_digest_get_by_name` takes back to it.
pub get_by_name-get_name :
    (same : List ℕ → List ℕ → Bool)
    → IgnoresCase same
    → (digest : ℕ) (name : List ℕ) → get_name digest ≡ (Rv.ok, some name)
    → get_by_name same name ≡ (Rv.ok, some digest)
unfolding get_name
get_by_name-get_name same law digest name named = by_entry (find_entry digest_map digest) refl named
  where
    by_entry :
        (o : Option Entry)
        → find_entry digest_map digest ≡ o
        → answer first_name o ≡ (Rv.ok, some name)
        → get_by_name same name ≡ (Rv.ok, some digest)
    by_entry none found named = cc
    by_entry (some e) found named =
        let (i, at_i, d) = find_entry-get_elem? digest_map digest e found in
        let first : first_name e ≡ name =
          some-injective (first_name e) name (ap (λ p. p.1) named) in
        let at_0 =
          All-get_elem? (λ e. get_elem? e.names 0 ≡ some (first_name e)) digest_map i e
            digest_map-first_name at_i in
        let equal : same name name ≡ true = law name name ∙ same_bytes_refl (lower name) in
        get_by_name-digest_map same law i 0 e name name at_i (at_0 ∙ ap some first) equal
        ∙ ap (λ n. (Rv.ok, some n)) d

-- A name comes with success.
pub get_name_found : (d : ℕ) (n : List ℕ) → (get_name d).1 ≡ some n → get_name d ≡ (Rv.ok, some n)
unfolding get_name
get_name_found d n e = by_entry (find_entry digest_map d) e
  where
    by_entry :
        (o : Option Entry)
        → (answer first_name o).1 ≡ some n
        → answer first_name o ≡ (Rv.ok, some n)
    by_entry none e = cc
    by_entry (some x) e = ap (λ o. (Rv.ok, o)) e
