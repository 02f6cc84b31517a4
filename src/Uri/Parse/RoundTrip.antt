-- ===== src/Uri/Parse/RoundTrip.antt =====
-- `p11prov_parse_uri` of src/util.c on a URI whose components `uri_component` wrote.
use pkcs11_provider.Base.{
  ℕ, suc, ◌-◌, ◌≡◌, refl, ap, ◌∙◌, Bool, true, false, Option, some, List, [], ◌∷◌, ◌++◌, arith,
  length, codes, AreBytes,
}
use mathlib.Core.List.{append_assoc}
use pkcs11_provider.Uri.{◌>>=◌, parse_attr, parse_utf8str, ok, no_null, encode, uri_component}
use pkcs11_provider.Uri.Codec.{HasNoSeparator, parse_attr-encode, encode-HasNoSeparator}
use pkcs11_provider.Uri.Parse.{
  span, behind, parse_components, dispatch, Uri, table, parse_uri, empty_uri,
}

span-plain : (xs rest : List ℕ) → HasNoSeparator xs → span (xs ++ (b';' ∷ rest)) ≡ length xs
unfolding span
span-plain [] rest n = refl
span-plain (x ∷ xs) rest n = ground (arith, span-plain xs rest)

behind-plain :
    (xs rest : List ℕ)
    → HasNoSeparator xs
    → behind (xs ++ (b';' ∷ rest)) ≡ (span rest, rest) ∷ behind rest
unfolding behind
behind-plain [] rest n = refl
behind-plain (x ∷ xs) rest n = rw (n.0, behind) (behind-plain xs rest n.1)

-- The components of a text, with their lengths.
abbrev components : List ℕ → List (ℕ × List ℕ)
components p = (span p, p) ∷ behind p

module _ (files : List ℕ → Option (Option (List ℕ))) where
  -- A component that ends in a separator is handled before the rest.
  parse_components-cons :
      (xs rest : List ℕ) (u : Uri)
      → HasNoSeparator xs
      → parse_components files (components (xs ++ (b';' ∷ rest))) u ≡ (
          dispatch files (table files) (length xs) (xs ++ (b';' ∷ rest)) u
          >>= parse_components files (components rest))
  unfolding parse_components
  parse_components-cons xs rest u n = rw (span-plain xs rest n, behind-plain xs rest n)

  dispatch-id :
      (len : ℕ) (value : List ℕ) (u : Uri)
      → dispatch files (table files) (suc (suc (suc len))) (codes "id=" ++ value) u
        ≡ (parse_attr len value >>= λ t. ok (record u { id = some t }))
  unfolding dispatch table
  dispatch-id len value u = let e : suc (suc (suc len)) - 3 ≡ len = omega arith in rw e

  dispatch-object :
      (len : ℕ) (value : List ℕ) (u : Uri)
      → dispatch files
          (table files)
          (suc (suc (suc (suc (suc (suc (suc len)))))))
          (codes "object=" ++ value)
          u
        ≡ (parse_utf8str len value >>= λ t. ok (record u { object = some t }))
  unfolding dispatch table
  dispatch-object len value u =
      let e : suc (suc (suc (suc (suc (suc (suc len)))))) - 7 ≡ len = omega arith in rw e

  parse_utf8str-encode :
      (bin : Bool) (bs rest : List ℕ)
      → AreBytes bs
      → no_null bs ≡ true
      → parse_utf8str (length (encode bin bs)) (encode bin bs ++ rest) ≡ ok bs
  unfolding parse_utf8str
  parse_utf8str-encode bin bs rest are text = rw (parse_attr-encode bin bs rest are, text)

  -- The two components that `p11prov_obj_to_uri` writes for an object.
  parse-id :
      (bs rest : List ℕ) (u : Uri)
      → AreBytes bs
      → parse_components files (components (codes "id=" ++ (encode true bs ++ (b';' ∷ rest)))) u
        ≡ parse_components files (components rest) (record u { id = some bs })
  parse-id bs rest u are =
      parse_components-cons (codes "id=" ++ encode true bs) rest u
        (refl, (refl, (refl, encode-HasNoSeparator true bs are)))
      ∙ rw (
        dispatch-id (length (encode true bs)) (encode true bs ++ (b';' ∷ rest)) u,
        parse_attr-encode true bs (b';' ∷ rest) are,
      )

  parse-object :
      (bs rest : List ℕ) (u : Uri)
      → AreBytes bs
      → no_null bs ≡ true
      → parse_components files
          (components (codes "object=" ++ (encode false bs ++ (b';' ∷ rest))))
          u
        ≡ parse_components files (components rest) (record u { object = some bs })
  parse-object bs rest u are text =
      parse_components-cons (codes "object=" ++ encode false bs) rest u
        (refl, (refl, (refl, (refl, (refl, (refl, (refl, encode-HasNoSeparator false bs are)))))))
      ∙ rw (
        dispatch-object (length (encode false bs)) (encode false bs ++ (b';' ∷ rest)) u,
        parse_utf8str-encode false bs (b';' ∷ rest) are text,
      )

  parse_uri-ok :
      (p : List ℕ) (u : Uri)
      → parse_components files (components p) empty_uri ≡ ok u
      → parse_uri files (codes "pkcs11:" ++ p) ≡ some u
  unfolding parse_uri
  parse_uri-ok p u e = rw (e, parse_uri)

  no_more : (u : Uri) → parse_components files (components []) u ≡ ok u
  unfolding parse_components dispatch table behind
  no_more u = refl

  joined :
      (bs lbl : List ℕ)
      → uri_component (codes "id") bs ++ uri_component (codes "object") lbl
        ≡ codes "id="
          ++ (encode true bs ++ (b';' ∷ (codes "object=" ++ (encode false lbl ++ (b';' ∷ [])))))
  unfolding uri_component
  joined bs lbl =
      ap (λ r. codes "id=" ++ r)
        (append_assoc (encode true bs) (b';' ∷ [])
          (codes "object=" ++ (encode false lbl ++ (b';' ∷ []))))

  -- A URI of the two components that `uri_component` writes for an object's identifier, of any bytes,
  -- and its label, of any bytes but null, is parsed back to that identifier and that label, with all
  -- else unset.
  pub parse_uri-uri_component :
      (bs lbl : List ℕ)
      → AreBytes bs
      → AreBytes lbl
      → no_null lbl ≡ true
      → parse_uri files
          (codes "pkcs11:" ++ (uri_component (codes "id") bs ++ uri_component (codes "object") lbl))
        ≡ some (record empty_uri { id = some bs; object = some lbl })
  parse_uri-uri_component bs lbl are text_are text =
      let u : Uri = record empty_uri { id = some bs } in
      rw (joined bs lbl) (
        parse_uri-ok _ _ (
          parse-id bs (codes "object=" ++ (encode false lbl ++ (b';' ∷ []))) empty_uri are
          ∙ parse-object lbl [] u text_are text
          ∙ no_more (record u { object = some lbl })))
