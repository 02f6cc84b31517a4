-- ===== src/Base/Bytes.antt =====
-- The C library's comparisons of texts and buffers, over lists of bytes.
use Prim.Native.Nat.{ℕ, zero, suc, ◌+◌, ◌≤◌, ◌<◌}
use mathlib.Core.Path.{◌≡◌, refl, sym, ap, ap₂, ◌∙◌}
use mathlib.Core.Bool.{Bool, true, false, ◌&&◌}
use mathlib.Core.List.{List, [], ◌∷◌, ◌++◌}
use mathlib.Core.Option.{Option, none, some}
use Prim.Native.Char.{code}
use Prim.Native.String.{String}
use native.Mathlib.Omega.{arith}
use pkcs11_provider.Base.Tests.{◌==◌}
use pkcs11_provider.Base.Lists.{length, get_elem?, get_elem?-lt}

-- The code points of a text, which are its bytes where it is ASCII.
abbrev pub codes : String → List ℕ
codes String.[] = []
codes (String.◌∷◌ c s) = code c ∷ codes s

-- The text behind a prefix.
abbrev pub strip_prefix : List ℕ → List ℕ → Option (List ℕ)
strip_prefix [] s = some s
strip_prefix (x ∷ xs) [] = none
strip_prefix (x ∷ xs) (y ∷ ys) = elim (x == y) [ true ↦ strip_prefix xs ys | false ↦ none ]

pub strip_prefix-append : (xs ys : List ℕ) → strip_prefix xs (xs ++ ys) ≡ some ys
strip_prefix-append [] ys = refl
strip_prefix-append (x ∷ xs) ys = ground (arith, strip_prefix-append xs ys)

-- `strcmp`, and `memcmp` behind a comparison of the lengths, against 0.
abbrev pub same_bytes : List ℕ → List ℕ → Bool
same_bytes [] [] = true
same_bytes [] (y ∷ ys) = false
same_bytes (x ∷ xs) [] = false
same_bytes (x ∷ xs) (y ∷ ys) = x == y && same_bytes xs ys

-- `strncmp` against 0, for texts without a null byte.
abbrev pub same_prefix : ℕ → List ℕ → List ℕ → Bool
same_prefix zero xs ys = true
same_prefix (suc n) [] [] = true
same_prefix (suc n) [] (y ∷ ys) = false
same_prefix (suc n) (x ∷ xs) [] = false
same_prefix (suc n) (x ∷ xs) (y ∷ ys) = x == y && same_prefix n xs ys

pub same_bytes→≡ : (xs ys : List ℕ) → same_bytes xs ys ≡ true → xs ≡ ys
same_bytes→≡ [] [] e = refl
same_bytes→≡ [] (y ∷ ys) e = cc
same_bytes→≡ (x ∷ xs) [] e = cc
same_bytes→≡ (x ∷ xs) (y ∷ ys) e = ground (arith, same_bytes→≡ xs ys)

pub same_bytes_refl : (xs : List ℕ) → same_bytes xs xs ≡ true
same_bytes_refl [] = refl
same_bytes_refl (x ∷ xs) = ground (arith, same_bytes_refl xs)

abbrev pub AreBytes : List ℕ → Type 0
AreBytes [] = Unit {0}
AreBytes (b ∷ bs) = (b < 256) × AreBytes bs

pub AreBytes-get_elem? : (bs : List ℕ) (i b : ℕ) → AreBytes bs → get_elem? bs i ≡ some b → b < 256
AreBytes-get_elem? [] i b are e = cc
AreBytes-get_elem? (x ∷ xs) zero b are e = ground (arith, are.0)
AreBytes-get_elem? (x ∷ xs) (suc i) b are e = AreBytes-get_elem? xs i b are.1 e

-- The `n` bytes from an index on, as far as they are there.
abbrev pub slice : List ℕ → ℕ → ℕ → List ℕ
slice xs k zero = []
slice xs k (suc n) = elim (get_elem? xs k) [ none ↦ [] | some v ↦ v ∷ slice xs (suc k) n ]

pub slice-AreBytes : (xs : List ℕ) (k n : ℕ) → AreBytes xs → AreBytes (slice xs k n)
slice-AreBytes xs k zero are = tt
slice-AreBytes xs k (suc n) are = by_entry (get_elem? xs k) refl (slice-AreBytes xs (suc k) n are)
  where
    by_entry :
        (o : Option ℕ)
        → get_elem? xs k ≡ o
        → AreBytes (slice xs (suc k) n)
        → AreBytes (elim o [ none ↦ [] | some v ↦ v ∷ slice xs (suc k) n ])
    by_entry none e rest = tt
    by_entry (some v) e rest = (AreBytes-get_elem? xs k v are e, rest)

-- A list of `n` bytes that agrees with those from an index on.
pub slice-ext :
    (ts xs : List ℕ) (k n : ℕ)
    → length ts ≡ n
    → k + n ≤ length xs
    → ((j : ℕ) → j < n → get_elem? ts j ≡ get_elem? xs (k + j))
    → ts ≡ slice xs k n
slice-ext [] xs k zero l room same = refl
slice-ext [] xs k (suc n) l room same = absurd (omega (arith, l))
slice-ext (t ∷ ts) xs k zero l room same = absurd (omega (arith, l))
slice-ext (t ∷ ts) xs k (suc n) l room same =
    let first : get_elem? xs k ≡ some t =
      sym (same 0 (omega arith) ∙ ap (get_elem? xs) (plus_zero k)) in
    let rest =
      slice-ext ts xs (suc k) n (omega (arith, l)) (omega arith)
        (λ j lt. same (suc j) (omega arith) ∙ ap (get_elem? xs) (plus_suc k j)) in
    rw (first, slice, ← rest) refl
  where
    plus_zero : (k : ℕ) → k + 0 ≡ k
    plus_zero k = omega arith

    plus_suc : (k j : ℕ) → k + suc j ≡ suc k + j
    plus_suc k j = omega arith

pub length-slice : (xs : List ℕ) (k n : ℕ) → k + n ≤ length xs → length (slice xs k n) ≡ n
length-slice xs k zero room = refl
length-slice xs k (suc n) room =
    let (v, there) = get_elem?-lt xs k (omega arith) in
    rw (there, slice) (ap suc (length-slice xs (suc k) n (omega arith)))

pub slice-cons : (x : ℕ) (xs : List ℕ) (k n : ℕ) → slice xs k n ≡ slice (x ∷ xs) (suc k) n
slice-cons x xs k zero = refl
slice-cons x xs k (suc n) =
    ap (λ (r : List ℕ). elim (get_elem? xs k) [ none ↦ [] | some v ↦ v ∷ r ])
      (slice-cons x xs (suc k) n)

pub slice-append : (xs ys zs : List ℕ) → slice (xs ++ (ys ++ zs)) (length xs) (length ys) ≡ ys
slice-append [] [] zs = refl
slice-append [] (y ∷ ys) zs =
    ap (◌∷◌ y) (sym (slice-cons y (ys ++ zs) 0 (length ys)) ∙ slice-append [] ys zs)
slice-append (x ∷ xs) ys zs =
    sym (slice-cons x (xs ++ (ys ++ zs)) (length xs) (length ys)) ∙ slice-append xs ys zs

-- A buffer with bytes written over it from an index on, as far as it reaches.
abbrev pub overwrite : List ℕ → ℕ → List ℕ → List ℕ
overwrite [] k bs = []
overwrite (x ∷ xs) zero [] = x ∷ xs
overwrite (x ∷ xs) zero (b ∷ bs) = b ∷ overwrite xs zero bs
overwrite (x ∷ xs) (suc k) bs = x ∷ overwrite xs k bs

overwrite_nothing : (xs : List ℕ) → overwrite xs 0 [] ≡ xs
overwrite_nothing [] = refl
overwrite_nothing (x ∷ xs) = refl

slice_head : (x : ℕ) (xs : List ℕ) (n : ℕ) → slice (x ∷ xs) 0 (suc n) ≡ x ∷ slice xs 0 n
slice_head x xs n = ap (λ l. x ∷ l) (sym (slice-cons x xs 0 n))

slice-overwrite_start :
    (buf bs : List ℕ) → length bs ≤ length buf → slice (overwrite buf 0 bs) 0 (length bs) ≡ bs
slice-overwrite_start buf [] room = refl
slice-overwrite_start [] (b ∷ bs) room = absurd (omega arith)
slice-overwrite_start (x ∷ xs) (b ∷ bs) room =
    slice_head b (overwrite xs 0 bs) (length bs)
    ∙ ap (λ l. b ∷ l) (slice-overwrite_start xs bs (omega arith))

zero_add : (n : ℕ) → 0 + n ≡ n
zero_add n = omega arith

suc_add : (n m : ℕ) → suc n + m ≡ suc (n + m)
suc_add n m = omega arith

-- Two texts that are written behind each other are read back together.
pub slice-overwrite :
    (buf cs bs : List ℕ)
    → length cs + length bs ≤ length buf
    → slice (overwrite (overwrite buf 0 cs) (length cs) bs) 0 (length cs + length bs) ≡ cs ++ bs
slice-overwrite buf [] bs room =
    rw (overwrite_nothing, zero_add (length bs)) (slice-overwrite_start buf bs (omega arith))
slice-overwrite [] (a ∷ cs) bs room = absurd (omega arith)
slice-overwrite (x ∷ xs) (a ∷ cs) bs room =
    ap (slice (a ∷ overwrite (overwrite xs 0 cs) (length cs) bs) 0)
      (suc_add (length cs) (length bs))
    ∙ slice_head a (overwrite (overwrite xs 0 cs) (length cs) bs) (length cs + length bs)
    ∙ ap (λ l. a ∷ l) (slice-overwrite xs cs bs (omega arith))

pub slice_all : (xs : List ℕ) → slice xs 0 (length xs) ≡ xs
slice_all [] = refl
slice_all (x ∷ xs) = slice_head x xs (length xs) ∙ ap (λ l. x ∷ l) (slice_all xs)

-- Neighbouring slices.
pub slice-next :
    (xs : List ℕ) (n m : ℕ) → n ≤ length xs → slice xs 0 n ++ slice xs n m ≡ slice xs 0 (n + m)
slice-next xs zero m room = ap (slice xs 0) (sym (zero_add m))
slice-next [] (suc n) m room = absurd (omega arith)
slice-next (x ∷ xs) (suc n) m room =
    ap₂ ◌++◌ (slice_head x xs n) (sym (slice-cons x xs n m))
    ∙ ap (λ l. x ∷ l) (slice-next xs n m (omega arith))
    ∙ sym (slice_head x xs (n + m))
    ∙ ap (slice (x ∷ xs) 0) (sym (suc_add n m))
