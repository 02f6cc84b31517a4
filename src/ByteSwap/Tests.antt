-- ===== src/ByteSwap/Tests.antt =====
-- Examples on byteswap_buf of src/util.c: three bytes in place, of a buffer of four.
use pkcs11_provider.Base.{ℕ, ◌≡◌, refl, true, some, List, [], ◌∷◌}
use pkcs11_provider.ByteSwap.{byteswap_buf}

abbrev four : List ℕ
four = 1 ∷ 2 ∷ 3 ∷ 4 ∷ []

turned_in_place : byteswap_buf true four four 3 ≡ some (3 ∷ 2 ∷ 1 ∷ 4 ∷ [])
unfolding byteswap_buf
turned_in_place = refl
