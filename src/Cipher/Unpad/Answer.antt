-- ===== src/Cipher/Unpad/Answer.antt =====
-- What `tlsunpad` answers, for every record.
use pkcs11_provider.Base.{
  ℕ, ◌+◌, ◌-◌, ◌%◌, ◌^◌, ◌≤◌, ◌<◌, bit_and, ◌≡◌, refl, ap, ◌∙◌, inl, inr, Bool, true, false, not,
  none, some, List, arith, ltb, ◌==◌, if◌then◌else◌, Bool-cases, length, get_elem?, replicate,
  AreBytes, AreBytes-get_elem?, slice, slice-AreBytes, length-slice,
}
use pkcs11_provider.Word.Digits.{zero-and, ones-and}
use pkcs11_provider.Cipher.Unpad.Mac.{mac_loop-slice, select_mac_lem}
use pkcs11_provider.Cipher.Unpad.Padding.{checked_mask}
use pkcs11_provider.Word.{ulong_max, minus}
use pkcs11_provider.Codes.Rv
use pkcs11_provider.Cipher.Unpad.{
  tls1_0, Chance, aes_block, Unpadded, find_mac, tlsunpad, select_mac, extract, unpad_body,
}

-- The length of the data, and of the record without an explicit IV.
abbrev pub iv_size : ℕ → ℕ
iv_size tlsver = if tlsver == tls1_0 then 0 else aes_block

-- The answer behind the check of the padding.
abbrev answer : Chance → ℕ → List ℕ → ℕ → ℕ → Bool → ℕ → Unpadded
answer c macsize out off outlen fits len =
    if ltb 0 macsize
    then (if not c.room
        then (Rv.general_error, outlen, none)
        else (if not c.seeded then (Rv.general_error, outlen, some (replicate macsize 0)) else (
          Rv.ok,
          len,
          some (if fits then slice out (off + len) macsize else slice c.randmac 0 macsize),
        )))
    else (if fits then Rv.ok else Rv.general_error, len, none)

-- The answer, told with comparisons and slices: the padding is taken off if it fits.
unfoldable pub reference : Chance → ℕ → ℕ → List ℕ → ℕ → ℕ → ℕ → Unpadded
reference c tlsver macsize out inlen outlen padsize =
    let off = iv_size tlsver in
    let olen = inlen - off in
    let fits = not (ltb olen (macsize + 1 + padsize)) in
    if ltb olen (macsize + 1)
    then (Rv.buffer_too_small, outlen, none)
    else answer c macsize out off outlen fits (olen - macsize - (if fits then padsize + 1 else 0))

module _ (c : Chance) (macsize : ℕ) (out : List ℕ) (are : AreBytes out)
    (random : AreBytes c.randmac) (enough : macsize ≤ length c.randmac) (outlen : ℕ) where
  module _ (off olen : ℕ) (whole : off + olen ≤ length out) (small : olen < 2 ^ 62) where
    -- The copying begins in front of the MAC, which is at most 256 bytes from the end.
    area :
        (len : ℕ)
        → len + macsize ≤ olen
        → olen ≤ len + macsize + 256
        → (if ltb (macsize + 256) olen then olen - macsize - 256 else 0) ≤ len
    area len inside near = ground arith

    extract_lem :
        (fits : Bool) (pass len : ℕ)
        → len + macsize ≤ olen
        → olen ≤ len + macsize + 256
        → (pass == ulong_max) ≡ fits
        → pass ≡ (if fits then ulong_max else 0)
        → extract c out off olen macsize outlen pass len
          ≡ some (answer c macsize out off outlen fits len)
    unfolding extract
    extract_lem fits pass len inside near full mask =
        let copied =
          mac_loop-slice out off olen len macsize are whole inside (omega arith) _
            (area len inside near) in
        let size = length-slice out (off + len) macsize (omega arith) in
        let chosen : select_mac pass (slice out (off + len) macsize) c.randmac
            ≡ (if fits then slice out (off + len) macsize else slice c.randmac 0 macsize) =
          rw mask (
            select_mac_lem fits (slice out (off + len) macsize) c.randmac
              (slice-AreBytes out (off + len) macsize are) random (omega (arith, size))
            ∙ ap (λ n. if fits then slice out (off + len) macsize else slice c.randmac 0 n) size) in
        elim (Bool-cases (ltb 0 macsize)) [
          | inr bare ↦ rw (bare, full) refl
          | inl some_mac ↦ elim (Bool-cases c.room) [
            | inr full_memory ↦ rw (some_mac, full_memory) refl
            | inl room ↦ elim (Bool-cases c.seeded) [
              | inr bad ↦ rw (some_mac, room, bad) refl
              | inl seeded ↦ rw (some_mac, room, seeded, copied, chosen) refl
            ]
          ]
        ]

    find_mac_lem :
        (fits : Bool) (padsize pass d : ℕ)
        → d + macsize ≤ olen
        → olen ≤ olen - d + 256
        → bit_and pass ((padsize + 1) % 2 ^ 64) ≡ d
        → (pass == ulong_max) ≡ fits
        → pass ≡ (if fits then ulong_max else 0)
        → find_mac c out off olen macsize padsize outlen pass
          ≡ some (answer c macsize out off outlen fits (olen - macsize - d))
    unfolding find_mac
    find_mac_lem fits padsize pass d le near dropped full mask =
        let pos : minus (minus olen macsize) d ≡ olen - macsize - d = omega arith in
        rw (dropped, pos)
          (extract_lem fits pass (olen - macsize - d) (omega arith) (omega arith) full mask)

    fits_le :
        (padsize : ℕ) → ltb olen (macsize + 1 + padsize) ≡ false → padsize + 1 + macsize ≤ olen
    fits_le padsize fit = ground arith

    unpad_body_lem :
        (padsize : ℕ)
        → padsize < 256
        → macsize + 1 ≤ olen
        → let fits = not (ltb olen (macsize + 1 + padsize)) in
          unpad_body c macsize out off olen padsize outlen
          ≡ some (
              answer c macsize out off outlen fits
                (olen - macsize - (if fits then padsize + 1 else 0)))
    unfolding unpad_body
    unpad_body_lem padsize byte room =
        let (p, e, mask) =
          checked_mask out off olen padsize (macsize + 1 + padsize) whole (omega arith)
            (omega arith) (omega arith) in
        let long : ltb olen (macsize + 1) ≡ false = ground arith in
        elim (Bool-cases (ltb olen (macsize + 1 + padsize))) [
          | inl short ↦
              rw (long, e, mask, short)
                (find_mac_lem false padsize 0 0 (omega arith) (omega arith)
                  (zero-and ((padsize + 1) % 2 ^ 64)) refl refl)
          | inr fit ↦
              rw (long, e, mask, fit)
                (find_mac_lem true padsize ulong_max (padsize + 1) (fits_le padsize fit)
                  (omega arith) (omega (arith, ones-and 64 ((padsize + 1) % 2 ^ 64) (omega arith)))
                  refl refl)
        ]

  unpad_body_short :
      (off olen padsize : ℕ)
      → ltb olen (macsize + 1) ≡ true
      → unpad_body c macsize out off olen padsize outlen ≡ some (Rv.buffer_too_small, outlen, none)
  unfolding unpad_body
  unpad_body_short off olen padsize short = rw short refl

  -- For a record of bytes that is as long as a block, within its buffer, with enough random bytes for the
  -- MAC: `tlsunpad` reads nothing outside the buffer and answers as the reference does. The padding is
  -- taken off if it fits into the record, whatever its bytes are, and the MAC in front of it is copied.
  -- If it does not fit, the MAC is random, or if there is none, the answer is `CKR_GENERAL_ERROR`.
  pub tlsunpad_lem :
      (tlsver inlen padsize : ℕ)
      → aes_block ≤ inlen
      → inlen ≤ length out
      → inlen < 2 ^ 62
      → get_elem? out (inlen - 1) ≡ some padsize
      → tlsunpad c tlsver macsize out inlen outlen
        ≡ some (reference c tlsver macsize out inlen outlen padsize)
  unfolding tlsunpad reference
  tlsunpad_lem tlsver inlen padsize long whole small last =
      let off = iv_size tlsver in
      let olen = inlen - off in
      let le_off : off ≤ 16 = ground arith in
      let byte = AreBytes-get_elem? out (inlen - 1) padsize are last in
      let index : minus inlen 1 ≡ inlen - 1 = omega arith in
      let body : minus inlen off ≡ olen = omega arith in
      elim (Bool-cases (ltb olen (macsize + 1))) [
        | inl short ↦
            rw (index, last, body, short, tlsunpad) (unpad_body_short off olen padsize short)
        | inr enough' ↦
            rw (index, last, body, enough', tlsunpad)
              (unpad_body_lem off olen (omega arith) (omega arith) padsize byte (ground arith))
      ]
