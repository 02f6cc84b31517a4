-- ===== src/Cipher/Tests.antt =====
-- Examples on src/util.h and src/cipher.c.
use pkcs11_provider.Base.{
  ℕ, zero, suc, ◌≤◌, ◌≡◌, refl, subst, true, false, none, some, List, [], ◌∷◌, arith, length,
  replicate, length-replicate, AreBytes,
}
use pkcs11_provider.Cipher.Run.Padded.{plain}
use pkcs11_provider.Cipher.Run.RoundTrip.{IsTls, update-update, record_chunk}
use pkcs11_provider.Cipher.Run.Safe.{Fills, IsSome, update-IsSome}
use pkcs11_provider.Cipher.Run.{Chunk, update, freectx, Done}
use pkcs11_provider.Codes.Rv
use pkcs11_provider.Cipher.Params.{
  newctx, aes_cbc, ckf_encrypt, Context, SessionState, ckf_decrypt, set_ctx_params,
}
use pkcs11_provider.Cipher.Unpad.{tlsunpad, tls1_0}
use pkcs11_provider.Cipher.Unpad.Answer.{reference, tlsunpad_lem}
use pkcs11_provider.Cipher.Unpad.Records.{record_of, tlsunpad-record_of}
use pkcs11_provider.Cipher.Samples.{
  lucky, counter, no_params, by_test, counter-Counts, zeros, tls_context,
}
use pkcs11_provider.Cipher.Init.{op_init, session_init}
use pkcs11_provider.Cipher.Ledger.{Reach, inits, start, later, updates, freectx_of_Reach}

-- Two bytes of data, a MAC of three and ten bytes of padding that are not 10.
abbrev odd_record : List ℕ
odd_record = record_of [] (65 ∷ 66 ∷ []) (1 ∷ 2 ∷ 3 ∷ []) (replicate 10 99) 10

tlsunpad_lem_example :
    tlsunpad lucky tls1_0 3 odd_record 16 0 ≡ some (reference lucky tls1_0 3 odd_record 16 0 10)
tlsunpad_lem_example =
    tlsunpad_lem lucky 3 odd_record (by_test odd_record refl) (by_test (replicate 64 7) refl)
      (omega arith) 0 tls1_0 16 10 (omega arith) (omega arith) (omega arith) refl

tlsunpad-record_of_example :
    tlsunpad lucky tls1_0 3 odd_record 16 0 ≡ some (Rv.ok, 2, some (1 ∷ 2 ∷ 3 ∷ []))
tlsunpad-record_of_example =
    tlsunpad-record_of lucky tls1_0 [] (65 ∷ 66 ∷ []) (1 ∷ 2 ∷ 3 ∷ []) (replicate 10 99) 0 refl refl
      (by_test (replicate 64 7) refl) (omega arith) refl (omega arith) (by_test odd_record refl)
      (omega arith) (omega arith)

-- A context that was begun, and one that then took a session for a block of data.
abbrev begun : Context
begun = (op_init counter (some 9) ckf_encrypt (some (1 ∷ [])) no_params (newctx 128 aes_cbc) 0).1

abbrev block : Chunk
block = record { input = some (replicate 16 65); inlen = 16; in_place = false; outsize = 16 }

abbrev running : Done ℕ
running = record {
  success = true;
  outl = some 16;
  out = some [];
  ctx = record begun { session = some 0; session_state = SessionState.sess_initialized };
  world = 1;
}

runs : update counter block begun 0 ≡ some running
unfolding update op_init set_ctx_params session_init
runs = refl

stays :
    (op_init counter (some 9) ckf_encrypt (some (1 ∷ [])) no_params (newctx 128 aes_cbc) 0).2 ≡ 0
unfolding op_init set_ctx_params
stays = refl

calls : Reach counter 128 aes_cbc 0 running.ctx running.world
calls =
    later
      (subst (Reach counter 128 aes_cbc 0 begun) stays
        (later start (inits (some 9) ckf_encrypt (some (1 ∷ [])) no_params)))
      (updates block running runs)

freectx_of_Reach_example : freectx counter running.ctx 1 ≡ 0
freectx_of_Reach_example = freectx_of_Reach counter (λ w. w) counter-Counts 128 aes_cbc 0 calls

zeros-Fills : Fills zeros
zeros-Fills = record {
  long = λ s i n w. le_replicate n;
  bytes = λ s i n w. are_zeros n;
  random = λ w. by_test (replicate 64 7) refl;
  enough = λ w. omega arith;
}
  where
    le_replicate : (n : ℕ) → n ≤ length (replicate {A = ℕ} n 0)
    le_replicate n = omega (arith, length-replicate {A = ℕ} n 0)

    are_zeros : (n : ℕ) → AreBytes (replicate n 0)
    are_zeros zero = tt
    are_zeros (suc n) = (omega arith, are_zeros n)

abbrev whole_record : Chunk
whole_record = record_chunk (replicate 32 65) 32 32

update-IsSome_example : IsSome (update zeros whole_record (tls_context ckf_decrypt) 1)
update-IsSome_example =
    update-IsSome zeros zeros-Fills whole_record (omega arith) (omega arith) (omega arith)
      (tls_context ckf_decrypt) 1 (omega arith)

abbrev body : List ℕ
body = 65 ∷ 66 ∷ []

abbrev mac : List ℕ
mac = 1 ∷ 2 ∷ 3 ∷ []

abbrev encrypting : IsTls (tls_context ckf_encrypt) ckf_encrypt 4 tls1_0
encrypting = record { session = refl; operation = refl; version = refl; pad = refl }

abbrev decrypting : IsTls (tls_context ckf_decrypt) ckf_decrypt 4 tls1_0
decrypting = record { session = refl; operation = refl; version = refl; pad = refl }

update-update_example :
    (de : Done ℕ) × (dd : Done ℕ) × (cipher : List ℕ) × (update counter
        (record_chunk (plain [] body mac) 5 16)
        (tls_context ckf_encrypt)
        1
      ≡ some de)
    × (de.success ≡ true)
    × (de.out ≡ some cipher)
    × (de.ctx.session ≡ none)
    × (de.world ≡ 0)
    × (update counter (record_chunk cipher 16 16) (tls_context ckf_decrypt) 1 ≡ some dd)
    × (dd.success ≡ true)
    × (dd.outl ≡ some 2)
    × (dd.ctx.tlsmac ≡ some mac)
    × (dd.ctx.session ≡ none)
    × (dd.world ≡ 0)
update-update_example =
    update-update counter tls1_0 (omega arith) (tls_context ckf_encrypt) (tls_context ckf_decrypt) 4
      4 [] body mac 1 1 encrypting decrypting refl refl (omega arith)
      (by_test (plain [] body mac) refl) (omega arith) refl refl refl refl refl
      (by_test (replicate 64 7) refl) (omega arith)
