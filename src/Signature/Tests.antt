-- ===== src/Signature/Tests.antt =====
-- Examples on src/sig/signature.c and src/sig/ecdsa.c.
use pkcs11_provider.Base.{
  ℕ, ◌+◌, ◌≡◌, refl, subst, Bool, true, none, some, some-injective, List, [], ◌∷◌, arith, replicate,
  codes,
}
use pkcs11_provider.Codes.Rv
use pkcs11_provider.Digests.{get_by_name}
use pkcs11_provider.Signature.Context.{Context, fresh, op_init, operate_init, ckf_verify}
use pkcs11_provider.Signature.Run
use pkcs11_provider.Signature.Run.{finalized}
use pkcs11_provider.Signature.Der.{convert_raw_to_der, convert_der_to_raw}
use pkcs11_provider.Signature.Ecdsa.{
  ckm_ecdsa, Params, set_mechanism, sig_size, sign, verify, text, operate, digest_verify_init,
  set_ctx_params, find_mech, ecdsa_digest_map,
}
use pkcs11_provider.Signature.Ecdsa.Room.{convert_raw_to_der-sig_size}
use pkcs11_provider.Signature.Ecdsa.Verify.{verify-Good, Good, verify_unasked}
use pkcs11_provider.Signature.Ecdsa.EndToEnd.{Starts, verify-sign}
use pkcs11_provider.Signature.Context.{ckf_sign}
use pkcs11_provider.Signature.Run
use pkcs11_provider.Signature.Run.Counted.{Neutral}
use pkcs11_provider.Signature.Ecdsa.Owned.{operate-Kept}
use pkcs11_provider.Signature.Ledger.{
  Reach, start, later, creates, acts, inits, updates, all_sessions, held_of_Reach,
}
use pkcs11_provider.Digests.Names.{no_case}
use pkcs11_provider.Signature.Samples.{
  counter, counter-Counts, strict, tiny_keys, tiny, tiny-Documented, tiny-IsDer,
}

-- A raw signature with two fields of one byte, and its text.
abbrev raw : List ℕ
raw = 17 ∷ 18 ∷ []

abbrev der : List ℕ
der = 48 ∷ 6 ∷ 2 ∷ 1 ∷ 17 ∷ 2 ∷ 1 ∷ 18 ∷ []

abbrev stack : List ℕ
stack = replicate 167 99

raw_to_der : convert_raw_to_der tiny raw 13 ≡ some der
unfolding convert_raw_to_der
raw_to_der = refl

abbrev verifying : Context
verifying = record (fresh ckm_ecdsa) { key = some 2; operation = ckf_verify }

size_named : sig_size tiny_keys verifying 0 ≡ (Rv.ok, some 13)
unfolding sig_size
size_named = refl

convert_raw_to_der-sig_size_example : convert_raw_to_der tiny raw 13 ≡ some der
convert_raw_to_der-sig_size_example =
    convert_raw_to_der-sig_size tiny_keys tiny (λ b. 1) tiny-IsDer verifying 0 raw der 13 size_named
      (omega arith) refl
      (record {
        r = 17;
        s = 18;
        sig = (17, 18);
        memory = refl;
        r_read = refl;
        s_read = refl;
        made = refl;
        written = refl;
      })

abbrev signing : Context
signing = record (fresh ckm_ecdsa) { key = some 3; operation = ckf_sign }

signing-Starts : Starts counter signing 0 0 1
unfolding set_mechanism
signing-Starts = record {
  mechanism_set = refl;
  opens = record { up = refl; valid = refl; slot = refl; taken = refl };
}

verifying-Starts : Starts counter verifying 5 5 6
unfolding set_mechanism
verifying-Starts = record {
  mechanism_set = refl;
  opens = record { up = refl; valid = refl; slot = refl; taken = refl };
}

verify-sign_example :
    (sign tiny_keys tiny counter stack (some 13) (1 ∷ []) signing 0
      ≡ ((true, text der), finalized (set_mechanism signing).1, 0))
    × (verify tiny_keys tiny counter stack der (2 ∷ []) verifying 5
        ≡ (true, finalized (set_mechanism verifying).1, 5))
verify-sign_example =
    verify-sign tiny_keys tiny tiny-Documented counter stack raw 13 (1 ∷ []) der signing 0 0 1 stack
      (2 ∷ []) verifying 5 5 6 signing-Starts refl verifying-Starts refl
      (omega arith, (omega arith, tt)) refl (omega arith) refl raw_to_der refl refl refl refl

set_ok : (set_mechanism verifying).0 ≡ Rv.ok
unfolding set_mechanism
set_ok = refl

verifies_der : (verify tiny_keys tiny counter stack der (1 ∷ []) verifying 0).0 ≡ true
unfolding verify operate set_mechanism convert_der_to_raw Run.operate operate_init
verifies_der = refl

verify-Good_example : Good tiny_keys tiny counter stack der (1 ∷ []) verifying 0
verify-Good_example =
    verify-Good tiny_keys tiny counter stack der (1 ∷ []) verifying 0 refl set_ok verifies_der

-- The digest is set to SHA2-512/224 as a parameter, behind a start with another one.
abbrev truncated : Params
truncated = record { digest_param = some (some (codes "SHA512-224")); signature_param = none }

abbrev unmapped : Context
unmapped = record verifying { digest = 0x48; digest_op = true }

begins_unmapped :
    digest_verify_init strict no_case
      (some (codes "SHA256"))
      (some 2)
      (some truncated)
      (fresh ckm_ecdsa)
      0
    ≡ (true, unmapped, 0)
unfolding digest_verify_init op_init set_ctx_params get_by_name
begins_unmapped = refl

der_to_raw : convert_der_to_raw tiny der stack 1 ≡ some (17 ∷ 18 ∷ replicate 165 99)
unfolding convert_der_to_raw
der_to_raw = refl

no_mechanism : ecdsa_digest_map 0x48 ≡ none
unfolding find_mech
no_mechanism = refl

verify_unasked_example :
    verify tiny_keys tiny strict stack der (1 ∷ []) unmapped 0
    ≡ (true, record unmapped { mechanism = ckm_ecdsa }, 0)
verify_unasked_example =
    verify_unasked tiny_keys tiny strict stack der (1 ∷ []) (17 ∷ 18 ∷ replicate 165 99) unmapped 0
      refl refl no_mechanism der_to_raw

-- A context that signs in pieces has taken a session.
abbrev begun : ℕ × Context × ℕ
begun = op_init counter no_case (some 3) ckf_sign none (fresh ckm_ecdsa) 0

abbrev running : Bool × Context × ℕ
running = Run.digest_update counter (1 ∷ []) begun.1 begun.2

reached : Reach counter no_case (some (operate counter)) 0 (running.1 ∷ []) running.2
reached =
    later
      (later (later start (creates ckm_ecdsa))
        (acts [] (fresh ckm_ecdsa) [] (begun.1 ∷ []) begun.2 refl (inits (some 3) ckf_sign none)))
      (acts [] begun.1 [] (running.1 ∷ []) running.2 refl (updates (1 ∷ [])))

held_of_Reach_example : running.2 ≡ 0 + all_sessions (running.1 ∷ [])
held_of_Reach_example =
    held_of_Reach counter (λ w. w) counter-Counts no_case (some (operate counter))
      (λ f e.
        subst (Neutral (λ w. w)) (some-injective (operate counter) f e)
          (operate-Kept counter (λ w. w) counter-Counts no_case))
      0 reached
