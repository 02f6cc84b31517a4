-- ===== src/Digests/Tests.antt =====
-- Examples on src/digests.c.
use pkcs11_provider.Base.{ℕ, ◌+◌, ◌-◌, ◌≡◌, refl, true, none, some, [], ◌∷◌, codes}
use pkcs11_provider.Codes.Rv
use pkcs11_provider.Digests.{get_name}
use pkcs11_provider.Digests.Context.{Token, Context, newctx, init, dupctx, freectx}
use pkcs11_provider.Digests.Context.Counted.{Counts}
use pkcs11_provider.Digests.Ledger.{
  Reach, start, later, creates, inits, dups, all_sessions, Reach-held, freectx-init,
}

named : get_name 0x48 ≡ (Rv.ok, some (codes "SHA2-512/224"))
unfolding get_name
named = refl

-- A token that counts the sessions that are taken and can save and restore a state.
abbrev counter : Token ℕ
counter = record {
  status = λ w. (Rv.ok, w);
  get_session = λ i m w. (Rv.ok, w, w + 1);
  return_session = λ o w. elim o [ none ↦ w | some s ↦ w - 1 ];
  digest_init = λ s m w. (Rv.ok, w);
  digest_update = λ s i w. (Rv.ok, w);
  digest_final = λ s n w. (Rv.ok, [], w);
  operation_state_length = λ s w. (Rv.ok, 8, w);
  operation_state = λ s w. (Rv.ok, [], w);
  malloc = λ n w. (true, w);
  set_operation_state = λ s i w. (Rv.ok, w);
}

counter-Counts : Counts counter (λ w. w)
counter-Counts = record {
  status_held = λ w. refl;
  taken = λ i m w e. refl;
  not_taken = λ i m w e. absurd (e refl);
  returned = λ s w. refl;
  none_returned = λ w. refl;
  init_held = λ s m w. refl;
  update_held = λ s i w. refl;
  final_held = λ s n w. refl;
  length_held = λ s w. refl;
  state_held = λ s w. refl;
  malloc_held = λ n w. refl;
  set_held = λ s i w. refl;
}

abbrev begun : Context
begun = (init counter none (newctx 0x250) 0).1

-- A context is made, initialised and copied.
copied :
    Reach counter 0
      ((dupctx counter begun (init counter none (newctx 0x250) 0).2).0
        ∷ (dupctx counter begun (init counter none (newctx 0x250) 0).2).1
        ∷ [])
      (dupctx counter begun (init counter none (newctx 0x250) 0).2).2
copied =
    later (later (later start (creates 0x250)) (inits [] (newctx 0x250) [] none refl refl))
      (dups [] begun [] refl)

Reach-held_example :
    (dupctx counter begun (init counter none (newctx 0x250) 0).2).2
    ≡ 0
      + all_sessions (
          (dupctx counter begun (init counter none (newctx 0x250) 0).2).0
          ∷ (dupctx counter begun (init counter none (newctx 0x250) 0).2).1
          ∷ [])
Reach-held_example = Reach-held counter (λ w. w) counter-Counts 0 copied

abbrev busy : Context
busy = record { mechtype = 0x250; session = some 0 }

starts : (init counter none busy 1).0 ≡ true
unfolding init
starts = refl

freectx-init_example : freectx counter (init counter none busy 1).1 (init counter none busy 1).2 ≡ 1
freectx-init_example = freectx-init counter (λ w. w) counter-Counts none busy 1 0 0 refl refl starts
