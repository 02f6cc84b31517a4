-- ===== src/Session/Fetch/Reuse.antt =====
-- Which session `fetch_session` chooses when no other thread interferes.
use pkcs11_provider.Base.{
  ℕ, suc, ◌≡◌, refl, sym, ap, ap₂, subst, ◌∙◌, inl, inr, Bool, true, false, not, ◌&&◌, Option, none,
  some, List, [], ◌∷◌, arith, ◌==◌, Bool-cases, Option-cases, length,
}
use pkcs11_provider.Codes.{invalid_handle}
use pkcs11_provider.Session.Fetch.Bounds.{length-passes}
use pkcs11_provider.Session.Fetch.New.{Made, session_new-Made}
use pkcs11_provider.Codes.Rv
use pkcs11_provider.Session.Fetch.Scan.{Looking, fetch_session_cases}
use pkcs11_provider.Session.Fetch.{
  is_free, Pass, scan, taken, nothing, found, skip, passes, look_free, look_broken, looks,
  look_referenced, fetch_session, look_cached, look_any, session_new,
}
use pkcs11_provider.Session.{Session, Host, Pool}

-- The specification: the index of the first session that passes a test, from an index on.
abbrev pub index_from : (Session → Bool) → ℕ → List Session → Option ℕ
index_from t i [] = none
index_from t i (s ∷ ss) = elim (t s) [ true ↦ some i | false ↦ index_from t (suc i) ss ]

-- The tests in turn: a later one counts only if no session passes an earlier one.
abbrev pub choose : List (Session → Bool) → List Session → Option ℕ
choose [] ss = none
choose (t ∷ ts) ss = elim (index_from t 0 ss) [ none ↦ choose ts ss | some k ↦ some k ]

-- Free with the right flags, a handle and a reference; free with the right flags and a handle; free;
-- idle and broken with no reference.
abbrev pub preferences : ℕ → List (Session → Bool)
preferences flags =
    (λ s.
      is_free s && (s.flags == flags && (not (s.handle == invalid_handle) && not (s.refcnt == 0))))
    ∷ (λ s. is_free s && (s.flags == flags && not (s.handle == invalid_handle)))
    ∷ is_free
    ∷ (λ s. not s.in_use && (s.is_broken && s.refcnt == 0))
    ∷ []

-- No lock fails, and nobody else changes a session.
pub record IsQuiet {W : Type 0} (h : Host W) : Type 0 where
  pub pool_locks : (w : W) → (h.lock_pool w).0 ≡ 0
  pub session_locks : (w : W) (i : ℕ) (s : Session) → (h.lock_session w i s).0 ≡ 0
  pub session_stays : (w : W) (i : ℕ) (s : Session) → (h.lock_session w i s).1 ≡ s

module _ {W : Type 0} (h : Host W) (quiet : IsQuiet h) where
  -- A look that decides by a test, and changes nothing that it does not take.
  abbrev Decides : Looking W → (Session → Bool) → Type 0
  Decides look t =
      (i : ℕ) (s : Session) (w : W)
      → ((t s ≡ true) → (look i s w).0 ≡ taken)
        × ((t s ≡ false) → ((look i s w).0 ≡ skip) × ((look i s w).1 ≡ s))

  abbrev pass_of : Option ℕ → Pass
  pass_of none = nothing
  pass_of (some k) = found k

  -- A pass comes to what was chosen, and leaves the sessions alone if nothing was.
  record Agrees (o : Option ℕ) (ss : List Session) (r : Pass × List Session × W) : Type 0 where
    same : r.0 ≡ pass_of o
    kept : o ≡ none → r.1 ≡ ss

  scan-Agrees :
      (look : Looking W) (t : Session → Bool)
      → Decides look t
      → (i : ℕ) (ss : List Session) (w : W) → Agrees (index_from t i ss) ss (scan h look i ss w)
  unfolding scan
  scan-Agrees look t d i [] w = record { same = refl; kept = λ e. refl }
  scan-Agrees look t d i (s ∷ ss) w = elim (Bool-cases (t s)) [
    | inl hit ↦ rw (hit, index_from, (d i s w).0 hit, scan) (record { same = refl; kept = λ e. cc })
    | inr miss ↦
        let (e, stays) = (d i s w).1 miss in
        let rest = scan-Agrees look t d (suc i) ss (look i s w).2 in
        rw (miss, index_from, e, scan)
          (record { same = rest.same; kept = λ o. ap₂ ◌∷◌ stays (rest.kept o) })
  ]

  abbrev AllDecide : List (Looking W) → List (Session → Bool) → Type 0
  AllDecide [] [] = Unit {0}
  AllDecide [] (t ∷ ts) = ⊥
  AllDecide (look ∷ looks) [] = ⊥
  AllDecide (look ∷ looks) (t ∷ ts) = Decides look t × AllDecide looks ts

  passes-Agrees :
      (looks : List (Looking W)) (ts : List (Session → Bool))
      → AllDecide looks ts
      → (ss : List Session) (w : W) → Agrees (choose ts ss) ss (passes h looks ss w)
  unfolding passes
  passes-Agrees [] [] d ss w = record { same = refl; kept = λ e. refl }
  passes-Agrees [] (t ∷ ts) d ss w = absurd d
  passes-Agrees (look ∷ looks) [] d ss w = absurd d
  passes-Agrees (look ∷ looks) (t ∷ ts) d ss w =
      let first = scan-Agrees look t d.0 0 ss w in
      elim (Option-cases (index_from t 0 ss)) [
        | inr (k, e) ↦
            rw (e, choose, first.same ∙ ap pass_of e, passes)
              (record { same = refl; kept = λ o. cc })
        | inl e ↦
            let rest = passes-Agrees looks ts d.1 ss (scan h look 0 ss w).2 in
            rw (e, choose, first.same ∙ ap pass_of e, passes) (rw (first.kept e) rest)
      ]

  look_free-Decides :
      (test : Session → Bool) (t : Session → Bool)
      → ((s : Session) → t s ≡ (is_free s && test s))
      → Decides (look_free h test) t
  unfolding look_free
  look_free-Decides test t same i s w = (
    λ e. ground (arith, same s, quiet.session_locks w i s, quiet.session_stays w i s),
    λ e. (
      ground (arith, same s, quiet.session_locks w i s, quiet.session_stays w i s),
      ground (arith, same s, quiet.session_locks w i s, quiet.session_stays w i s),
    ),
  )

  look_broken-Decides :
      Decides (look_broken h) (λ s. not s.in_use && (s.is_broken && s.refcnt == 0))
  unfolding look_broken
  look_broken-Decides i s w = (
    λ e. ground (arith, quiet.session_locks w i s, quiet.session_stays w i s),
    λ e. (
      ground (arith, quiet.session_locks w i s, quiet.session_stays w i s),
      ground (arith, quiet.session_locks w i s, quiet.session_stays w i s),
    ),
  )

  preferred : (flags : ℕ) → AllDecide (looks h flags false) (preferences flags)
  unfolding looks look_referenced look_cached look_any
  preferred flags = (
    look_free-Decides _ _ (λ s. ground arith),
    (
      look_free-Decides _ _ (λ s. ground arith),
      (look_free-Decides _ _ (λ s. ground arith), (look_broken-Decides, tt)),
    ),
  )

  -- The outcome against the choice: the chosen session, in an array of the same length, or what
  -- `session_new` comes to.
  abbrev pub Chosen : Pool → Option ℕ → ℕ × Option ℕ × Pool × W → Type 0
  Chosen p (some k) r = (r.0 ≡ Rv.ok) × (r.1 ≡ some k) × (length r.2.sessions ≡ length p.sessions)
  Chosen p none r = Made h p r

  module _ (p : Pool) (flags : ℕ) (w : W) where
    agrees :
        Agrees
          (choose (preferences flags) p.sessions)
          p.sessions
          (passes h (looks h flags false) p.sessions (h.lock_pool w).1)
    agrees =
        passes-Agrees (looks h flags false) (preferences flags) (preferred flags) p.sessions
          (h.lock_pool w).1

    outcome :
        (o : Option ℕ)
        → choose (preferences flags) p.sessions ≡ o
        → Chosen p o (fetch_session h p flags false w)
    outcome none e =
        let out = passes h (looks h flags false) p.sessions (h.lock_pool w).1 in
        fetch_session_cases h (Made h p) p flags false w
          (λ bad. absurd (ground (arith, quiet.pool_locks w)))
          (λ pass.
            subst (λ ss. Made h p (session_new h (record p { sessions = ss }) (out.2)))
              (sym (agrees.kept e)) (session_new-Made h p _))
          (λ k pass. cc (agrees.same, ap pass_of e, pass))
          (λ rv pass. cc (agrees.same, ap pass_of e, pass))
    outcome (some k) e =
        fetch_session_cases h (Chosen p (some k)) p flags false w
          (λ bad. absurd (ground (arith, quiet.pool_locks w)))
          (λ pass. cc (agrees.same, ap pass_of e, pass))
          (λ j pass. (
            refl,
            ground (arith, agrees.same, ap pass_of e, pass),
            length-passes h (looks h flags false) p.sessions (h.lock_pool w).1,
          ))
          (λ rv pass. cc (agrees.same, ap pass_of e, pass))

  -- With no interference, `fetch_session` for other than a login session returns the first session of
  -- the most preferred kind: free with the wanted flags, a handle and a reference; the same without a
  -- reference; any free one; a broken one that can be recycled. Only if there is none of these does it
  -- ask for a new session, with the old ones as they were.
  pub fetch_session-Chosen :
      (p : Pool) (flags : ℕ) (w : W)
      → Chosen p (choose (preferences flags) p.sessions) (fetch_session h p flags false w)
  fetch_session-Chosen p flags w = outcome p flags w _ refl
