-- ===== src/Session/Fetch/Scan.antt =====
-- What holds of the scans of `fetch_session`, whatever the look at one session does.
use pkcs11_provider.Base.{
  ℕ, suc, ◌+◌, ◌≡◌, refl, ap, ◌∙◌, ◌⊎◌, inl, inr, Bool, false, Option, none, some, List, [], ◌∷◌,
  arith, ◌==◌, Bool-cases, get_elem?, All,
}
use pkcs11_provider.Codes.Rv
use pkcs11_provider.Session.Fetch.{
  Look, Pass, taken, scan, found, refused, stopped, nothing, skip, passes, fetch_session, looks,
  session_new,
}
use pkcs11_provider.Session.{Session, Host, Pool}

abbrev pub Looking : Type 0 → Type 0
Looking W = ℕ → Session → W → Look × Session × W

-- The session at an index after a scan, if the scan took it.
abbrev pub TakenAt : (ℕ → Session → Type 0) → Pass → List Session → Type 0
TakenAt T nothing ss = Unit {0}
TakenAt T (found k) ss = (s : Session) × (get_elem? ss k ≡ some s) × T k s
TakenAt T (stopped rv) ss = Unit {0}

-- The same for a scan that starts at an index.
abbrev TakenFrom : (ℕ → Session → Type 0) → ℕ → Pass → List Session → Type 0
TakenFrom T i nothing ss = Unit {0}
TakenFrom T i (found k) ss =
    (j : ℕ) × (s : Session) × (k ≡ i + j) × (get_elem? ss j ≡ some s) × T k s
TakenFrom T i (stopped rv) ss = Unit {0}

pub Look-cases : (l : Look) → (l ≡ skip) ⊎ ((l ≡ taken) ⊎ ((rv : ℕ) × (l ≡ refused rv)))
Look-cases skip = inl refl
Look-cases taken = inr (inl refl)
Look-cases (refused rv) = inr (inr (rv, refl))

pub Pass-cases :
    (p : Pass) → (p ≡ nothing) ⊎ (((k : ℕ) × (p ≡ found k)) ⊎ ((rv : ℕ) × (p ≡ stopped rv)))
Pass-cases nothing = inl refl
Pass-cases (found k) = inr (inl (k, refl))
Pass-cases (stopped rv) = inr (inr (rv, refl))

module _ {W : Type 0} (h : Host W) (T : ℕ → Session → Type 0) where
  -- A look that takes a session only in a state of which `T` holds.
  abbrev pub Takes : Looking W → Type 0
  Takes look = (i : ℕ) (s : Session) (w : W) → (look i s w).0 ≡ taken → T i (look i s w).1

  further :
      (i : ℕ) (s : Session) (ss : List Session) (p : Pass)
      → TakenFrom T (suc i) p ss
      → TakenFrom T i p (s ∷ ss)
  further i s ss nothing t = t
  further i s ss (found k) (j, s', e, g, t) = (suc j, s', omega arith, g, t)
  further i s ss (stopped rv) t = t

  from_start : (p : Pass) (ss : List Session) → TakenFrom T 0 p ss → TakenAt T p ss
  from_start nothing ss t = tt
  from_start (found k) ss (j, s, at, g, t) =
      let same : k ≡ j = omega (arith, at) in (s, ap (get_elem? ss) same ∙ g, t)
  from_start (stopped rv) ss t = tt

  scan-TakenFrom :
      (look : Looking W)
      → Takes look
      → (i : ℕ) (ss : List Session) (w : W)
      → TakenFrom T i (scan h look i ss w).0 (scan h look i ss w).1
  unfolding scan
  scan-TakenFrom look takes i [] w = tt
  scan-TakenFrom look takes i (s ∷ ss) w =
      let rest = scan-TakenFrom look takes (suc i) ss (look i s w).2 in
      elim (Look-cases (look i s w).0) [
        | inl e ↦ rw (e, scan) (further i (look i s w).1 _ _ rest)
        | inr (inl e) ↦ rw (e, scan) (0, (look i s w).1, omega arith, refl, takes i s w e)
        | inr (inr (rv, e)) ↦ rw (e, scan) tt
      ]

  -- A pass that finds a session found it in a state of which `T` holds.
  pub passes-TakenAt :
      (looks : List (Looking W))
      → All Takes looks
      → (ss : List Session) (w : W) → TakenAt T (passes h looks ss w).0 (passes h looks ss w).1
  unfolding passes
  passes-TakenAt [] all ss w = tt
  passes-TakenAt (look ∷ looks) all ss w =
      let first = scan-TakenFrom look all.0 0 ss w in
      let rest = passes-TakenAt looks all.1 (scan h look 0 ss w).1 (scan h look 0 ss w).2 in
      elim (Pass-cases (scan h look 0 ss w).0) [
        | inl e ↦ rw (e, passes) rest
        | inr (inl (k, e)) ↦
            rw (e, passes) (from_start (found k) (scan h look 0 ss w).1 (rw e at first))
        | inr (inr (rv, e)) ↦ rw (e, passes) tt
      ]

-- To prove something of the outcome of `fetch_session`, prove it of each way to get there.
pub fetch_session_cases {ℓ} :
    {W : Type 0} (h : Host W) (Q : ℕ × Option ℕ × Pool × W → Type ℓ) (p : Pool) (flags : ℕ)
    (login : Bool) (w : W)
    → let w0 = (h.lock_pool w).1 in
      let (pass, ss, w1) = passes h (looks h flags login) p.sessions w0 in
      let p' = record p { sessions = ss } in
      (((h.lock_pool w).0 == 0) ≡ false → Q (Rv.cant_lock, none, p, w0))
      → (pass ≡ nothing → Q (session_new h p' w1))
      → ((k : ℕ) → pass ≡ found k → Q (Rv.ok, some k, p', w1))
      → ((rv : ℕ) → pass ≡ stopped rv → Q (rv, none, p', w1))
      → Q (fetch_session h p flags login w)
unfolding fetch_session
fetch_session_cases h Q p flags login w unlocked fresh old stop =
    elim (Bool-cases ((h.lock_pool w).0 == 0)) [
      | inr no_lock ↦ rw no_lock (unlocked no_lock)
      | inl locked ↦
          rw locked
            (elim (Pass-cases (passes h (looks h flags login) p.sessions (h.lock_pool w).1).0) [
              | inl e ↦ rw (e, fetch_session) (fresh e)
              | inr (inl (k, e)) ↦ rw (e, fetch_session) (old k e)
              | inr (inr (rv, e)) ↦ rw (e, fetch_session) (stop rv e)
            ])
    ]
