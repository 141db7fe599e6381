-- ===== src/Auth/Flight/Fair.antt =====
-- What internal/oci/authstate.go tells the next request, whatever the others have done.
use bigoci.Prelude.{
  Bool-cases, Bytes, ℕ, ◌≤◌, ◌≡◌, refl, ◌≢◌, inl, inr, true, false, Option, none, some, List, [],
  ◌∷◌, arith, lookup, bytes_eq, Bool-cases, branches,
}
use bigoci.Errors.{GoError}
use bigoci.Challenge.{Challenge}
use bigoci.Auth.{
  EntryState, acquiring, unproven, proven, denied, Entry, AuthState, Decision, anonymous, await,
  refuse, present, exchange, begin, usable, authorize, authorize_held, authorize_entry, refused,
  refused_held, refused_entry, refused_same, challenged_by,
}
use bigoci.Auth.System.{System, is_running, runs, Steps, idle}
use bigoci.Auth.Flight.{IsFlying, waits, is_acquiring, blames, idle-IsFlying}
use bigoci.Auth.Flight.Kept.{steps-IsFlying, verdict_blames}

-- A request waits only for an exchange that runs, starts one only where none runs, and fails only
-- with an error that is ErrUnauthorized.
abbrev pub IsFair : Bytes → List (Bytes × ℕ) → Decision → Type 0
IsFair key f anonymous = Unit {0}
IsFair key f (await id) = is_running key id f ≡ true
IsFair key f (refuse e) = blames e ≡ true
IsFair key f (present h) = Unit {0}
IsFair key f (exchange id asked) = runs key f ≡ 0

runs_running :
    (k : Bytes) (f : List (Bytes × ℕ)) → runs k f ≢ 0 → (i : ℕ) × (is_running k i f ≡ true)
unfolding runs is_running
runs_running k [] h = absurd (h refl)
runs_running k ((j, i) ∷ f) h = elim (Bool-cases (bytes_eq j k)) [
  | inl q ↦ (i, ground arith)
  | inr q ↦ let (n, r) = runs_running k f (ground (arith, h)) in (n, ground arith)
]

module _ (s : System) (v : IsFlying s) (key : Bytes) where
  waiting :
      (id : ℕ)
      → lookup key s.auth.entries ≡ some id
      → is_acquiring (s.auth.heap id).state ≡ true
      → is_running key id s.flights ≡ true
  waiting id h a =
      let one : runs key s.flights ≢ 0 = ground (arith, v.single key) in
      let (n, r) = runs_running key s.flights one in ground (arith, v.found key n r)

  free : waits s.auth.heap (lookup key s.auth.entries) ≡ false → runs key s.flights ≡ 0
  free h = ground (arith, v.single key)

  authorize_entry-IsFair :
      (now id : ℕ) (st : EntryState)
      → lookup key s.auth.entries ≡ some id
      → (s.auth.heap id).state ≡ st
      → IsFair key s.flights (authorize_entry now key id (s.auth.heap id) st s.auth).0
  unfolding authorize_entry begin
  authorize_entry-IsFair now id acquiring h e = waiting id h (rw e refl)
  authorize_entry-IsFair now id denied h e = v.blamed key id h (rw e refl)
  authorize_entry-IsFair now id unproven h e = elim (Bool-cases (usable now (s.auth.heap id))) [
    | inl q ↦ rw q tt
    | inr q ↦ rw q (free (rw (h, e) refl))
  ]
  authorize_entry-IsFair now id proven h e = elim (Bool-cases (usable now (s.auth.heap id))) [
    | inl q ↦ rw q tt
    | inr q ↦ rw q (free (rw (h, e) refl))
  ]

  authorize_held-IsFair :
      (now : ℕ) (found : Option ℕ)
      → lookup key s.auth.entries ≡ found
      → IsFair key s.flights (authorize_held now key found s.auth).0
  unfolding authorize_held begin
  authorize_held-IsFair now none h = free (rw h refl)
  authorize_held-IsFair now (some id) h =
      authorize_entry-IsFair now id (s.auth.heap id).state h refl

  authorize-IsFair : (now : ℕ) → IsFair key s.flights (authorize now key s.auth).0
  unfolding authorize
  authorize-IsFair now =
      branches (λ (r : Decision × AuthState). IsFair key s.flights r.0) s.auth.challenged _ _
        (authorize_held-IsFair now (lookup key s.auth.entries) refl) tt

  refused_entry-IsFair :
      (sent : Bytes) (status : GoError) (asked : Challenge) (id : ℕ) (st : EntryState)
      → lookup key s.auth.entries ≡ some id
      → (s.auth.heap id).state ≡ st
      → IsFair key s.flights
          (refused_entry key sent id status (s.auth.heap id) st (challenged_by asked s.auth)).0
  unfolding refused_entry refused_same begin
  refused_entry-IsFair sent status asked id acquiring h e = waiting id h (rw e refl)
  refused_entry-IsFair sent status asked id denied h e = v.blamed key id h (rw e refl)
  refused_entry-IsFair sent status asked id unproven h e =
      branches (λ (r : Decision × AuthState). IsFair key s.flights r.0)
        (bytes_eq (s.auth.heap id).header sent) _ _ (verdict_blames status) tt
  refused_entry-IsFair sent status asked id proven h e =
      branches (λ (r : Decision × AuthState). IsFair key s.flights r.0)
        (bytes_eq (s.auth.heap id).header sent) _ _ (free (rw (h, e) refl)) tt

  refused_held-IsFair :
      (sent : Bytes) (status : GoError) (asked : Challenge) (found : Option ℕ)
      → lookup key s.auth.entries ≡ found
      → IsFair key s.flights (refused_held key sent status found (challenged_by asked s.auth)).0
  unfolding refused_held begin
  refused_held-IsFair sent status asked none h = free (rw h refl)
  refused_held-IsFair sent status asked (some id) h =
      refused_entry-IsFair sent status asked id (s.auth.heap id).state h refl

  refused-IsFair :
      (sent : Bytes) (asked : Challenge) (status : GoError)
      → IsFair key s.flights (refused key sent asked status s.auth).0
  unfolding refused
  refused-IsFair sent asked status =
      refused_held-IsFair sent status asked (lookup key s.auth.entries) refl

-- After any steps of any workers on a new repository, at most one exchange runs for a scope. The
-- next request for the scope, and the next refusal of one, waits only for an exchange that runs,
-- starts an exchange only where none runs, and fails only with an error that is ErrUnauthorized.
pub steps-IsFair :
    (heap : ℕ → Entry) (t : System) (key sent : Bytes) (asked : Challenge) (status : GoError)
    (now : ℕ)
    → Steps (idle heap) t
    → (runs key t.flights ≤ 1)
      × IsFair key t.flights (authorize now key t.auth).0
      × IsFair key t.flights (refused key sent asked status t.auth).0
steps-IsFair heap t key sent asked status now r =
    let v : IsFlying t = steps-IsFlying r (idle-IsFlying heap) in
    (
      ground (arith, v.single key),
      authorize-IsFair t v key now,
      refused-IsFair t v key sent asked status,
    )
