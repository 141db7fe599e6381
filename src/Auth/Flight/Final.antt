-- ===== src/Auth/Flight/Final.antt =====
-- A scope of internal/oci/authstate.go that was denied stays so, whatever the other requests do.
use bigoci.Prelude.{
  Bytes, ℕ, ◌≡◌, refl, ◌⊎◌, inl, inr, true, not, ◌||◌, Option, some, [], arith, lookup, bytes_eq,
  remove, branches,
}
use bigoci.Errors.{GoError}
use bigoci.Challenge.{Challenge, parse_challenge}
use bigoci.Auth.{
  denied, Entry, AuthState, begin, answered, authorize, authorize_held, authorize_entry, refused,
  refused_held, refused_entry, refused_same, deny, deny_held, deny_state, finish, Outcome, learn,
  is_refusal, refuse,
}
use bigoci.Auth.System.{
  System, launch, runs, Step, asking, refusal, reply, second_refusal, version, landing, Steps, here,
  next, idle, landed,
}
use bigoci.Auth.Flight.{IsFlying, blames, idle-IsFlying}
use bigoci.Auth.Flight.Kept.{steps-IsFlying, told-IsFlying}
use bigoci.Auth.Flight.Denied.{
  IsCondemned, told-IsCondemned, authorize_held-IsCondemned, refused_held-IsCondemned,
  deny_held-IsCondemned, learned-IsCondemned, finish-IsCondemned, answered-IsCondemned,
}

step-IsCondemned :
    (key : Bytes) (id : ℕ) (e : Option GoError) {s t : System}
    → Step s t
    → IsFlying s
    → IsCondemned s key id e
    → IsCondemned t key id e
unfolding authorize refused deny learn
step-IsCondemned key id e {s} (asking now k) v c =
    branches (λ r. IsCondemned (launch k s.flights r) key id e) s.auth.challenged _ _
      (authorize_held-IsCondemned key id e s v c now k (lookup k s.auth.entries) refl) c
step-IsCondemned key id e {s} (refusal k sent asked status) v c =
    refused_held-IsCondemned key id e _ (told-IsFlying s asked true true v)
      (told-IsCondemned key id e s v c asked true true) k sent status (lookup k s.auth.entries) refl
step-IsCondemned key id e {s} (reply header) v c = answered-IsCondemned key id e s v c header
step-IsCondemned key id e {s} (second_refusal k sent status n) v c =
    deny_held-IsCondemned key id e s v c sent status (lookup k s.auth.entries)
step-IsCondemned key id e {s} (version status raw) v c =
    branches (λ (r : Option GoError × AuthState). IsCondemned (record s { auth = r.1 }) key id e)
      (s.auth.challenged || not (is_refusal status) || bytes_eq raw []) _ _
      (told-IsCondemned key id e s v c _ _ true)
      (learned-IsCondemned key id e s v c (parse_challenge raw))
step-IsCondemned key id e {s} (landing n k now end r) v c =
    finish-IsCondemned key id e s v c n k now end (landed k n s.flights) r

steps-IsCondemned :
    (key : Bytes) (id : ℕ) (e : Option GoError) {s t : System}
    → Steps s t
    → IsFlying s
    → IsCondemned s key id e
    → IsCondemned t key id e
steps-IsCondemned key id e here v c = c
steps-IsCondemned key id e (next r m) v c =
    step-IsCondemned key id e m (steps-IsFlying r v) (steps-IsCondemned key id e r v c)

-- no token is held before the first challenge
abbrev IsAsked : AuthState → Type 0
IsAsked s = (s.challenged ≡ true) ⊎ (s.entries ≡ [])

authorize-IsAsked :
    (now : ℕ) (key : Bytes) (s : AuthState) → IsAsked s → IsAsked (authorize now key s).1
unfolding authorize authorize_held authorize_entry begin
authorize-IsAsked now key s h = ground arith

refused_held-challenged :
    (key sent : Bytes) (status : GoError) (found : Option ℕ) (s : AuthState)
    → (refused_held key sent status found s).1.challenged ≡ s.challenged
unfolding refused_held refused_entry refused_same begin
refused_held-challenged key sent status found s = ground arith

deny_held-IsAsked :
    (sent : Bytes) (status : GoError) (found : Option ℕ) (s : AuthState)
    → IsAsked s
    → IsAsked (deny_held sent status found s).1
unfolding deny_held deny_state
deny_held-IsAsked sent status found s h = ground arith

learn-IsAsked :
    (status : ℕ) (raw : Bytes) (s : AuthState) → IsAsked s → IsAsked (learn status raw s).1
unfolding learn
learn-IsAsked status raw s h = ground arith

finish-IsAsked :
    (id : ℕ) (key : Bytes) (now : ℕ) (end : Outcome) (s : AuthState)
    → IsAsked s
    → IsAsked (finish id key now end s)
unfolding finish remove
finish-IsAsked id key now end s h = ground arith

step-IsAsked : {s t : System} → Step s t → IsAsked s.auth → IsAsked t.auth
unfolding refused answered deny
step-IsAsked {s} (asking now key) h = authorize-IsAsked now key s.auth h
step-IsAsked {s} (refusal key sent asked status) h =
    inl (refused_held-challenged key sent status (lookup key s.auth.entries) _)
step-IsAsked {s} (reply header) h = ground arith
step-IsAsked {s} (second_refusal key sent status n) h =
    deny_held-IsAsked sent status (lookup key s.auth.entries) s.auth h
step-IsAsked {s} (version status raw) h = learn-IsAsked status raw s.auth h
step-IsAsked {s} (landing id key now end r) h = finish-IsAsked id key now end s.auth h

steps-IsAsked : {s t : System} → Steps s t → IsAsked s.auth → IsAsked t.auth
steps-IsAsked here h = h
steps-IsAsked (next r m) h = step-IsAsked m (steps-IsAsked r h)

join : {s t u : System} → Steps s t → Steps t u → Steps s u
join r here = r
join r (next q m) = next (join r q) m

denied_answers :
    (t : System) (key sent : Bytes) (id now : ℕ) (asked : Challenge) (status : GoError)
    (e : Option GoError)
    → IsCondemned t key id e
    → IsAsked t.auth
    → ((authorize now key t.auth).0 ≡ refuse e)
      × ((refused key sent asked status t.auth).0 ≡ refuse e)
unfolding authorize refused authorize_held refused_held authorize_entry refused_entry lookup
denied_answers t key sent id now asked status e c h = ground (arith, c.mapped, c.final, c.reason)

-- Once a scope is denied, in any state that a new repository reaches, then after any further steps
-- of any workers a request for the scope and a refusal of one both fail with the error of the
-- denial, which is ErrUnauthorized, and no exchange runs for the scope.
pub steps-denied :
    (heap : ℕ → Entry) (s t : System) (key sent : Bytes) (id now : ℕ) (asked : Challenge)
    (status : GoError)
    → Steps (idle heap) s
    → Steps s t
    → lookup key s.auth.entries ≡ some id
    → (s.auth.heap id).state ≡ denied
    → ((authorize now key t.auth).0 ≡ refuse (s.auth.heap id).err)
      × ((refused key sent asked status t.auth).0 ≡ refuse (s.auth.heap id).err)
      × (blames (s.auth.heap id).err ≡ true)
      × (runs key t.flights ≡ 0)
steps-denied heap s t key sent id now asked status r q h d =
    let v : IsFlying s = steps-IsFlying r (idle-IsFlying heap) in
    let w : IsFlying t = steps-IsFlying q v in
    let c : IsCondemned t key id (s.auth.heap id).err =
      steps-IsCondemned key id (s.auth.heap id).err q v
        (record { mapped = h; final = rw d refl; reason = refl }) in
    let a : IsAsked t.auth = steps-IsAsked (join r q) (inr refl) in
    let (x, y) = denied_answers t key sent id now asked status (s.auth.heap id).err c a in
    (x, y, v.blamed key id h (rw d refl), ground (arith, w.single key, c.mapped, c.final))
