-- ===== src/Auth/Flight/Kept.antt =====
-- Every step keeps the tokens and the exchanges in order.
use bigoci.Prelude.{
  Bool-cases, Option-cases, Bytes, ℕ, ◌≡◌, refl, ◌≢◌, inl, inr, Bool, true, false, not, ◌||◌,
  Option, none, some, List, [], ◌∷◌, arith, lookup, bytes_eq, bytes_eq_iff, remove, lookup-remove,
  bytes_eq_iff, Bool-cases, branches,
}
use bigoci.Errors.{auth_failure, auth_matches, GoError, is_error, err_unauthorized}
use bigoci.Challenge.{Challenge, AuthResult, ok, err, parse_challenge}
use bigoci.Auth.{
  usable, learned, is_refusal, EntryState, acquiring, unproven, proven, denied, Entry, AuthState,
  put, prove, prove_all, answered, authorize, authorize_held, authorize_entry, refused,
  refused_held, refused_entry, refused_same, deny, deny_held, deny_state, finish, learn, Outcome,
  minted, failed, mapped_to,
}
use bigoci.Auth.System.{
  System, launch, is_running, landed, Step, asking, refusal, reply, second_refusal, version,
  landing, Steps, here, next,
}
use bigoci.Auth.Flight.{IsFlying, waits, running_runs, is_acquiring, is_denied}
use bigoci.Auth.Flight.Moves.{begin-IsFlying, write-IsFlying, land-IsFlying}

-- the heap that `answered` leaves
pub prove_all_lem :
    (header : Bytes) (m : List (Bytes × ℕ)) (heap : ℕ → Entry) (i : ℕ)
    → ((prove_all header m heap i).header ≡ (heap i).header)
      × (is_acquiring (prove_all header m heap i).state ≡ is_acquiring (heap i).state)
      × (is_denied (prove_all header m heap i).state ≡ is_denied (heap i).state)
      × ((prove_all header m heap i).err ≡ (heap i).err)
unfolding prove_all
prove_all_lem header [] heap i = ground arith
prove_all_lem header ((k, id) ∷ m) heap i =
    ground (arith, prove_all_lem header m (put heap id (prove header (heap id))) i)

answered-IsFlying :
    (s : System) (header : Bytes)
    → IsFlying s
    → IsFlying (record s { auth = answered header s.auth })
unfolding answered
answered-IsFlying s header v = elim (Bool-cases (bytes_eq header [])) [
  | inl q ↦ rw q (record {
    below = v.below;
    apart = v.apart;
    blank = v.blank;
    single = v.single;
    found = v.found;
    blamed = v.blamed;
  })
  | inr q ↦ rw q (record {
    below = v.below;
    apart = v.apart;
    blank =
        λ k i h g. ground (arith, v.blank k i, prove_all_lem header s.auth.entries s.auth.heap i);
    single = λ k. elim (Option-cases (lookup k s.auth.entries)) [
      | inl n ↦ ground (arith, v.single k)
      | inr (i, h) ↦ ground (arith, v.single k, prove_all_lem header s.auth.entries s.auth.heap i)
    ];
    found = v.found;
    blamed =
        λ k i h g. ground (arith, v.blamed k i, prove_all_lem header s.auth.entries s.auth.heap i);
  })
]

pub verdict_blames : (status : GoError) → is_error err_unauthorized (auth_failure status) ≡ true
unfolding is_error auth_matches
verdict_blames status = refl

authorize_entry-IsFlying :
    (now : ℕ) (key : Bytes) (s : System) (id : ℕ) (e : Entry) (st : EntryState)
    → IsFlying s
    → waits s.auth.heap (lookup key s.auth.entries) ≡ is_acquiring st
    → IsFlying (launch key s.flights (authorize_entry now key id e st s.auth))
unfolding authorize_entry
authorize_entry-IsFlying now key s id e acquiring v w = v
authorize_entry-IsFlying now key s id e denied v w = v
authorize_entry-IsFlying now key s id e unproven v w = elim (Bool-cases (usable now e)) [
  | inl q ↦ rw q v
  | inr q ↦ rw q (begin-IsFlying s v key w)
]
authorize_entry-IsFlying now key s id e proven v w = elim (Bool-cases (usable now e)) [
  | inl q ↦ rw q v
  | inr q ↦ rw q (begin-IsFlying s v key w)
]

authorize_held-IsFlying :
    (now : ℕ) (key : Bytes) (s : System) (found : Option ℕ)
    → IsFlying s
    → lookup key s.auth.entries ≡ found
    → IsFlying (launch key s.flights (authorize_held now key found s.auth))
unfolding authorize_held
authorize_held-IsFlying now key s none v h = begin-IsFlying s v key (rw h refl)
authorize_held-IsFlying now key s (some id) v h =
    authorize_entry-IsFlying now key s id (s.auth.heap id) (s.auth.heap id).state v (rw h refl)

authorize-IsFlying :
    (now : ℕ) (key : Bytes) (s : System)
    → IsFlying s
    → IsFlying (launch key s.flights (authorize now key s.auth))
unfolding authorize
authorize-IsFlying now key s v =
    branches (λ r. IsFlying (launch key s.flights r)) s.auth.challenged _ _
      (authorize_held-IsFlying now key s (lookup key s.auth.entries) v refl) v

refused_entry-IsFlying :
    (key sent : Bytes) (status : GoError) (s : System) (id : ℕ) (st : EntryState)
    → IsFlying s
    → lookup key s.auth.entries ≡ some id
    → (s.auth.heap id).state ≡ st
    → IsFlying (launch key s.flights (refused_entry key sent id status (s.auth.heap id) st s.auth))
unfolding refused_entry refused_same
refused_entry-IsFlying key sent status s id acquiring v h e = v
refused_entry-IsFlying key sent status s id denied v h e = v
refused_entry-IsFlying key sent status s id unproven v h e =
    branches (λ r. IsFlying (launch key s.flights r)) (bytes_eq (s.auth.heap id).header sent) _ _
      (write-IsFlying s v key id _ h (rw e refl) refl (λ d. verdict_blames status)) v
refused_entry-IsFlying key sent status s id proven v h e =
    branches (λ r. IsFlying (launch key s.flights r)) (bytes_eq (s.auth.heap id).header sent) _ _
      (begin-IsFlying s v key (rw (h, e) refl)) v

refused_held-IsFlying :
    (key sent : Bytes) (status : GoError) (s : System) (found : Option ℕ)
    → IsFlying s
    → lookup key s.auth.entries ≡ found
    → IsFlying (launch key s.flights (refused_held key sent status found s.auth))
unfolding refused_held
refused_held-IsFlying key sent status s none v h = begin-IsFlying s v key (rw h refl)
refused_held-IsFlying key sent status s (some id) v h =
    refused_entry-IsFlying key sent status s id (s.auth.heap id).state v h refl

-- what is known of the registry is no matter of the tokens
pub told-IsFlying :
    (s : System) (asked : Challenge) (challenged replied : Bool)
    → IsFlying s
    → IsFlying (record s {
      auth = record s.auth { challenge = asked; challenged = challenged; replied = replied };
    })
told-IsFlying s asked challenged replied v = record {
  below = v.below;
  apart = v.apart;
  blank = v.blank;
  single = v.single;
  found = v.found;
  blamed = v.blamed;
}

refused-IsFlying :
    (key sent : Bytes) (asked : Challenge) (status : GoError) (s : System)
    → IsFlying s
    → IsFlying (launch key s.flights (refused key sent asked status s.auth))
unfolding refused
refused-IsFlying key sent asked status s v =
    refused_held-IsFlying key sent status _ (lookup key s.auth.entries)
      (told-IsFlying s asked true true v) refl

deny_state-IsFlying :
    (key : Bytes) (status : GoError) (s : System) (id : ℕ) (st : EntryState)
    → IsFlying s
    → lookup key s.auth.entries ≡ some id
    → (s.auth.heap id).state ≡ st
    → is_acquiring st ≡ false
    → IsFlying (record s { auth = (deny_state id status st s.auth).1 })
unfolding deny_state
deny_state-IsFlying key status s id denied v h e a = v
deny_state-IsFlying key status s id acquiring v h e a = ground (arith, a)
deny_state-IsFlying key status s id unproven v h e a =
    write-IsFlying s v key id _ h (rw e refl) refl (λ d. verdict_blames status)
deny_state-IsFlying key status s id proven v h e a =
    write-IsFlying s v key id _ h (rw e refl) refl (λ d. verdict_blames status)

deny_held-IsFlying :
    (key sent : Bytes) (status : GoError) (s : System) (found : Option ℕ)
    → IsFlying s
    → sent ≢ []
    → lookup key s.auth.entries ≡ found
    → IsFlying (record s { auth = (deny_held sent status found s.auth).1 })
unfolding deny_held
deny_held-IsFlying key sent status s none v n h = v
deny_held-IsFlying key sent status s (some id) v n h =
    elim (Bool-cases (bytes_eq (s.auth.heap id).header sent)) [
      | inl q ↦ rw q (
          deny_state-IsFlying key status s id (s.auth.heap id).state v h refl
            (ground (arith, v.blank key id h, bytes_eq_iff (s.auth.heap id).header sent)))
      | inr q ↦ rw q v
    ]

learned-IsFlying :
    (answer : Option (AuthResult Challenge)) (s : System)
    → IsFlying s
    → IsFlying (record s { auth = (learned answer (record s.auth { replied = true })).1 })
learned-IsFlying (some (ok asked)) s v = told-IsFlying s _ true true v
learned-IsFlying (some (err e)) s v = told-IsFlying s _ _ true v
learned-IsFlying none s v = told-IsFlying s _ _ true v

learn-IsFlying :
    (status : ℕ) (raw : Bytes) (s : System)
    → IsFlying s
    → IsFlying (record s { auth = (learn status raw s.auth).1 })
unfolding learn
learn-IsFlying status raw s v =
    branches (λ (r : Option GoError × AuthState). IsFlying (record s { auth = r.1 }))
      (s.auth.challenged || not (is_refusal status) || bytes_eq raw []) _ _
      (told-IsFlying s _ _ true v) (learned-IsFlying (parse_challenge raw) s v)

finish-IsFlying :
    (id : ℕ) (key : Bytes) (now : ℕ) (end : Outcome) (s : System)
    → IsFlying s
    → is_running key id s.flights ≡ true
    → IsFlying (record { auth = finish id key now end s.auth; flights = landed key id s.flights })
unfolding finish
finish-IsFlying id key now (minted header lifetime) s v r =
    land-IsFlying s v key id r _ s.auth.entries (rw (v.found key id r) (ground arith)) (λ k q. refl)
      (λ i h. ground (arith, v.found key id r, h)) (λ d. ground arith)
finish-IsFlying id key now (failed e) s v r = elim (Bool-cases (is_error err_unauthorized e)) [
  | inl q ↦ rw q (
      land-IsFlying s v key id r _ s.auth.entries (rw (v.found key id r) (ground arith))
        (λ k q. refl) (λ i h. ground (arith, v.found key id r, h)) (λ d. q))
  | inr q ↦
      let gone : mapped_to id (lookup key s.auth.entries) ≡ true =
        rw (v.found key id r) (ground arith) in
      rw (q, gone)
        (land-IsFlying s v key id r _ (remove key s.auth.entries)
          (rw (lookup-remove key key s.auth.entries) (ground (arith, bytes_eq_iff key key)))
          (λ k n. ground (arith, lookup-remove key k s.auth.entries))
          (λ i h. ground (arith, lookup-remove key key s.auth.entries, bytes_eq_iff key key))
          (λ d. ground (arith, v.single key, v.found key id r, running_runs key id s.flights r)))
]

step-IsFlying : {s t : System} → Step s t → IsFlying s → IsFlying t
unfolding deny
step-IsFlying {s} (asking now key) v = authorize-IsFlying now key s v
step-IsFlying {s} (refusal key sent asked status) v = refused-IsFlying key sent asked status s v
step-IsFlying {s} (reply header) v = answered-IsFlying s header v
step-IsFlying {s} (second_refusal key sent status n) v =
    deny_held-IsFlying key sent status s (lookup key s.auth.entries) v n refl
step-IsFlying {s} (version status raw) v = learn-IsFlying status raw s v
step-IsFlying {s} (landing id key now end r) v = finish-IsFlying id key now end s v r

pub steps-IsFlying : {s t : System} → Steps s t → IsFlying s → IsFlying t
steps-IsFlying here v = v
steps-IsFlying (next r m) v = step-IsFlying m (steps-IsFlying r v)
