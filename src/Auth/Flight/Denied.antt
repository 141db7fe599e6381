-- ===== src/Auth/Flight/Denied.antt =====
-- A scope that internal/oci/authstate.go gave up stays given up.
use bigoci.Prelude.{
  Bool-cases, Bytes, ℕ, ◌≡◌, refl, inl, inr, Bool, true, false, Option, none, some, List, [], arith,
  lookup, lookup-insert, bytes_eq, bytes_eq_iff, lookup-remove, bytes_eq_iff, Bool-cases, branches,
}
use bigoci.Errors.{GoError}
use bigoci.Challenge.{Challenge, AuthResult, ok, err}
use bigoci.Auth.{
  EntryState, acquiring, unproven, proven, denied, Entry, AuthState, begin, usable, put, answered,
  authorize_held, authorize_entry, refused_held, refused_entry, refused_same, deny_held, deny_state,
  finish, Outcome, minted, failed, learned,
}
use bigoci.Auth.System.{System, launch, is_running}
use bigoci.Auth.Flight.{IsFlying, is_acquiring, is_denied, running_runs}
use bigoci.Auth.Flight.Kept.{prove_all_lem}

-- the scope of the key is denied with the error
pub record IsCondemned (s : System) (key : Bytes) (id : ℕ) (e : Option GoError) : Type 0 where
  pub mapped : lookup key s.auth.entries ≡ some id
  pub final : is_denied (s.auth.heap id).state ≡ true
  pub reason : (s.auth.heap id).err ≡ e

abbrev rejects : (ℕ → Entry) → Option ℕ → Bool
rejects heap none = false
rejects heap (some id) = is_denied (heap id).state

module _ (key : Bytes) (id : ℕ) (e : Option GoError) (s : System) (v : IsFlying s)
    (c : IsCondemned s key id e) where
  elsewhere :
      (k : Bytes) → rejects s.auth.heap (lookup k s.auth.entries) ≡ false → bytes_eq k key ≡ false
  elsewhere k h = elim (Bool-cases (bytes_eq k key)) [
    | inl q ↦
        let same : k ≡ key = (bytes_eq_iff k key).0 q in
        let denied_here : rejects s.auth.heap (lookup k s.auth.entries) ≡ true =
          rw (same, c.mapped) c.final in
        ground (arith, h, denied_here)
    | inr q ↦ q
  ]

  begin-IsCondemned :
      (k : Bytes)
      → rejects s.auth.heap (lookup k s.auth.entries) ≡ false
      → IsCondemned (launch k s.flights (begin k s.auth)) key id e
  unfolding begin
  begin-IsCondemned k h = record {
    mapped =
        ground (arith, lookup-insert k key s.auth.fresh s.auth.entries, elsewhere k h, c.mapped);
    final = ground (arith, v.below key id c.mapped, c.final);
    reason = ground (arith, v.below key id c.mapped, c.reason);
  }

  write-IsCondemned :
      (n : ℕ) (x : Entry)
      → is_denied (s.auth.heap n).state ≡ false
      → IsCondemned (record s { auth = record s.auth { heap = put s.auth.heap n x } }) key id e
  write-IsCondemned n x h = record {
    mapped = c.mapped;
    final = ground (arith, c.final);
    reason = ground (arith, c.final, c.reason);
  }

  pub told-IsCondemned :
      (asked : Challenge) (challenged replied : Bool)
      → IsCondemned
          (record s {
            auth = record s.auth { challenge = asked; challenged = challenged; replied = replied };
          })
          key
          id
          e
  told-IsCondemned asked challenged replied = record {
    mapped = c.mapped;
    final = c.final;
    reason = c.reason;
  }

  authorize_entry-IsCondemned :
      (now : ℕ) (k : Bytes) (n : ℕ) (st : EntryState)
      → lookup k s.auth.entries ≡ some n
      → (s.auth.heap n).state ≡ st
      → IsCondemned
          (launch k s.flights (authorize_entry now k n (s.auth.heap n) st s.auth))
          key
          id
          e
  unfolding authorize_entry
  authorize_entry-IsCondemned now k n acquiring h g = c
  authorize_entry-IsCondemned now k n denied h g = c
  authorize_entry-IsCondemned now k n unproven h g =
      elim (Bool-cases (usable now (s.auth.heap n))) [
        | inl q ↦ rw q c
        | inr q ↦ rw q (begin-IsCondemned k (rw (h, g) refl))
      ]
  authorize_entry-IsCondemned now k n proven h g = elim (Bool-cases (usable now (s.auth.heap n))) [
    | inl q ↦ rw q c
    | inr q ↦ rw q (begin-IsCondemned k (rw (h, g) refl))
  ]

  pub authorize_held-IsCondemned :
      (now : ℕ) (k : Bytes) (found : Option ℕ)
      → lookup k s.auth.entries ≡ found
      → IsCondemned (launch k s.flights (authorize_held now k found s.auth)) key id e
  unfolding authorize_held
  authorize_held-IsCondemned now k none h = begin-IsCondemned k (rw h refl)
  authorize_held-IsCondemned now k (some n) h =
      authorize_entry-IsCondemned now k n (s.auth.heap n).state h refl

  refused_entry-IsCondemned :
      (k sent : Bytes) (status : GoError) (n : ℕ) (st : EntryState)
      → lookup k s.auth.entries ≡ some n
      → (s.auth.heap n).state ≡ st
      → IsCondemned
          (launch k s.flights (refused_entry k sent n status (s.auth.heap n) st s.auth))
          key
          id
          e
  unfolding refused_entry refused_same
  refused_entry-IsCondemned k sent status n acquiring h g = c
  refused_entry-IsCondemned k sent status n denied h g = c
  refused_entry-IsCondemned k sent status n unproven h g =
      branches (λ r. IsCondemned (launch k s.flights r) key id e)
        (bytes_eq (s.auth.heap n).header sent) _ _ (write-IsCondemned n _ (rw g refl)) c
  refused_entry-IsCondemned k sent status n proven h g =
      branches (λ r. IsCondemned (launch k s.flights r) key id e)
        (bytes_eq (s.auth.heap n).header sent) _ _ (begin-IsCondemned k (rw (h, g) refl)) c

  pub refused_held-IsCondemned :
      (k sent : Bytes) (status : GoError) (found : Option ℕ)
      → lookup k s.auth.entries ≡ found
      → IsCondemned (launch k s.flights (refused_held k sent status found s.auth)) key id e
  unfolding refused_held
  refused_held-IsCondemned k sent status none h = begin-IsCondemned k (rw h refl)
  refused_held-IsCondemned k sent status (some n) h =
      refused_entry-IsCondemned k sent status n (s.auth.heap n).state h refl

  deny_state-IsCondemned :
      (status : GoError) (n : ℕ) (st : EntryState)
      → (s.auth.heap n).state ≡ st
      → IsCondemned (record s { auth = (deny_state n status st s.auth).1 }) key id e
  unfolding deny_state
  deny_state-IsCondemned status n denied g = c
  deny_state-IsCondemned status n acquiring g = write-IsCondemned n _ (rw g refl)
  deny_state-IsCondemned status n unproven g = write-IsCondemned n _ (rw g refl)
  deny_state-IsCondemned status n proven g = write-IsCondemned n _ (rw g refl)

  pub deny_held-IsCondemned :
      (sent : Bytes) (status : GoError) (found : Option ℕ)
      → IsCondemned (record s { auth = (deny_held sent status found s.auth).1 }) key id e
  unfolding deny_held
  deny_held-IsCondemned sent status none = c
  deny_held-IsCondemned sent status (some n) =
      branches (λ (r : Option GoError × AuthState). IsCondemned (record s { auth = r.1 }) key id e)
        (bytes_eq (s.auth.heap n).header sent) _ _
        (deny_state-IsCondemned status n (s.auth.heap n).state refl) c

  pub learned-IsCondemned :
      (answer : Option (AuthResult Challenge))
      → IsCondemned
          (record s { auth = (learned answer (record s.auth { replied = true })).1 })
          key
          id
          e
  learned-IsCondemned (some (ok asked)) = told-IsCondemned _ true true
  learned-IsCondemned (some (err x)) = told-IsCondemned _ _ true
  learned-IsCondemned none = told-IsCondemned _ _ true

  pub finish-IsCondemned :
      (n : ℕ) (k : Bytes) (now : ℕ) (end : Outcome) (f : List (Bytes × ℕ))
      → is_running k n s.flights ≡ true
      → IsCondemned (record { auth = finish n k now end s.auth; flights = f }) key id e
  unfolding finish
  finish-IsCondemned n k now end f r =
      let busy : is_acquiring (s.auth.heap n).state ≡ true =
        ground (arith, v.single k, v.found k n r, running_runs k n s.flights r) in
      let quiet : is_denied (s.auth.heap n).state ≡ false = ground (arith, busy) in
      let away : bytes_eq k key ≡ false = elsewhere k (rw (v.found k n r) quiet) in
      elim end
        as (λ x. IsCondemned (record { auth = finish n k now x s.auth; flights = f }) key id e) [
          | minted header lifetime ↦ record {
            mapped = c.mapped;
            final = ground (arith, c.final);
            reason = ground (arith, c.final, c.reason);
          }
          | failed x ↦ record {
            mapped = ground (arith, c.mapped, lookup-remove k key s.auth.entries, away);
            final = ground (arith, c.final, quiet);
            reason = ground (arith, c.final, c.reason, quiet);
          }
        ]

  pub answered-IsCondemned :
      (header : Bytes) → IsCondemned (record s { auth = answered header s.auth }) key id e
  unfolding answered
  answered-IsCondemned header =
      branches (λ a. IsCondemned (record s { auth = a }) key id e) (bytes_eq header []) _ _
        (told-IsCondemned _ _ true)
        (record {
          mapped = c.mapped;
          final = ground (arith, c.final, prove_all_lem header s.auth.entries s.auth.heap id);
          reason = ground (arith, c.reason, prove_all_lem header s.auth.entries s.auth.heap id);
        })
