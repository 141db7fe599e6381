-- ===== src/Auth/Flight.antt =====
-- What every operation of internal/oci/authstate.go keeps, and the single exchange for a scope.
pub mod Moves
pub mod Kept
pub mod Fair
pub mod Denied
pub mod Final
use bigoci.Prelude.{
  if◌then◌else◌, Bytes, ℕ, ◌+◌, ◌≤◌, ◌<◌, ◌≡◌, refl, Bool, true, false, Option, none, some, List,
  [], ◌∷◌, arith, lookup, bytes_eq, bytes_eq_iff, bytes_eq_iff,
}
use bigoci.Errors.{GoError, is_error, err_unauthorized}
use bigoci.Challenge.{Challenge}
use bigoci.Auth.{EntryState, acquiring, unproven, proven, denied, Entry, AuthState}
use bigoci.Auth.System.{System, launch, is_running, runs, landed, idle, is_flight}

abbrev pub is_acquiring : EntryState → Bool
is_acquiring s = elim s [ acquiring ↦ true | unproven ↦ false | proven ↦ false | denied ↦ false ]

abbrev pub is_denied : EntryState → Bool
is_denied s = elim s [ acquiring ↦ false | unproven ↦ false | proven ↦ false | denied ↦ true ]

abbrev pub waits : (ℕ → Entry) → Option ℕ → Bool
waits heap none = false
waits heap (some id) = is_acquiring (heap id).state

-- an error that a caller of `errors.Is` takes for ErrUnauthorized
abbrev pub blames : Option GoError → Bool
blames none = false
blames (some e) = is_error err_unauthorized e

pub record IsFlying (s : System) : Type 0 where
  pub below : (k : Bytes) (i : ℕ) → lookup k s.auth.entries ≡ some i → i < s.auth.fresh
  pub apart :
      (k j : Bytes) (i : ℕ)
      → lookup k s.auth.entries ≡ some i
      → lookup j s.auth.entries ≡ some i
      → bytes_eq k j ≡ true
  pub blank :
      (k : Bytes) (i : ℕ)
      → lookup k s.auth.entries ≡ some i
      → is_acquiring (s.auth.heap i).state ≡ true
      → (s.auth.heap i).header ≡ []
  pub single :
      (k : Bytes)
      → runs k s.flights ≡ (if waits s.auth.heap (lookup k s.auth.entries) then 1 else 0)
  pub found :
      (k : Bytes) (i : ℕ) → is_running k i s.flights ≡ true → lookup k s.auth.entries ≡ some i
  pub blamed :
      (k : Bytes) (i : ℕ)
      → lookup k s.auth.entries ≡ some i
      → is_denied (s.auth.heap i).state ≡ true
      → blames (s.auth.heap i).err ≡ true

pub idle-IsFlying : (heap : ℕ → Entry) → IsFlying (idle heap)
unfolding lookup is_running runs
idle-IsFlying heap = record {
  below = λ k i h. ground arith;
  apart = λ k j i h g. ground arith;
  blank = λ k i h g. ground arith;
  single = λ k. ground arith;
  found = λ k i h. ground arith;
  blamed = λ k i h g. ground arith;
}

pub running_once :
    (k : Bytes) (i : ℕ) (f : List (Bytes × ℕ))
    → is_running k i f ≡ true
    → (runs k f ≡ 1 + runs k (landed k i f))
unfolding is_running runs landed
running_once k i [] h = ground arith
running_once k i ((j, n) ∷ f) h = ground (arith, running_once k i f)

pub runs_elsewhere :
    (k j : Bytes) (i : ℕ) (f : List (Bytes × ℕ))
    → bytes_eq k j ≡ false
    → runs j (landed k i f) ≡ runs j f
unfolding runs landed
runs_elsewhere k j i [] h = refl
runs_elsewhere k j i ((m, n) ∷ f) h =
    ground (arith, runs_elsewhere k j i f, bytes_eq_iff m k, bytes_eq_iff m j, bytes_eq_iff k j)

pub still_running :
    (k j : Bytes) (i n : ℕ) (f : List (Bytes × ℕ))
    → is_running j n (landed k i f) ≡ true
    → is_running j n f ≡ true
unfolding is_running landed
still_running k j i n [] h = h
still_running k j i n ((m, l) ∷ f) h = ground (arith, still_running k j i n f)

pub running_runs :
    (k : Bytes) (i : ℕ) (f : List (Bytes × ℕ)) → is_running k i f ≡ true → 1 ≤ runs k f
running_runs k i f h = omega (arith, running_once k i f h)
