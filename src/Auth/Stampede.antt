-- ===== src/Auth/Stampede.antt =====
-- Many workers of internal/oci/authstate.go refused at once.
use bigoci.Prelude.{
  Bytes, ℤ, ℕ, zero, suc, ◌≡◌, refl, true, false, some, List, [], ◌∷◌, arith, lookup, lookup-insert,
  bytes_eq, bytes_eq_iff, bytes_eq_iff,
}
use bigoci.Errors.{GoError}
use bigoci.Challenge.{Challenge}
use bigoci.Auth.{
  challenged_by, acquiring, unproven, proven, AuthState, Decision, await, present, exchange,
  refused, begin, finish, minted, refused_held, refused_entry, refused_same,
}

-- the refusals of workers whose requests carried the same header, one after another
unfoldable pub refusals :
    ℕ → Bytes → Bytes → Challenge → GoError → AuthState → List Decision × AuthState
refusals zero key sent asked status s = ([], s)
refusals (suc n) key sent asked status s =
    let (d, t) = refused key sent asked status s in
    let (l, u) = refusals n key sent asked status t in (d ∷ l, u)

-- the state behind challenges that ask for no new exchange
unfoldable told : ℕ → Challenge → AuthState → AuthState
told zero asked s = s
told (suc n) asked s = told n asked (challenged_by asked s)

unfoldable pub times {ℓ} : {A : Type ℓ} → ℕ → A → List A
times zero x = []
times (suc n) x = x ∷ times n x

module _ (key sent : Bytes) (asked : Challenge) (status : GoError) where
  refused_awaits :
      (id : ℕ) (s : AuthState)
      → lookup key s.entries ≡ some id
      → (s.heap id).state ≡ acquiring
      → refused key sent asked status s ≡ (await id, challenged_by asked s)
  unfolding refused refused_held refused_entry
  refused_awaits id s h g = rw (h, g) refl

  refused_presents :
      (id : ℕ) (s : AuthState)
      → lookup key s.entries ≡ some id
      → (s.heap id).state ≡ unproven
      → bytes_eq (s.heap id).header sent ≡ false
      → refused key sent asked status s ≡ (present (s.heap id).header, challenged_by asked s)
  unfolding refused refused_held refused_entry
  refused_presents id s h g b = rw (h, g, b) refl

  pub refused_begins :
      (id : ℕ) (s : AuthState)
      → lookup key s.entries ≡ some id
      → (s.heap id).state ≡ proven
      → (s.heap id).header ≡ sent
      → refused key sent asked status s ≡ begin key (challenged_by asked s)
  unfolding refused refused_held refused_entry refused_same
  refused_begins id s h g b =
      let same : bytes_eq (s.heap id).header sent ≡ true =
        (bytes_eq_iff (s.heap id).header sent).1 b in
      rw (h, g, same) refl

  others_await :
      (n id : ℕ) (s : AuthState)
      → lookup key s.entries ≡ some id
      → (s.heap id).state ≡ acquiring
      → refusals n key sent asked status s ≡ (times n (await id), told n asked s)
  unfolding refusals times told
  others_await zero id s h g = refl
  others_await (suc n) id s h g =
      rw (refused_awaits id s h g, others_await n id (challenged_by asked s) h g) refl

  others_take :
      (n id : ℕ) (header : Bytes) (s : AuthState)
      → lookup key s.entries ≡ some id
      → (s.heap id).state ≡ unproven
      → (s.heap id).header ≡ header
      → bytes_eq header sent ≡ false
      → (refusals n key sent asked status s).0 ≡ times n (present header)
  unfolding refusals times
  others_take zero id header s h g e b = refl
  others_take (suc n) id header s h g e b =
      rw
        (
          refused_presents id s h g (rw e b),
          others_take n id header (challenged_by asked s) h g e b,
          e,
        )
        refl

  pub begun_mapped : (s : AuthState) → lookup key (begin key s).1.entries ≡ some s.fresh
  unfolding begin
  begun_mapped s = ground (arith, lookup-insert key key s.fresh s.entries, bytes_eq_iff key key)

  begun_acquiring : (s : AuthState) → ((begin key s).1.heap s.fresh).state ≡ acquiring
  unfolding begin
  begun_acquiring s = ground arith

  begun_exchange : (s : AuthState) → (begin key s).0 ≡ exchange s.fresh s.challenge
  unfolding begin
  begun_exchange s = refl

  pub minted_held :
      (id now : ℕ) (header : Bytes) (lifetime : ℤ) (s : AuthState)
      → let e = (finish id key now (minted header lifetime) s).heap id in
        (e.state ≡ unproven) × (e.header ≡ header)
  unfolding finish
  minted_held id now header lifetime s = ground arith

  pub minted_entries :
      (id now : ℕ) (header : Bytes) (lifetime : ℤ) (s : AuthState)
      → (finish id key now (minted header lifetime) s).entries ≡ s.entries
  unfolding finish
  minted_entries id now header lifetime s = refl

  first_refused :
      (n id : ℕ) (s : AuthState)
      → lookup key s.entries ≡ some id
      → (s.heap id).state ≡ proven
      → (s.heap id).header ≡ sent
      → refusals (suc n) key sent asked status s ≡ (
        exchange s.fresh asked ∷ times n (await s.fresh),
        told n asked (begin key (challenged_by asked s)).1,
      )
  unfolding refusals
  first_refused n id s h g b =
      let t : AuthState = challenged_by asked s in
      rw
        (
          refused_begins id s h g b,
          others_await n s.fresh (begin key t).1 (begun_mapped t) (begun_acquiring t),
        )
        (λ i. (begun i ∷ times n (await s.fresh), told n asked (begin key t).1))
    where
      begun : (begin key (challenged_by asked s)).0 ≡ exchange s.fresh asked
      begun = begun_exchange (challenged_by asked s)

  told_lem :
      (n : ℕ) (s : AuthState)
      → ((told n asked s).entries ≡ s.entries) × ((told n asked s).heap ≡ s.heap)
  unfolding told
  told_lem zero s = (refl, refl)
  told_lem (suc n) s = told_lem n (challenged_by asked s)

  -- Workers whose requests all carried the same proven header are refused: the first starts the one
  -- exchange and the others wait for it, and all that are refused once it has minted another header
  -- present that one.
  pub refusals_once :
      (n m id now : ℕ) (header : Bytes) (lifetime : ℤ) (s : AuthState)
      → lookup key s.entries ≡ some id
      → (s.heap id).state ≡ proven
      → (s.heap id).header ≡ sent
      → bytes_eq header sent ≡ false
      → let (early, t) = refusals (suc n) key sent asked status s in
        (early ≡ exchange s.fresh asked ∷ times n (await s.fresh))
        × ((refusals m key sent asked status (finish s.fresh key now (minted header lifetime) t)).0
            ≡ times m (present header))
  refusals_once n m id now header lifetime s h g b c =
      let t : AuthState = (begin key (challenged_by asked s)).1 in
      let mapped : lookup key (told n asked t).entries ≡ some s.fresh =
        rw ((told_lem n t).0) (begun_mapped (challenged_by asked s)) in
      let (state, same) = minted_held s.fresh now header lifetime (told n asked t) in
      rw (first_refused n id s h g b) (
        refl,
        others_take m s.fresh header
            (finish s.fresh key now (minted header lifetime) (told n asked t))
            (rw (minted_entries s.fresh now header lifetime (told n asked t)) mapped) state same c,
      )
