-- ===== src/Auth/Flight/Moves.antt =====
-- The four ways in which an operation changes the tokens, and what they keep.
use bigoci.Prelude.{
  if◌then◌else◌, Bool-cases, Option-cases, Bytes, ℕ, ◌≤◌, ◌<◌, ◌≡◌, refl, sym, ap, inl, inr, true,
  false, Option, none, some, List, [], ◌∷◌, arith, lookup, insert, lookup-insert, bytes_eq,
  bytes_eq_iff, bytes_eq_iff, Bool-cases, insert,
}
use mathlib.Core.Path.{subst}
use bigoci.Auth.{Entry, begin, put}
use bigoci.Auth.System.{System, launch, is_running, runs, landed}
use bigoci.Auth.Flight.{
  IsFlying, waits, is_acquiring, is_denied, blames, running_once, running_runs, runs_elsewhere,
  still_running,
}

waits_other :
    (heap : ℕ → Entry) (n : ℕ) (e : Entry) (found : Option ℕ)
    → ((i : ℕ) → found ≡ some i → i < n)
    → waits (put heap n e) found ≡ waits heap found
waits_other heap n e none b = refl
waits_other heap n e (some i) b = ground (arith, b i refl)

waits_write :
    (heap : ℕ → Entry) (id : ℕ) (e : Entry) (found : Option ℕ)
    → is_acquiring (heap id).state ≡ false
    → is_acquiring e.state ≡ false
    → waits (put heap id e) found ≡ waits heap found
waits_write heap id e none a b = refl
waits_write heap id e (some i) a b = ground arith

-- an operation that starts an exchange where none runs
module _ (s : System) (v : IsFlying s) (key : Bytes) where
  begin_single :
      (k : Bytes)
      → waits s.auth.heap (lookup key s.auth.entries) ≡ false
      → let t = launch key s.flights (begin key s.auth) in
        runs k t.flights ≡ (if waits t.auth.heap (lookup k t.auth.entries) then 1 else 0)
  unfolding begin is_running runs
  begin_single k h = elim (Bool-cases (bytes_eq key k)) [
    | inl e ↦
        let same : key ≡ k = (bytes_eq_iff key k).0 e in
        rw (lookup-insert key k s.auth.fresh s.auth.entries, e)
          (ground (arith, v.single key, ap (λ (j : Bytes). runs j s.flights) same))
    | inr e ↦
        rw
          (
            lookup-insert key k s.auth.fresh s.auth.entries,
            e,
            waits_other s.auth.heap s.auth.fresh _ (lookup k s.auth.entries) (v.below k),
          )
          (ground (arith, v.single k))
  ]

  begin_found :
      (k : Bytes) (i : ℕ)
      → waits s.auth.heap (lookup key s.auth.entries) ≡ false
      → is_running k i ((key, s.auth.fresh) ∷ s.flights) ≡ true
      → lookup k (insert key s.auth.fresh s.auth.entries) ≡ some i
  unfolding is_running
  begin_found k i h g = elim (Bool-cases (bytes_eq key k)) [
    | inl e ↦
        let same : key ≡ k = (bytes_eq_iff key k).0 e in
        let quiet : is_running k i s.flights ≡ true → 1 ≤ runs key s.flights =
          λ r. rw same (running_runs k i s.flights r) in
        ground (arith, lookup-insert key k s.auth.fresh s.auth.entries, v.single key, quiet)
    | inr e ↦ ground (arith, lookup-insert key k s.auth.fresh s.auth.entries, v.found k i)
  ]

  pub begin-IsFlying :
      waits s.auth.heap (lookup key s.auth.entries) ≡ false
      → IsFlying (launch key s.flights (begin key s.auth))
  unfolding begin is_running runs
  begin-IsFlying h = record {
    below = λ k i g. ground (arith, lookup-insert key k s.auth.fresh s.auth.entries, v.below k i);
    apart = λ k j i g l. ground (
      arith,
      lookup-insert key k s.auth.fresh s.auth.entries,
      lookup-insert key j s.auth.fresh s.auth.entries,
      v.below k i,
      v.below j i,
      v.apart k j i,
      bytes_eq_iff key k,
      bytes_eq_iff key j,
      bytes_eq_iff k j,
    );
    blank = λ k i g l. ground (arith, lookup-insert key k s.auth.fresh s.auth.entries, v.blank k i);
    single = λ k. begin_single k h;
    found = λ k i g. begin_found k i h g;
    blamed =
        λ k i g l. ground (arith, lookup-insert key k s.auth.fresh s.auth.entries, v.blamed k i);
  }

  -- an operation that gives an entry another state while no exchange runs for it
  pub write-IsFlying :
      (id : ℕ) (e : Entry)
      → lookup key s.auth.entries ≡ some id
      → is_acquiring (s.auth.heap id).state ≡ false
      → is_acquiring e.state ≡ false
      → (is_denied e.state ≡ true → blames e.err ≡ true)
      → IsFlying (record s { auth = record s.auth { heap = put s.auth.heap id e } })
  write-IsFlying id e h a b c = record {
    below = v.below;
    apart = v.apart;
    blank = λ k i g l. ground (arith, v.blank k i);
    single = λ k. rw (waits_write s.auth.heap id e (lookup k s.auth.entries) a b) (v.single k);
    found = v.found;
    blamed = λ k i g l. ground (arith, v.blamed k i, c);
  }

-- the end of an exchange: the entry is written, and may leave the map
module _ (s : System) (v : IsFlying s) (key : Bytes) (id : ℕ)
    (r : is_running key id s.flights ≡ true) (e : Entry) (m : List (Bytes × ℕ))
    (quiet : waits (put s.auth.heap id e) (lookup key m) ≡ false)
    (keep : (k : Bytes) → bytes_eq key k ≡ false → lookup k m ≡ lookup k s.auth.entries)
    (own : (i : ℕ) → lookup key m ≡ some i → i ≡ id) where
  landed_entry : (k : Bytes) (i : ℕ) → lookup k m ≡ some i → lookup k s.auth.entries ≡ some i
  landed_entry k i h = elim (Bool-cases (bytes_eq key k)) [
    | inl q ↦
        let same : key ≡ k = (bytes_eq_iff key k).0 q in
        rw (sym same) (rw (own i (rw same h)) (v.found key id r))
    | inr q ↦ ground (arith, keep k q)
  ]

  landed_waits :
      (k : Bytes)
      → bytes_eq key k ≡ false
      → waits (put s.auth.heap id e) (lookup k m) ≡ waits s.auth.heap (lookup k s.auth.entries)
  landed_waits k q = rw (keep k q) (elim (Option-cases (lookup k s.auth.entries)) [
    | inl n ↦ rw n refl
    | inr (i, h) ↦ rw h (ground (arith, v.apart key k i, v.found key id r, h))
  ])

  landed_blank :
      (k : Bytes) (i : ℕ)
      → lookup k m ≡ some i
      → is_acquiring (put s.auth.heap id e i).state ≡ true
      → (put s.auth.heap id e i).header ≡ []
  landed_blank k i h g = elim (Bool-cases (bytes_eq key k)) [
    | inl q ↦
        let same : key ≡ k = (bytes_eq_iff key k).0 q in
        let there : lookup key m ≡ some i = rw same h in
        let gone : is_acquiring (put s.auth.heap id e i).state ≡ false =
          subst (λ (o : Option ℕ). waits (put s.auth.heap id e) o ≡ false) there quiet in
        ground (arith, g, gone)
    | inr q ↦ ground (arith, v.blank k i, landed_entry k i h, v.apart key k i, v.found key id r, g)
  ]

  landed_single :
      (k : Bytes)
      → runs k (landed key id s.flights)
        ≡ (if waits (put s.auth.heap id e) (lookup k m) then 1 else 0)
  landed_single k = elim (Bool-cases (bytes_eq key k)) [
    | inl q ↦
        let same : key ≡ k = (bytes_eq_iff key k).0 q in
        rw (sym same, quiet) (ground (arith, v.single key, running_once key id s.flights r))
    | inr q ↦ rw (landed_waits k q, runs_elsewhere key k id s.flights q) (v.single k)
  ]

  landed_found :
      (k : Bytes) (i : ℕ) → is_running k i (landed key id s.flights) ≡ true → lookup k m ≡ some i
  landed_found k i g = elim (Bool-cases (bytes_eq key k)) [
    | inl q ↦
        let same : key ≡ k = (bytes_eq_iff key k).0 q in
        let one : 1 ≤ runs key (landed key id s.flights) = omega (
          arith,
          running_runs k i (landed key id s.flights) g,
          ap (λ (j : Bytes). runs j (landed key id s.flights)) same,
        ) in
        ground (arith, v.single key, running_once key id s.flights r)
    | inr q ↦ ground (arith, keep k q, v.found k i, still_running key k id i s.flights g)
  ]

  pub land-IsFlying :
      (is_denied e.state ≡ true → blames e.err ≡ true)
      → IsFlying (record {
        auth = record s.auth { heap = put s.auth.heap id e; entries = m };
        flights = landed key id s.flights;
      })
  land-IsFlying c = record {
    below = λ k i h. v.below k i (landed_entry k i h);
    apart = λ k j i h g. v.apart k j i (landed_entry k i h) (landed_entry j i g);
    blank = landed_blank;
    single = landed_single;
    found = landed_found;
    blamed = λ k i h g. ground (arith, v.blamed k i, landed_entry k i h, c);
  }
