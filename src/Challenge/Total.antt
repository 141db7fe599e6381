-- ===== src/Challenge/Total.antt =====
-- The scan of challenge.go always ends: every round reads at least one byte.
use bigoci.Prelude.{
  ltb, ◌==◌, Bool-cases, Bytes, length, ℕ, zero, suc, ◌+◌, ◌≤◌, ◌<◌, ◌≡◌, refl, ◌⊎◌, inl, inr,
  Option, none, some, List, [], ◌∷◌, ◌++◌, arith,
}
use bigoci.Challenge.{
  Challenge, AuthResult, ok, err, is_token_char, space, delims, equals, after_sign, span, non_empty,
  token, quoted, token_value, value, resync_in, resync, Step, finished, failed, more, after_value,
  after_equals, after_token, after_delims, scan_step, continue, scan_in, scan_challenges,
  parse_challenge, and_pick, pick_challenge, unreadable, challenge_limit, too_long,
}

space-length : (s : Bytes) → length (space s) ≤ length s
unfolding space
space-length [] = omega arith
space-length (c ∷ s) = ground (arith, space-length s)

delims-length : (s : Bytes) → length (delims s) ≤ length s
unfolding delims
delims-length [] = omega arith
delims-length (c ∷ s) = ground (arith, delims-length s)

after_sign-length : (s : Bytes) {r : Bytes} → after_sign s ≡ some r → length r ≤ length s
after_sign-length [] e = absurd (ground arith)
after_sign-length (c ∷ s) {r} e = ground (arith, space-length s)

equals-length : (s : Bytes) {r : Bytes} → equals s ≡ some r → length r ≤ length s
unfolding equals
equals-length s e = omega (arith, after_sign-length (space s) e, space-length s)

span-length : (s : Bytes) → length (span s).0 + length (span s).1 ≡ length s
unfolding span
span-length [] = omega arith
span-length (c ∷ s) = elim (Bool-cases (is_token_char c)) [
  | inl y ↦ rw y (omega (arith, span-length s))
  | inr n ↦ rw n (omega arith)
]

non_empty-length :
    (p : Bytes × Bytes) {t r : Bytes}
    → non_empty p ≡ some (t, r)
    → length r < length p.0 + length p.1
non_empty-length ([], s) e = absurd (ground arith)
non_empty-length (c ∷ t, s) e = ground arith

token-length : (s : Bytes) {t r : Bytes} → token s ≡ some (t, r) → length r < length s
unfolding token
token-length s e = omega (arith, non_empty-length (span s) e, span-length s)

quoted-length : (out s : Bytes) → length (quoted out s).1 ≤ length s
unfolding quoted
quoted-length out [] = omega arith
quoted-length out (c ∷ []) = ground arith
quoted-length out (c ∷ d ∷ s) =
    ground (arith, quoted-length (out ++ d ∷ []) s, quoted-length (out ++ c ∷ []) (d ∷ s))

value-length : (s : Bytes) → length (value s).1 ≤ length s
unfolding value
value-length [] = omega arith
value-length (c ∷ s) = elim (Bool-cases (c == b'"')) [
  | inl y ↦ rw y (omega (arith, quoted-length [] s))
  | inr n ↦ rw n (token_case (token (c ∷ s)) refl)
]
  where
    token_case :
        (t : Option (Bytes × Bytes))
        → token (c ∷ s) ≡ t
        → length (token_value (c ∷ s) t).1 ≤ length (c ∷ s)
    token_case none e = omega arith
    token_case (some (t, r)) e = omega (arith, token-length (c ∷ s) e)

resync_in-length : (fuel : ℕ) (s : Bytes) → length (resync_in fuel s) ≤ length s
unfolding resync_in
resync_in-length zero s = omega arith
resync_in-length (suc fuel) [] = omega arith
resync_in-length (suc fuel) (c ∷ s) =
    ground
      (arith, resync_in-length fuel s, resync_in-length fuel (quoted [] s).1, quoted-length [] s)

-- A round that goes on has fewer bytes left.
abbrev pub Shrinks : ℕ → Step → Type 0
Shrinks n (finished o) = Unit
Shrinks n failed = Unit
Shrinks n (more s o) = length s < n

after_value-Shrinks :
    (n : ℕ) (name : Bytes) (offered : List Challenge) (v : Option Bytes × Bytes)
    → length v.1 < n
    → Shrinks n (after_value name offered v)
unfolding after_value resync
after_value-Shrinks n name [] (v, s) h = tt
after_value-Shrinks n name (l ∷ b) (none, s) h = omega (arith, resync_in-length (length s) s)
after_value-Shrinks n name (l ∷ b) (some v, s) h = h

after_equals-Shrinks :
    (n : ℕ) (name s : Bytes) (offered : List Challenge) (e : Option Bytes)
    → length s < n
    → ((r : Bytes) → e ≡ some r → length r ≤ length s)
    → Shrinks n (after_equals name s offered e)
unfolding after_equals
after_equals-Shrinks n name s offered none h k = h
after_equals-Shrinks n name s offered (some r) h k =
    after_value-Shrinks n name offered (value r) (omega (arith, value-length r, k r refl))

after_token-Shrinks :
    (n : ℕ) (offered : List Challenge) (t : Option (Bytes × Bytes))
    → ((name s : Bytes) → t ≡ some (name, s) → length s < n)
    → Shrinks n (after_token offered t)
unfolding after_token
after_token-Shrinks n offered none h = tt
after_token-Shrinks n offered (some (name, s)) h =
    after_equals-Shrinks n name s offered (equals s) (h name s refl) (λ r e. equals-length s e)

after_delims-Shrinks :
    (n : ℕ) (offered : List Challenge) (s : Bytes)
    → length s ≤ n
    → Shrinks n (after_delims offered s)
unfolding after_delims
after_delims-Shrinks n offered [] h = tt
after_delims-Shrinks n offered (c ∷ s) h =
    after_token-Shrinks n offered (token (c ∷ s))
      (λ name r e. omega (arith, token-length (c ∷ s) e))

pub scan_step-Shrinks :
    (s : Bytes) (offered : List Challenge) → Shrinks (length s) (scan_step s offered)
unfolding scan_step
scan_step-Shrinks s offered = after_delims-Shrinks (length s) offered (delims s) (delims-length s)

-- Any two fuels above the bytes that are left give one result, and it is a result.
abbrev Settles :
    Option (AuthResult (List Challenge)) → Option (AuthResult (List Challenge)) → Type 0
Settles a b = (r : AuthResult (List Challenge)) × (a ≡ some r) × (b ≡ some r)

continue-Settles :
    (n f g : ℕ) (st : Step)
    → Shrinks n st
    → ((s : Bytes) (o : List Challenge) → length s < n → Settles (scan_in f s o) (scan_in g s o))
    → Settles (continue (λ s o. scan_in f s o) st) (continue (λ s o. scan_in g s o) st)
unfolding continue
continue-Settles n f g (finished o) h k = (ok o, refl, refl)
continue-Settles n f g failed h k = (err unreadable, refl, refl)
continue-Settles n f g (more s o) h k = k s o h

pub scan_in-Settles :
    (f g : ℕ) (s : Bytes) (o : List Challenge)
    → length s < f
    → length s < g
    → Settles (scan_in f s o) (scan_in g s o)
unfolding scan_in
scan_in-Settles zero g s o h k = elim h [ ]
scan_in-Settles (suc f) zero s o h k = elim k [ ]
scan_in-Settles (suc f) (suc g) s o h k =
    continue-Settles (length s) f g (scan_step s o) (scan_step-Shrinks s o)
      (λ s' o' l. scan_in-Settles f g s' o' (omega arith) (omega arith))

-- The scan of any header ends, with a list of challenges or an error: the fuel is enough.
pub scan_challenges-total :
    (header : Bytes) → (r : AuthResult (List Challenge)) × (scan_challenges header ≡ some r)
unfolding scan_challenges
scan_challenges-total header =
    let n = length header + 1 in
    let (r, e, _) = scan_in-Settles n n header [] (omega arith) (omega arith) in (r, e)

and_pick-total :
    (o : Option (AuthResult (List Challenge))) (r : AuthResult (List Challenge))
    → o ≡ some r
    → (q : AuthResult Challenge) × (and_pick o ≡ some q)
and_pick-total none r e = absurd (ground arith)
and_pick-total (some (err x)) r e = (err x, refl)
and_pick-total (some (ok l)) r e = (pick_challenge l, refl)

-- Reading any header ends, with a challenge or an error: the fuel of the scan is enough, and a
-- header over the limit is refused for its length.
pub parse_challenge-total :
    (header : Bytes)
    → (r : AuthResult Challenge) × (parse_challenge header ≡ some r)
      × ((length header ≤ challenge_limit) ⊎ (r ≡ err too_long))
unfolding parse_challenge
parse_challenge-total [] = (_, refl, inl (omega arith))
parse_challenge-total (c ∷ s) = elim (Bool-cases (ltb challenge_limit (length (c ∷ s)))) [
  | inl y ↦ (err too_long, rw y refl, inr refl)
  | inr n ↦
      let (r, e) = scan_challenges-total (c ∷ s) in
      let (q, e') = and_pick-total (scan_challenges (c ∷ s)) r e in
      (q, rw n e', inl (ground (arith, n)))
]
