-- ===== src/Challenge/Pick.antt =====
-- Which of the offered challenges pickChallenge answers.
use bigoci.Prelude.{
  if◌then◌else◌, Bool-cases, Bytes, codes, ◌≡◌, refl, inl, inr, true, false, Option, none, some,
  List, [], ◌∷◌, bytes_eq, bytes_eq_iff,
}
use bigoci.Challenge.{
  Challenge, AuthResult, ok, err, no_realm, unsupported_scheme, first_of_two, pick_from,
  pick_challenge,
}

-- The first challenge of the list that has the scheme.
abbrev pub first : Bytes → List Challenge → Option Challenge
first scheme [] = none
first scheme (c ∷ l) = if bytes_eq c.scheme scheme then some c else first scheme l

-- The answer, by the first Bearer challenge and the first Basic one.
abbrev pub choose : Option Challenge → Option Challenge → AuthResult Challenge
choose (some bearer) basic = if bytes_eq bearer.realm [] then err no_realm else ok bearer
choose none (some basic) = ok basic
choose none none = err unsupported_scheme

abbrev earlier : Option Challenge → Option Challenge → Option Challenge
earlier none c = c
earlier (some b) c = some b

earlier_first :
    (f : Option Challenge) (c : Challenge) (o : Option Challenge)
    → earlier (some (first_of_two f c)) o ≡ earlier f (some c)
earlier_first none c o = refl
earlier_first (some b) c o = refl

bearer_not_basic :
    (s : Bytes) → bytes_eq s (codes "bearer") ≡ true → bytes_eq s (codes "basic") ≡ false
bearer_not_basic s h = rw ((bytes_eq_iff s (codes "bearer")).0 h) (unfold bytes_eq in refl)

pick_from-choose :
    (f : Option Challenge) (l : List Challenge)
    → pick_from f l ≡ choose (first (codes "bearer") l) (earlier f (first (codes "basic") l))
unfolding pick_from
pick_from-choose none [] = refl
pick_from-choose (some b) [] = refl
pick_from-choose f (c ∷ l) = elim (Bool-cases (bytes_eq c.scheme (codes "bearer"))) [
  | inl y ↦ rw y
  | inr n ↦ rw n (elim (Bool-cases (bytes_eq c.scheme (codes "basic"))) [
    | inl y ↦ rw (
      y,
      pick_from-choose (some (first_of_two f c)) l,
      earlier_first f c (first (codes "basic") l),
    )
    | inr m ↦ rw (m, pick_from-choose f l)
  ])
]

-- pickChallenge answers the first Bearer challenge wherever it stands, and refuses the list if that
-- one names no realm, also beside a Basic challenge; without a Bearer challenge it answers the first
-- Basic one, and without either it refuses the list.
pub pick_challenge-choose :
    (l : List Challenge)
    → pick_challenge l ≡ choose (first (codes "bearer") l) (first (codes "basic") l)
unfolding pick_challenge
pick_challenge-choose l = pick_from-choose none l
