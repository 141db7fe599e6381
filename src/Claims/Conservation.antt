-- ===== src/Claims/Conservation.antt =====
-- Every part is credited once, whatever the workers' order (push.go, `claimSet`).
use bigoci.Prelude.{
  if◌then◌else◌, Bool-cases, ℕ, suc, ◌+◌, ◌≡◌, refl, inl, inr, true, false, ◌&&◌, Option, none,
  some, List, [], ◌∷◌, arith, lookup, lookup-insert, bytes_eq, bytes_eq_iff,
}
use native.Mathlib.Nat.{add_assoc, zero-add}
use bigoci.Claims.{Digest, Claim, Claims, new_claim_set, take_from, take, waiting_of, settle}

-- The steps of the workers of a push, in the order in which they take the lock.
pub data Event : Type 0 where
  took : Digest → Event
  settled : Digest → Event

-- The claim is taken and its upload still runs.
abbrev pub IsOpen : Option Claim → Type 0
IsOpen none = ⊥
IsOpen (some c) = c.done ≡ false

abbrev pub after : Event → Claims → Claims
after (took d) c = (take d c).2
after (settled d) c = (settle d c).1

-- Only the worker that was told to upload settles a digest, and only once.
abbrev pub IsOrderly : Claims → List Event → Type 0
IsOrderly c [] = Unit
IsOrderly c (took d ∷ es) = IsOrderly (after (took d) c) es
IsOrderly c (settled d ∷ es) = IsOpen (lookup d c) × IsOrderly (after (settled d) c) es

abbrev pub run : List Event → Claims → Claims
run [] c = c
run (e ∷ es) c = run es (after e c)

-- How many parts of digest `d` have asked, how many were told to upload, and how many are credited.
abbrev pub asks : Digest → List Event → ℕ
asks d [] = 0
asks d (took e ∷ es) = (if bytes_eq e d then 1 else 0) + asks d es
asks d (settled e ∷ es) = asks d es

abbrev pub uploads : Digest → Claims → List Event → ℕ
uploads d c [] = 0
uploads d c (took e ∷ es) =
    (if bytes_eq e d && (take e c).0 then 1 else 0) + uploads d (after (took e) c) es
uploads d c (settled e ∷ es) = uploads d (after (settled e) c) es

abbrev pub credits : Digest → Claims → List Event → ℕ
credits d c [] = 0
credits d c (took e ∷ es) =
    (if bytes_eq e d then (take e c).1 else 0) + credits d (after (took e) c) es
credits d c (settled e ∷ es) =
    (if bytes_eq e d then (settle e c).0 else 0) + credits d (after (settled e) c) es

-- What the map says of a digest with so many asks, uploads and credits behind it.
abbrev pub Balanced : ℕ → ℕ → ℕ → Option Claim → Type 0
Balanced asked uploaded credited none = (asked ≡ 0) × (uploaded ≡ 0) × (credited ≡ 0)
Balanced asked uploaded credited (some c) =
    (uploaded ≡ 1) × (if c.done then credited ≡ asked else (credited ≡ 0) × (asked ≡ suc c.waiting))

took_same :
    (o : Option Claim) (a u k : ℕ)
    → Balanced a u k o
    → Balanced
        (a + 1)
        (u + (if (take_from o).0 then 1 else 0))
        (k + (take_from o).1)
        (some (take_from o).2)
unfolding take_from
took_same none a u k b = ground arith
took_same (some c) a u k b = ground arith

settled_same :
    (o : Option Claim) (a u k : ℕ)
    → IsOpen o
    → Balanced a u k o
    → Balanced a u (k + (1 + waiting_of o)) (some (record { done = true; waiting = 0 }))
unfolding waiting_of
settled_same none a u k h b = absurd h
settled_same (some c) a u k h b = ground arith

nothing_added :
    (a u k : ℕ) (o : Option Claim) → Balanced a u k o → Balanced (a + 0) (u + 0) (k + 0) o
nothing_added a u k o b =
    let ea : a + 0 ≡ a = omega arith in
    let eu : u + 0 ≡ u = omega arith in let ek : k + 0 ≡ k = omega arith in rw (ea, eu, ek) b

took-Balanced :
    (d e : Digest) (c : Claims) (a u k : ℕ)
    → Balanced a u k (lookup d c)
    → Balanced
        (a + (if bytes_eq e d then 1 else 0))
        (u + (if bytes_eq e d && (take e c).0 then 1 else 0))
        (k + (if bytes_eq e d then (take e c).1 else 0))
        (lookup d (after (took e) c))
unfolding take
took-Balanced d e c a u k b = elim (Bool-cases (bytes_eq e d)) [
  | inl y ↦
      rw (lookup-insert e d (take_from (lookup e c)).2 c, y, (bytes_eq_iff e d).0 y)
        (took_same (lookup d c) a u k b)
  | inr n ↦
      rw (lookup-insert e d (take_from (lookup e c)).2 c, n) (nothing_added a u k (lookup d c) b)
]

settled-Balanced :
    (d e : Digest) (c : Claims) (a u k : ℕ)
    → IsOpen (lookup e c)
    → Balanced a u k (lookup d c)
    → Balanced a u
        (k + (if bytes_eq e d then (settle e c).0 else 0))
        (lookup d (after (settled e) c))
unfolding settle
settled-Balanced d e c a u k o b = elim (Bool-cases (bytes_eq e d)) [
  | inl y ↦
      let same = (bytes_eq_iff e d).0 y in
      rw (lookup-insert e d (record { done = true; waiting = 0 }) c, y, same)
        (settled_same (lookup d c) a u k (rw same at o) b)
  | inr n ↦
      let ek : k + 0 ≡ k = omega arith in
      rw (lookup-insert e d (record { done = true; waiting = 0 }) c, n, ek) b
]

run-Balanced :
    (d : Digest) (es : List Event) (c : Claims) (a u k : ℕ)
    → IsOrderly c es
    → Balanced a u k (lookup d c)
    → Balanced (a + asks d es) (u + uploads d c es) (k + credits d c es) (lookup d (run es c))
run-Balanced d [] c a u k h b = nothing_added a u k (lookup d c) b
run-Balanced d (took e ∷ es) c a u k h b =
    simp (← add_assoc) (run-Balanced d es (after (took e) c) _ _ _ h (took-Balanced d e c a u k b))
run-Balanced d (settled e ∷ es) c a u k (o, h) b =
    simp (← add_assoc)
      (run-Balanced d es (after (settled e) c) _ _ _ h (settled-Balanced d e c a u k o b))

-- However the steps of the workers interleave: of the parts that share a digest exactly one is told
-- to upload it; until that upload settles none of them is credited and the claim remembers every
-- other one; once it has settled, exactly as many parts are credited as have asked.
pub claims-Balanced :
    (d : Digest) (es : List Event)
    → IsOrderly new_claim_set es
    → Balanced
        (asks d es)
        (uploads d new_claim_set es)
        (credits d new_claim_set es)
        (lookup d (run es new_claim_set))
claims-Balanced d es h =
    simp zero-add at (run-Balanced d es new_claim_set 0 0 0 h (unfold lookup in (refl, refl, refl)))
