-- ===== src/Pull/Restored.antt =====
-- A pull of internal/transfer/pull.go gives back the file that a push hashed.
use bigoci.Prelude.{
  ◌==◌, ==_iff, Bool-cases, Bytes, length, get_elem?, length-append, ℕ, ◌+◌, ◌≡◌, refl, sym, ap,
  ◌∙◌, ◌≢◌, ◌⊎◌, inl, inr, Bool, true, false, ◌&&◌, Option, some, List, [], ◌∷◌, ◌++◌, append-nil,
  append_assoc, arith, bytes_eq, bytes_eq_iff, bytes_eq_iff, Bool-cases, sym, length-append,
  append-nil, append_assoc, ap, and_parts, ap,
}
use mathlib.Core.Path.{subst}
use bigoci.Plan.{Part}
use bigoci.Fetch.{Fetch}
use bigoci.Fetch.Verified.{is_taken}
use bigoci.Fetch.Whole
use bigoci.Fetch.Whole.Placed.{IsApart, fetch-IsPlaced}
use bigoci.Retry.{World, Policy}
use bigoci.Push.{Job}
use bigoci.Push.Publish.{IsHashed}
use bigoci.Pull.{
  Progress, Pull, waiting, taken, placed, update, bytes_of, Step, taking, fetching, Steps, here,
  next, start, assembled,
}

abbrev is_placed : Progress → Bool
is_placed waiting = false
is_placed taken = false
is_placed placed = true

-- Every range has the size of its part, and one that is placed has its digest.
record IsSound (digest_of : Bytes → Bytes) (jobs : List Job) (s : Pull) : Type 0 where
  sized : (i : ℕ) (j : Job) → get_elem? jobs i ≡ some j → length (s.ranges i) ≡ bytes_of j.part.size
  right :
      (i : ℕ) (j : Job)
      → get_elem? jobs i ≡ some j
      → is_placed (s.progress i) ≡ true
      → digest_of (s.ranges i) ≡ j.dgst

-- the ranges of a file that was cut to the size of the manifest
abbrev pub IsSized : (ℕ → Bytes) → List Job → Type 0
IsSized ranges jobs =
    (i : ℕ) (j : Job) → get_elem? jobs i ≡ some j → length (ranges i) ≡ bytes_of j.part.size

module _ (digest_of : Bytes → Bytes) {V : Type 0} (ports : Whole.Ports V)
    (kept : (d : Bytes) (n : ℕ) (v : V) → is_taken (ports.get d n v).0 ≡ true)
    (world : World (V × Fetch)) (policy : Policy (V × Fetch)) (apart : IsApart world policy)
    (resume : Bool) (jobs : List Job) where
  fetching-IsSound :
      (s : Pull) (i : ℕ) (job : Job) (f : Fetch)
      → IsSound digest_of jobs s
      → get_elem? jobs i ≡ some job
      → (digest_of f.range ≡ job.dgst) × (length f.range ≡ bytes_of job.part.size)
      → IsSound digest_of jobs
          (record { progress = update s.progress i placed; ranges = update s.ranges i f.range })
  fetching-IsSound s i job f r g (d, l) = record {
    sized = λ k j h. elim (Bool-cases (i == k)) [
      | inl q ↦
          let same : i ≡ k = (==_iff i k).0 q in
          let one : job ≡ j = same_job (sym g ∙ ap (λ n. get_elem? jobs n) same ∙ h) in
          rw q (l ∙ ap (λ (x : Job). bytes_of x.part.size) one)
      | inr q ↦ rw q (r.sized k j h)
    ];
    right = λ k j h p. elim (Bool-cases (i == k)) [
      | inl q ↦
          let same : i ≡ k = (==_iff i k).0 q in
          let one : job ≡ j = same_job (sym g ∙ ap (λ n. get_elem? jobs n) same ∙ h) in
          rw q (d ∙ ap (λ (x : Job). x.dgst) one)
      | inr q ↦ rw q (r.right k j h (rw q at p))
    ];
  }
    where
      same_job : {a b : Job} → ◌≡◌ {A = Option Job} (some a) (some b) → a ≡ b
      same_job e = cc e

  step-IsSound :
      {s t : Pull}
      → Step digest_of ports world policy resume jobs s t
      → IsSound digest_of jobs s
      → IsSound digest_of jobs t
  step-IsSound {s} (taking i w) r = record {
    sized = r.sized;
    right = λ k j h p. elim (Bool-cases (i == k)) [
      | inl q ↦ absurd (cc (rw q at p))
      | inr q ↦ r.right k j h (rw q at p)
    ];
  }
  step-IsSound {s} (fetching i job v w n hashed f q g e) r = fetching-IsSound s i job f r g (
      fetch-IsPlaced digest_of ports (bytes_of job.part.size) job.dgst kept world policy apart
        resume (v, record { done = n; hashed = hashed; range = s.ranges i }) w f (r.sized i job g)
        e)

  steps-IsSound :
      {s t : Pull}
      → Steps digest_of ports world policy resume jobs s t
      → IsSound digest_of jobs s
      → IsSound digest_of jobs t
  steps-IsSound here r = r
  steps-IsSound (next q m) r = step-IsSound m (steps-IsSound q r)

-- the ranges from an index on have the digests of the jobs
abbrev AreRight : (Bytes → Bytes) → (ℕ → Bytes) → ℕ → List Job → Type 0
AreRight digest_of ranges i [] = Unit {0}
AreRight digest_of ranges i (j ∷ js) =
    (digest_of (ranges i) ≡ j.dgst) × AreRight digest_of ranges (i + 1) js

-- two texts that share a digest
abbrev pub Collision : (Bytes → Bytes) → Type 0
Collision digest_of = (a : Bytes) × (b : Bytes) × (a ≢ b) × (digest_of a ≡ digest_of b)

differ : (a b : Bytes) → bytes_eq a b ≡ false → a ≢ b
differ a b h e = ground (arith, bytes_eq_iff a b, h, e)

-- ranges with the digests that were hashed are what was hashed, unless a digest collides
assembled_right :
    (digest_of : Bytes → Bytes) (ranges : ℕ → Bytes) (parts : List Part) (jobs : List Job) (i : ℕ)
    (file d : Bytes)
    → IsHashed digest_of parts jobs file d
    → AreRight digest_of ranges i jobs
    → (d ≡ digest_of (file ++ assembled ranges i jobs)) ⊎ Collision digest_of
unfolding assembled
assembled_right digest_of ranges [] [] i file d h r = inl (rw (append-nil file) h)
assembled_right digest_of ranges [] (j ∷ js) i file d h r = absurd h
assembled_right digest_of ranges (p ∷ ps) [] i file d h r = absurd h
assembled_right digest_of ranges (p ∷ ps) (j ∷ js) i file d (chunk, size, of, dgst, rest)
      (right, more) =
    elim (Bool-cases (bytes_eq chunk (ranges i))) [
      | inr q ↦ inr (chunk, ranges i, differ chunk (ranges i) q, sym dgst ∙ sym right)
      | inl q ↦
          let same : chunk ≡ ranges i = (bytes_eq_iff chunk (ranges i)).0 q in
          elim (assembled_right digest_of ranges ps js (i + 1) (file ++ chunk) d rest more) [
            | inr c ↦ inr c
            | inl e ↦ inl (
                e
                ∙ ap digest_of (append_assoc file chunk (assembled ranges (i + 1) js))
                ∙ ap (λ (b : Bytes). digest_of (file ++ (b ++ assembled ranges (i + 1) js))) same)
          ]
    ]

get_elem?-middle {ℓ} :
    {A : Type ℓ} (l : List A) (x : A) (m : List A) → get_elem? (l ++ x ∷ m) (length l) ≡ some x
get_elem?-middle [] x m = refl
get_elem?-middle (y ∷ l) x m = get_elem?-middle l x m

-- every part from an index on is placed
unfoldable pub is_complete : (ℕ → Progress) → ℕ → List Job → Bool
is_complete progress i [] = true
is_complete progress i (j ∷ js) = is_placed (progress i) && is_complete progress (i + 1) js

complete_right :
    (digest_of : Bytes → Bytes) (s : Pull) (jobs before after : List Job)
    → IsSound digest_of jobs s
    → before ++ after ≡ jobs
    → is_complete s.progress (length before) after ≡ true
    → AreRight digest_of s.ranges (length before) after
unfolding is_complete
complete_right digest_of s jobs before [] r e c = tt
complete_right digest_of s jobs before (j ∷ js) r e c =
    let (now, later) = and_parts _ _ c in
    let longer : length (before ++ j ∷ []) ≡ length before + 1 = length-append before (j ∷ []) in
    (
      r.right (length before) j
          (subst (λ (l : List Job). get_elem? l (length before) ≡ some j) e
            (get_elem?-middle before j js))
          now,
      subst (λ (n : ℕ). AreRight digest_of s.ranges n js) longer
          (complete_right digest_of s jobs (before ++ j ∷ []) js r
            (append_assoc before (j ∷ []) js ∙ e) (rw longer later)),
    )

-- A pull of the parts that a push hashed, into a file cut to the sizes of the parts, with any
-- registry, retries, order of the workers and partial file, as long as the sink takes every byte
-- that arrives: once every part is placed, the file has the digest that the push recorded, or two
-- different texts share a digest.
pub steps-restores :
    (digest_of : Bytes → Bytes) {V : Type 0} (ports : Whole.Ports V)
    (kept : (d : Bytes) (n : ℕ) (v : V) → is_taken (ports.get d n v).0 ≡ true)
    (world : World (V × Fetch)) (policy : Policy (V × Fetch)) (apart : IsApart world policy)
    (resume : Bool) (parts : List Part) (jobs : List Job) (d : Bytes) (ranges : ℕ → Bytes)
    (t : Pull)
    → IsHashed digest_of parts jobs [] d
    → IsSized ranges jobs
    → Steps digest_of ports world policy resume jobs (start ranges) t
    → is_complete t.progress 0 jobs ≡ true
    → (digest_of (assembled t.ranges 0 jobs) ≡ d) ⊎ Collision digest_of
steps-restores digest_of ports kept world policy apart resume parts jobs d ranges t h sized q c =
    let first : IsSound digest_of jobs (start ranges) = record {
      sized = sized;
      right = λ i j g p. absurd (cc p);
    } in
    let r : IsSound digest_of jobs t =
      steps-IsSound digest_of ports kept world policy apart resume jobs q first in
    elim (assembled_right digest_of t.ranges parts jobs 0 [] d h
      (complete_right digest_of t jobs [] jobs r refl c)) [ inl e ↦ inl (sym e) | inr x ↦ inr x ]
