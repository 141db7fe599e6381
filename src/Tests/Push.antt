-- ===== src/Tests/Push.antt =====
-- internal/transfer/push.go on a file of two equal parts.
use bigoci.Prelude.{
  Bool-cases, Bytes, codes, length, All, add64, pos, leb_ℤ, max_int64, ℕ, ◌+◌, ◌≤◌, ◌≡◌, refl, ap,
  ◌⊎◌, inl, inr, Bool, true, Option, none, List, [], ◌∷◌, arith, lookup, insert, bytes_eq,
  bytes_eq_iff, bytes_eq_iff, Bool-cases, insert, branches, ap,
}
use mathlib.Core.Path.{subst}
use bigoci.Errors.{GoError}
use bigoci.Plan.{Part}
use bigoci.Claims.{take, take_from}
use bigoci.Retry.{
  sleep, World, Policy, do_retry, normalized, positive_or, loop, round, resume, admitted, tried,
}
use bigoci.Push.{
  Job, Ports, ReadEnd, going, eof, fresh_tagged, tag_reads, read_tagged, read_checked,
  upload_attempts, attempt, claim_job, settle_job,
}
use bigoci.Push.Reads.{is_unbroken, received, given, tag_reads-digest}
use bigoci.Push.Workers.{
  Push, Keeps, claimed_by, settled_by, taking, uploading, Steps, here, next, start, is_among,
  without,
}
use bigoci.Push.Publish.{Source, hash_parts, hash_from, IsHashed, hash_parts-IsHashed}
use bigoci.Push.Publish.Ordered.{
  Holds, config_attempt, ensure_empty_config, manifest_attempt, write_body, publish, publish-Holds,
}
use bigoci.Retry.Done.{IsKept}
use bigoci.Push.Stored.{IsHonest, steps-stored}

abbrev same : Bytes → Bytes
same b = b

abbrev two_chunks : List (Bytes × ReadEnd)
two_chunks = (codes "ab", going) ∷ (codes "c", eof) ∷ []

chunks_unbroken : is_unbroken (tag_reads same (codes "abc") (pos 3) two_chunks fresh_tagged) ≡ true
unfolding is_unbroken tag_reads read_tagged read_checked bytes_eq add64
chunks_unbroken = refl

chunks_long : 3 ≤ length (received (tag_reads same (codes "abc") (pos 3) two_chunks fresh_tagged))
unfolding received tag_reads read_tagged read_checked bytes_eq add64
chunks_long = omega arith

chunks_given : given two_chunks ≤ max_int64
unfolding given
chunks_given = omega arith

tag_reads-digest_example :
    received (tag_reads same (codes "abc") (pos 3) two_chunks fresh_tagged) ≡ codes "abc"
tag_reads-digest_example =
    tag_reads-digest same (codes "abc") 3 (omega arith) two_chunks (omega arith) chunks_given
      chunks_unbroken chunks_long

-- a registry that takes everything
abbrev registry : Ports (List Bytes)
registry = record {
  exists = λ d w. (inr (is_among d w), w);
  put = λ d size reads w. (none, d ∷ w);
  section = λ p w. two_chunks;
}

abbrev holds : List Bytes → Bytes → Bool
holds w d = is_among d w

among_head : (d : Bytes) (w : List Bytes) → is_among d (d ∷ w) ≡ true
unfolding is_among
among_head d w = ground (arith, bytes_eq_iff d d)

found_among :
    (d : Bytes) (w v : List Bytes)
    → ◌≡◌ {A = (GoError ⊎ Bool) × List Bytes} (inr (is_among d w), w) (inr true, v)
    → is_among d v ≡ true
found_among d w v e = ground (
  arith,
  ap (λ (r : (GoError ⊎ Bool) × List Bytes). r.0) e,
  ap (λ (r : (GoError ⊎ Bool) × List Bytes). r.1) e,
)

registry-IsHonest : IsHonest registry holds
registry-IsHonest = record {
  found = found_among;
  placed = λ d size reads w v e.
      subst (λ (x : List Bytes). is_among d x ≡ true) (ap (λ r. r.1) e) (among_head d w);
}

abbrev calm : World (List Bytes × Bool)
calm = record {
  ctx_err = λ w. (none, w);
  wait_timer = λ d w. (none, w);
  rand_int64n = λ d w. (pos 0, w);
}

abbrev unset : Policy (List Bytes × Bool)
unset = record { attempts = pos 0; base = pos 0; cap = pos 0; sleep = none; rand = none }

abbrev first : Job
first = record { part = record { index = 0; offset = pos 0; size = pos 3 }; dgst = codes "abc" }

abbrev second : Job
second = record { part = record { index = 1; offset = pos 3; size = pos 3 }; dgst = codes "abc" }

abbrev jobs : List Job
jobs = first ∷ second ∷ []

-- both parts are taken, the second one skips
abbrev one_taken : Push (List Bytes)
one_taken = claimed_by first (second ∷ []) (claim_job first []) (start [] jobs)

abbrev both_taken : Push (List Bytes)
both_taken = claimed_by second [] (claim_job second one_taken.claims) one_taken

abbrev uploaded : Push (List Bytes)
uploaded = settled_by first (settle_job first true both_taken.claims) (codes "abc" ∷ []) both_taken

first_busy : is_among first.dgst both_taken.busy ≡ true
unfolding is_among claim_job take take_from lookup bytes_eq insert
first_busy = refl

first_uploads : upload_attempts same registry calm unset first [] ≡ (none, (codes "abc" ∷ [], true))
unfolding upload_attempts do_retry normalized positive_or loop round resume admitted tried attempt
    is_among
first_uploads = refl

nothing_lost : Keeps holds [] (codes "abc" ∷ [])
unfolding is_among
nothing_lost d e = absurd (cc e)

run : Steps same registry calm unset holds (start [] jobs) uploaded
run = next (next (next here (taking first (second ∷ []) refl)) (taking second [] refl)) (
    uploading first [] (codes "abc" ∷ []) (codes "abc" ∷ []) true first_busy first_uploads
      (λ d e. e) nothing_lost)

none_busy : uploaded.busy ≡ []
unfolding claim_job take take_from lookup bytes_eq insert without
none_busy = refl

steps-stored_example : All (λ (j : Job). holds (codes "abc" ∷ []) j.dgst ≡ true) jobs
steps-stored_example =
    steps-stored same registry calm unset holds registry-IsHonest jobs [] uploaded run refl
      none_busy

-- the file of the two parts, read in one chunk each
abbrev file : Source ℕ
file = record { ctx_err = λ w. (none, w); copy = λ p w. ((codes "abc", none), w + 1) }

abbrev parts : List Part
parts = first.part ∷ second.part ∷ []

file_hashed : (hash_parts same file parts 0).outcome ≡ inr (codes "abcabc")
unfolding hash_parts hash_from
file_hashed = refl

hash_parts-IsHashed_example :
    IsHashed same parts (hash_parts same file parts 0).jobs [] (codes "abcabc")
hash_parts-IsHashed_example = hash_parts-IsHashed same file parts 0 (codes "abcabc") file_hashed

-- the registry again, for the end of a push
abbrev config : Bytes
config = codes "{}"

abbrev calm_end : World (List Bytes)
calm_end = record {
  ctx_err = λ w. (none, w);
  wait_timer = λ d w. (none, w);
  rand_int64n = λ d w. (pos 0, w);
}

abbrev unset_end : Policy (List Bytes)
unset_end = record { attempts = pos 0; base = pos 0; cap = pos 0; sleep = none; rand = none }

abbrev calm_write : World (List Bytes × Bytes)
calm_write = record {
  ctx_err = λ w. (none, w);
  wait_timer = λ d w. (none, w);
  rand_int64n = λ d w. (pos 0, w);
}

abbrev unset_write : Policy (List Bytes × Bytes)
unset_write = record { attempts = pos 0; base = pos 0; cap = pos 0; sleep = none; rand = none }

abbrev tagged : Bytes → List Bytes → (GoError ⊎ Bytes) × List Bytes
tagged body w = (inr (codes "m"), w)

more_held : (c : Bytes) (w needed : List Bytes) → Holds holds needed w → Holds holds needed (c ∷ w)
unfolding is_among
more_held c w [] h = tt
more_held c w (d ∷ l) (h, hs) = (ground (arith, h), more_held c w l hs)

config_kept :
    (needed w : List Bytes)
    → Holds holds needed w
    → Holds holds needed (config_attempt registry config config w).1
unfolding config_attempt
config_kept needed w h = elim (Bool-cases (is_among config w)) [
  | inl q ↦ rw q h
  | inr q ↦ rw q (more_held config w needed h)
]

end-IsKept :
    (needed : List Bytes)
    → IsKept
        (Holds holds needed)
        calm_end
        (normalized calm_end unset_end)
        (config_attempt registry config config)
unfolding normalized sleep
end-IsKept needed = record {
  looks = λ w h. h;
  sleeps = λ d w h.
      branches (λ (r : Option GoError × List Bytes). Holds holds needed r.1) (leb_ℤ d (pos 0)) _ _ h
        h;
  draws = λ d w h. h;
  acts = config_kept needed;
}

write-IsKept :
    (needed : List Bytes) (body : Bytes)
    → IsKept
        (λ (x : List Bytes × Bytes). Holds holds needed x.0)
        calm_write
        (normalized calm_write unset_write)
        (manifest_attempt tagged body)
unfolding normalized sleep manifest_attempt
write-IsKept needed body = record {
  looks = λ w h. h;
  sleeps = λ d w h.
      branches (λ (r : Option GoError × (List Bytes × Bytes)). Holds holds needed r.1.0)
        (leb_ℤ d (pos 0)) _ _ h h;
  draws = λ d w h. h;
  acts = λ w h. h;
}

published :
    publish registry config config tagged calm_end unset_end calm_write unset_write
      (inr (codes "text"))
      (codes "abc" ∷ [])
    ≡ (inr (codes "m"), config ∷ codes "abc" ∷ [])
unfolding publish ensure_empty_config write_body do_retry normalized positive_or loop round resume
    admitted tried config_attempt manifest_attempt is_among bytes_eq
published = refl

publish-Holds_example :
    (x : List Bytes) × (body : Bytes) × Holds holds (config ∷ codes "abc" ∷ []) x
    × (◌≡◌ {A = GoError ⊎ Bytes} (inr (codes "text")) (inr body))
    × (tagged body x ≡ (inr (codes "m"), config ∷ codes "abc" ∷ []))
publish-Holds_example =
    publish-Holds registry config config tagged calm_end unset_end calm_write unset_write holds
      registry-IsHonest end-IsKept write-IsKept (codes "abc" ∷ []) (inr (codes "text"))
      (codes "abc" ∷ []) (config ∷ codes "abc" ∷ []) (codes "m") (among_head (codes "abc") [], tt)
      published
