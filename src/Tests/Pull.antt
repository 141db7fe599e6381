-- ===== src/Tests/Pull.antt =====
-- internal/transfer/pull.go: a part of four bytes that takes two attempts.
use bigoci.Prelude.{
  ◌==◌, if◌then◌else◌, Bytes, codes, length, get_elem?, mul64, pos, leb_ℤ, ℕ, zero, suc, ◌+◌, ◌≡◌,
  refl, ap, ◌⊎◌, true, false, Option, none, some, List, [], ◌∷◌, bytes_eq, branches, ap, ap,
}
use bigoci.Errors.{is_transient, plain, fault, GoError}
use bigoci.Fetch.{
  Fetch, Answer, stream_at, unavailable, write_at, place, stream_end, stream, rewind, restart,
  check_digest, answered, attempt, attempts,
}
use bigoci.Fetch.Verified.{attempt-verified, is_taken}
use bigoci.Fetch.Whole.{Ports, fetch, fetch_all, verify, try_once}
use bigoci.Fetch.Whole.Placed.{IsApart, fetch-IsPlaced}
use bigoci.Push.{Job}
use bigoci.Pull.{
  Pull, waiting, taken, placed, update, bytes_of, Steps, here, next, taking, fetching, start,
  assembled,
}
use bigoci.Pull.Restored.{Collision, IsSized, is_complete, steps-restores}
use bigoci.Retry.{
  World, Policy, sleep, normalized, do_retry, positive_or, loop, round, resume, admitted, tried,
  judge, verdict, pause, wake, wait_after, backoff, grow,
}

-- The part's range holds other bytes, and the hasher an earlier part's.
abbrev begun : Fetch
begun = record { done = 0; hashed = codes "old"; range = codes "zzzz" }

abbrev broken : List Answer
broken =
    unavailable (plain "reset")
    ∷ stream_at (pos 0) (record {
      body = codes "ab";
      ending = some (plain "reset");
      together = true;
      refusal = none;
    })
    ∷ []

abbrev broken_off : Answer
broken_off = stream_at (pos 0) (record {
  body = codes "ab";
  ending = some (fault (plain "reset") (pos 0));
  together = true;
  refusal = none;
})

abbrev rest : Answer
rest =
    stream_at (pos 2)
      (record { body = codes "cd"; ending = none; together = false; refusal = none })

rest_arrives :
    (attempt (λ s. s) 4 (codes "abcd") (attempts (λ s. s) 4 (codes "abcd") begun broken) rest).0
    ≡ none
unfolding write_at place stream_end stream rewind restart check_digest answered attempt attempts
    bytes_eq
rest_arrives = refl

attempt-verified_example :
    let f =
      attempt (λ s. s) 4 (codes "abcd") (attempts (λ s. s) 4 (codes "abcd") begun broken) rest in
    (f.1.range ≡ codes "abcd") × (length f.1.range ≡ 4)
attempt-verified_example =
    attempt-verified (λ s. s) 4 (codes "abcd") begun broken rest refl refl (refl, (refl, tt))
      rest_arrives

-- the first attempt breaks off, the second goes on
abbrev flaky : Ports ℕ
flaky = record {
  get = λ d n v. (if v == 0 then broken_off else rest, v + 1);
  scan = λ v. (none, v);
}

abbrev calm : World (ℕ × Fetch)
calm = record {
  ctx_err = λ w. (none, w);
  wait_timer = λ d w. (none, w);
  rand_int64n = λ d w. (pos 0, w);
}

abbrev unset : Policy (ℕ × Fetch)
unset = record { attempts = pos 0; base = pos 0; cap = pos 0; sleep = none; rand = none }

calm-IsApart : IsApart calm unset
unfolding normalized sleep
calm-IsApart = record {
  looks = λ w. refl;
  sleeps = λ d w.
      branches (λ (r : Option GoError × (ℕ × Fetch)). r.1.1 ≡ w.1) (leb_ℤ d (pos 0)) _ _ refl refl;
  draws = λ d w. refl;
}

flaky_taken : (d : Bytes) (n : ℕ) (v : ℕ) → is_taken (flaky.get d n v).0 ≡ true
flaky_taken d n v = branches (λ (a : Answer). is_taken a ≡ true) (v == 0) _ _ refl refl

abbrev done : Fetch
done = record { done = 4; hashed = codes "abcd"; range = codes "abcd" }

flaky_fetched : fetch (λ s. s) flaky calm unset true 4 (codes "abcd") (0, begun) ≡ (none, (2, done))
unfolding fetch fetch_all verify try_once do_retry normalized positive_or loop round resume admitted
    tried judge verdict pause wake wait_after backoff grow sleep is_transient write_at place
    stream_end stream rewind restart check_digest answered attempt bytes_eq mul64
flaky_fetched = refl

fetch-IsPlaced_example : (done.range ≡ codes "abcd") × (length done.range ≡ 4)
fetch-IsPlaced_example =
    fetch-IsPlaced (λ s. s) flaky 4 (codes "abcd") flaky_taken calm unset calm-IsApart true
      (0, begun) 2 done refl flaky_fetched

-- a file of that part alone
abbrev job : Job
job = record { part = record { index = 0; offset = pos 0; size = pos 4 }; dgst = codes "abcd" }

abbrev old : ℕ → Bytes
old i = codes "zzzz"

abbrev fetched : Pull
fetched = record {
  progress = update (update (λ i. waiting) 0 taken) 0 placed;
  ranges = update old 0 (codes "abcd");
}

only_job : (j : Job) → get_elem? (job ∷ []) 0 ≡ some j → job ≡ j
only_job j e = cc e

old-IsSized : IsSized old (job ∷ [])
old-IsSized zero j e = ap (λ (x : Job). bytes_of x.part.size) (only_job j e)
old-IsSized (suc i) j e = absurd (cc e)

run : Steps (λ s. s) flaky calm unset true (job ∷ []) (start old) fetched
run =
    next (next here (taking 0 refl))
      (fetching 0 job 0 2 0 (codes "old") done refl refl flaky_fetched)

all_placed : is_complete fetched.progress 0 (job ∷ []) ≡ true
unfolding is_complete
all_placed = refl

steps-restores_example :
    (assembled fetched.ranges 0 (job ∷ []) ≡ codes "abcd") ⊎ Collision (λ (s : Bytes). s)
steps-restores_example =
    steps-restores (λ s. s) flaky flaky_taken calm unset calm-IsApart true (job.part ∷ [])
      (job ∷ []) (codes "abcd") old fetched (codes "abcd", refl, refl, refl, refl) old-IsSized run
      all_placed
