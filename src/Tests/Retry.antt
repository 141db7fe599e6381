-- ===== src/Tests/Retry.antt =====
-- internal/retry on concrete runs.
use bigoci.Prelude.{
  ltb, if◌then◌else◌, take, mul64, ℤ, pos, pos_part, ℕ, ◌+◌, ◌/◌, ◌≤◌, ◌<◌, ◌≡◌, refl, true, Option,
  none, some, [], ◌∷◌, arith,
}
use bigoci.Errors.{GoError, plain, fault, after_attempts, is_transient}
use bigoci.Retry.{
  World, Policy, FilledPolicy, grow, backoff, wait_after, normalized, positive_or, exhausted, wake,
  pause, verdict, judge, tried, admitted, round, resume, loop, do_retry,
}
use bigoci.Retry.Backoff.{IsSound}
use bigoci.Retry.Log.{calls, sleeps, recorded}
use bigoci.Retry.Trace.{Bounded, do_retry-bounds}
use bigoci.Retry.Script.{
  Script, steady_world, steady_policy, policy, play, outcome, do_retry-outcome,
}
use bigoci.Retry.Order.{IsOrderly, is_over, answer}
use bigoci.Retry.Explained.{do_retry-IsOrderly}

abbrev lost : GoError
lost = fault (plain "connection reset") (pos 0)

abbrev limited : GoError
limited = fault (plain "429") (pos 7)

abbrev refused : GoError
refused = plain "404"

-- a draw of the lower half of the range
abbrev halve : ℤ → ℤ
halve n = pos (pos_part n / 2)

abbrev recovers : Script
recovers = some lost ∷ some limited ∷ none ∷ none ∷ []

abbrev fails : Script
fails = some lost ∷ some limited ∷ some lost ∷ none ∷ []

recovers_runs :
    do_retry (steady_world halve) (policy halve 3 (pos 4) (pos 10)) play recovers
    ≡ (none, none ∷ [])
unfolding do_retry normalized positive_or loop round admitted tried judge verdict pause wake resume
    wait_after backoff grow mul64 is_transient exhausted
recovers_runs = refl

fails_runs :
    do_retry (steady_world halve) (policy halve 3 (pos 4) (pos 10)) play fails
    ≡ (some (after_attempts 3 lost), none ∷ [])
unfolding do_retry normalized positive_or loop round admitted tried judge verdict pause wake resume
    wait_after backoff grow mul64 is_transient exhausted
fails_runs = refl

grow_runs : grow (pos 30) 9 (pos 4) ≡ pos 30
unfolding grow mul64
grow_runs = refl

half_below : (n : ℕ) (w : Script) → 0 < n → (m : ℕ) × (halve (pos n) ≡ pos m) × (m < n)
half_below n w h = (n / 2, refl, omega arith)

abbrev three : FilledPolicy Script
three = steady_policy halve 3 (pos 4) (pos 10)

three-IsSound : IsSound three
three-IsSound = record {
  base_nat = 4;
  cap_nat = 10;
  base_eq = refl;
  cap_eq = refl;
  base_le = omega arith;
  cap_le = omega arith;
  base_pos = omega arith;
  cap_pos = omega arith;
  draws = half_below;
}

do_retry-bounds_example :
    let q = normalized (steady_world halve) (policy halve 3 (pos 4) (pos 10)) in
    let log = (recorded (steady_world halve) (policy halve 3 (pos 4) (pos 10)) play fails).1.1 in
    (calls log ≤ q.attempts)
    × (sleeps log < q.attempts)
    × (sleeps log ≤ calls log)
    × Bounded q.cap log
do_retry-bounds_example =
    do_retry-bounds (steady_world halve) (policy halve 3 (pos 4) (pos 10)) play fails (omega arith)
      (omega arith) (unfold normalized in half_below)

do_retry-outcome_example :
    (do_retry (steady_world halve) (policy halve 3 (pos 4) (pos 10)) play fails).0
    ≡ outcome 3 none (take 3 fails)
do_retry-outcome_example =
    do_retry-outcome halve 3 (pos 4) (pos 10) fails (omega arith) (omega arith)

-- A world that counts the looks at the context, which has ended from the second one on.
abbrev ending : World ℕ
ending = record {
  ctx_err = λ n. (if ltb n 1 then none else some (plain "context canceled"), n + 1);
  wait_timer = λ d n. (none, n);
  rand_int64n = λ m n. (pos 0, n);
}

abbrev unset : Policy ℕ
unset = record { attempts = pos 0; base = pos 0; cap = pos 0; sleep = none; rand = none }

abbrev failing : ℕ → Option GoError × ℕ
failing n = (some lost, n)

-- The context ends during the first call.
ending_runs : do_retry ending unset failing 0 ≡ (some lost, 2)
unfolding do_retry normalized positive_or loop round admitted tried judge resume
ending_runs = refl

do_retry-IsOrderly_example :
    let (result, (w', log)) = recorded ending unset failing 0 in
    IsOrderly (normalized ending unset).attempts log
    × (is_over (normalized ending unset).attempts log ≡ true)
    × (result ≡ answer log)
    × (do_retry ending unset failing 0 ≡ (result, w'))
do_retry-IsOrderly_example = do_retry-IsOrderly ending unset failing 0
