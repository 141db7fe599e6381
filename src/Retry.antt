-- ===== src/Retry.antt =====
-- internal/retry/policy.go and retry.go: the retry loop and its backoff.
-- The context, the clock, the random source and the operation act on a world `W`, passed from call
-- to call: each reads it and returns the next one.
pub mod Backoff
pub mod Done
pub mod Trace
pub mod Script
pub mod Log
pub mod Order
pub mod Explained
use bigoci.Prelude.{
  ltb, ◌==◌, if◌then◌else◌, mul64, ℤ, pos, negsuc, pos_part, ltb_ℤ, leb_ℤ, min_ℤ, max_ℤ, ℕ, zero,
  suc, ◌+◌, ◌-◌, ◌/◌, Option, none, some,
}
use bigoci.Errors.{GoError, after_attempts, interrupted_by, is_transient}

-- What `context`, `time` and `math/rand/v2` do to the world. `wait_timer d` is the select of
-- `sleep` between a timer of `d` and the end of the context.
pub record World (W : Type 0) : Type 0 where
  pub ctx_err : W → Option GoError × W
  pub wait_timer : ℤ → W → Option GoError × W
  pub rand_int64n : ℤ → W → ℤ × W

-- `Policy`; a nil Sleep or Rand is `none`. Durations are int64 nanoseconds.
pub record Policy (W : Type 0) : Type 0 where
  pub attempts : ℤ
  pub base : ℤ
  pub cap : ℤ
  pub sleep : Option (ℤ → W → Option GoError × W)
  pub rand : Option (ℤ → W → ℤ × W)

-- A policy with every field set, as `normalized` returns it.
pub record FilledPolicy (W : Type 0) : Type 0 where
  pub attempts : ℕ
  pub base : ℤ
  pub cap : ℤ
  pub sleep : ℤ → W → Option GoError × W
  pub rand : ℤ → W → ℤ × W

-- DefaultAttempts, DefaultBase and DefaultCap
abbrev pub default_attempts : ℕ
default_attempts = 4

abbrev pub default_base : ℤ
default_base = pos 1000000000

abbrev pub default_cap : ℤ
default_cap = pos 30000000000

-- How a round of the loop of `Do` ends: with the result of `Do`, or with a failure to try again.
pub data Round (W : Type 0) : Type 0 where
  finished : Option GoError → W → Round W
  again : GoError → W → Round W

-- int64 division by two, towards zero
abbrev pub half_ℤ : ℤ → ℤ
half_ℤ (pos n) = pos (n / 2)
half_ℤ (negsuc n) = if suc n / 2 == 0 then pos 0 else negsuc (suc n / 2 - 1)

-- the loop of `backoff`, `rounds` times
unfoldable pub grow : ℤ → ℕ → ℤ → ℤ
grow cap zero ceiling = ceiling
grow cap (suc rounds) ceiling =
    let doubled = grow cap rounds (mul64 ceiling (pos 2)) in
    if leb_ℤ cap ceiling then ceiling else if ltb_ℤ (half_ℤ cap) ceiling then cap else doubled

-- `interrupted`
unfoldable pub interrupted : GoError → ℕ → Option GoError → GoError
interrupted cause attempts none = cause
interrupted cause attempts (some last) = interrupted_by cause attempts last

-- the end of `Do` behind the loop
unfoldable pub exhausted : ℕ → Option GoError → Option GoError
exhausted attempts none = none
exhausted attempts (some e) = some (if ltb 1 attempts then after_attempts attempts e else e)

-- a field that is not positive takes its default
unfoldable pub positive_or : ℤ → ℤ → ℤ
positive_or p d = if ltb_ℤ (pos 0) p then p else d

-- a wait raised to what the far end asked for, cut off at the cap
abbrev pub raised : ℤ → ℤ → ℤ → ℤ
raised wait after cap = if ltb_ℤ (pos 0) after then max_ℤ wait (min_ℤ after cap) else wait

module _ {W : Type 0} where
  -- the default `sleep`
  unfoldable pub sleep : World W → ℤ → W → Option GoError × W
  sleep world d w = if leb_ℤ d (pos 0) then world.ctx_err w else world.wait_timer d w

  unfoldable pub normalized : World W → Policy W → FilledPolicy W
  normalized world p = record {
    attempts = pos_part (positive_or p.attempts (pos default_attempts));
    base = positive_or p.base default_base;
    cap = positive_or p.cap default_cap;
    sleep = elim p.sleep [ none ↦ sleep world | some f ↦ f ];
    rand = elim p.rand [ none ↦ world.rand_int64n | some f ↦ f ];
  }

  unfoldable pub backoff : FilledPolicy W → ℕ → W → ℤ × W
  backoff p attempt w =
      let ceiling = grow p.cap (attempt - 1) (min_ℤ p.base p.cap) in
      if leb_ℤ ceiling (pos 0) then (pos 0, w) else p.rand ceiling w

  -- the wait between two attempts, raised to what the far end asked for
  unfoldable pub wait_after : FilledPolicy W → ℕ → ℤ → W → ℤ × W
  wait_after p attempt after w =
      let (wait, w') = backoff p attempt w in (raised wait after p.cap, w')

  -- behind the sleep
  unfoldable pub wake : FilledPolicy W → ℕ → GoError → Option GoError → W → Round W
  wake p attempt e (some cause) w = finished (some (interrupted cause attempt (some e))) w
  wake p attempt e none w = again e w

  -- behind a transient failure: the last attempt breaks out of the loop, another one sleeps
  unfoldable pub pause : FilledPolicy W → ℕ → GoError → ℤ → W → Round W
  pause p attempt e after w =
      let (wait, w1) = wait_after p attempt after w in
      let (stopped, w2) = p.sleep wait w1 in
      if attempt == p.attempts
      then finished (exhausted p.attempts (some e)) w
      else wake p attempt e stopped w2

  -- behind `IsTransient`
  unfoldable pub verdict : FilledPolicy W → ℕ → GoError → Option ℤ → W → Round W
  verdict p attempt e none w = finished (some e) w
  verdict p attempt e (some after) w = pause p attempt e after w

  -- behind the look at the context that follows a failure
  unfoldable pub judge : FilledPolicy W → ℕ → GoError → Option GoError → W → Round W
  judge p attempt e (some _) w = finished (some e) w
  judge p attempt e none w = verdict p attempt e (is_transient e) w

  -- behind the operation
  unfoldable pub tried : World W → FilledPolicy W → ℕ → Option GoError → W → Round W
  tried world p attempt none w = finished none w
  tried world p attempt (some e) w = let (done, w') = world.ctx_err w in judge p attempt e done w'

  -- behind the look at the context that opens a round
  unfoldable pub admitted :
      World W
      → FilledPolicy W
      → (W → Option GoError × W)
      → ℕ
      → Option GoError
      → Option GoError
      → W
      → Round W
  admitted world p op attempt last (some cause) w =
      finished (some (interrupted cause (attempt - 1) last)) w
  admitted world p op attempt last none w =
      let (failed, w') = op w in tried world p attempt failed w'

  -- one round of the loop of `Do`
  unfoldable pub round :
      World W → FilledPolicy W → (W → Option GoError × W) → ℕ → Option GoError → W → Round W
  round world p op attempt last w =
      let (done, w') = world.ctx_err w in admitted world p op attempt last done w'

  -- the end of a round: the loop returns, or goes on with `rest`
  unfoldable pub resume : (GoError → W → Option GoError × W) → Round W → Option GoError × W
  resume rest (finished r w) = (r, w)
  resume rest (again e w) = rest e w

  -- the loop with `left` rounds to go, from `attempt` on
  unfoldable pub loop :
      World W
      → FilledPolicy W
      → (W → Option GoError × W)
      → ℕ
      → ℕ
      → Option GoError
      → W
      → Option GoError × W
  loop world p op zero attempt last w = (exhausted p.attempts last, w)
  loop world p op (suc left) attempt last w =
      resume (λ e w'. loop world p op left (attempt + 1) (some e) w')
        (round world p op attempt last w)

  -- `Do`
  unfoldable pub do_retry : World W → Policy W → (W → Option GoError × W) → W → Option GoError × W
  do_retry world p op w = let p' = normalized world p in loop world p' op p'.attempts 1 none w
