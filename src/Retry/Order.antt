-- ===== src/Retry/Order.antt =====
-- The order of what `Do` does, and what it returns, said of its log alone.
use bigoci.Prelude.{
  ltb, if◌then◌else◌, ℤ, ℕ, ◌≡◌, refl, Bool, true, false, not, ◌&&◌, Option, none, some, List, [],
  ◌∷◌, arith,
}
use bigoci.Errors.{GoError, after_attempts, interrupted_by, is_transient}
use bigoci.Retry.Log.{Event, looked, called, slept, calls}

abbrev pub is_some {ℓ} : {A : Type ℓ} → Option A → Bool
is_some none = false
is_some (some a) = true

-- The events that may follow a log, whose latest event stands first. A look at the context comes
-- first of all, behind a failed call, and behind a sleep that was not interrupted.
abbrev pub may_look : List Event → Bool
may_look [] = true
may_look (looked r ∷ l) = false
may_look (called r ∷ l) = is_some r
may_look (slept d r ∷ l) = not (is_some r)

-- the log ends in a call that failed, and in one whose failure is transient
abbrev pub just_failed : List Event → Bool
just_failed (called r ∷ l) = is_some r
just_failed l = false

abbrev pub failed_transiently : List Event → Bool
failed_transiently (called (some e) ∷ l) = is_some (is_transient e)
failed_transiently l = false

-- A call comes behind a look that found the context alive, but not the look behind a failed call.
abbrev pub may_call : List Event → Bool
may_call (looked none ∷ l) = not (just_failed l)
may_call l = false

-- A sleep comes behind the look, with the context alive, behind a call that failed transiently,
-- as long as attempts are left.
abbrev pub may_sleep : ℕ → List Event → Bool
may_sleep attempts (looked none ∷ l) = failed_transiently l && ltb (calls l) attempts
may_sleep attempts l = false

abbrev pub may_follow : ℕ → Event → List Event → Bool
may_follow attempts (looked r) l = may_look l
may_follow attempts (called r) l = may_call l
may_follow attempts (slept d r) l = may_sleep attempts l

abbrev pub IsOrderly : ℕ → List Event → Type 0
IsOrderly attempts [] = Unit
IsOrderly attempts (e ∷ l) = (may_follow attempts e l ≡ true) × IsOrderly attempts l

-- A run is over behind a call that succeeded, a look that found the context ended, an interrupted
-- sleep, and where after a failed call no sleep may come.
abbrev pub is_over : ℕ → List Event → Bool
is_over attempts [] = false
is_over attempts (looked none ∷ l) = just_failed l && not (may_sleep attempts (looked none ∷ l))
is_over attempts (looked (some cause) ∷ l) = true
is_over attempts (called r ∷ l) = not (is_some r)
is_over attempts (slept d r ∷ l) = is_some r

-- the failure of the latest call
abbrev pub failure : List Event → Option GoError
failure [] = none
failure (looked r ∷ l) = failure l
failure (called r ∷ l) = r
failure (slept d r ∷ l) = failure l

-- The answer where the context stops the run after `n` calls, and where the run gives up.
abbrev pub stopped : GoError → ℕ → Option GoError → Option GoError
stopped cause n none = some cause
stopped cause n (some e) = some (interrupted_by cause n e)

abbrev pub spent : ℕ → GoError → Option ℤ → GoError
spent n e none = e
spent n e (some after) = if ltb 1 n then after_attempts n e else e

abbrev pub given_up : ℕ → Option GoError → Option GoError
given_up n none = none
given_up n (some e) = some (spent n e (is_transient e))

-- What a run with this log returns.
abbrev pub answer : List Event → Option GoError
answer [] = none
answer (called r ∷ l) = none
answer (looked none ∷ l) = given_up (calls l) (failure l)
answer (looked (some cause) ∷ l) =
    if just_failed l then failure l else stopped cause (calls l) (failure l)
answer (slept d none ∷ l) = none
answer (slept d (some cause) ∷ l) = stopped cause (calls l) (failure l)

-- A round starts at the very start, or behind a sleep that was not interrupted.
abbrev pub starts : List Event → Bool
starts [] = true
starts (slept d none ∷ l) = true
starts l = false

pub starts-may_look : (l : List Event) → starts l ≡ true → may_look l ≡ true
starts-may_look [] h = refl
starts-may_look (slept d none ∷ l) h = refl
starts-may_look l h = ground arith

pub starts-just_failed : (l : List Event) → starts l ≡ true → just_failed l ≡ false
starts-just_failed [] h = refl
starts-just_failed (slept d none ∷ l) h = refl
starts-just_failed l h = ground arith
