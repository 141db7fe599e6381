-- ===== src/Retry/Script.antt =====
-- What `Do` returns while the context lives, against a description of the outcome by the list of
-- what the attempts bring.
use bigoci.Prelude.{
  leb, ◌==◌, if◌then◌else◌, Bool-cases, length, take, ℤ, pos, leb_ℤ, min_ℤ, ℕ, zero, suc, ◌+◌, ◌-◌,
  ◌≤◌, ◌<◌, ◌≡◌, refl, inl, inr, Bool, true, false, Option, none, some, List, [], ◌∷◌, arith,
}
use bigoci.Errors.{GoError, is_transient, after_attempts}
use bigoci.Retry.{
  World, Policy, positive_or, default_attempts, default_base, default_cap, normalized, do_retry,
  FilledPolicy, finished, again, exhausted, grow, backoff, wait_after, wake, pause, verdict, judge,
  tried, admitted, round, resume, loop,
}

-- The world is the list of outcomes that the attempts to come will have: nil or an error. The
-- context never ends, no sleep is cut short, and the random source is any function.
abbrev pub Script : Type 0
Script = List (Option GoError)

module _ (draw : ℤ → ℤ) where
  abbrev pub steady_world : World Script
  steady_world = record {
    ctx_err = λ w. (none, w);
    wait_timer = λ d w. (none, w);
    rand_int64n = λ n w. (draw n, w);
  }

  abbrev pub steady_policy : ℕ → ℤ → ℤ → FilledPolicy Script
  steady_policy n base top = record {
    attempts = n;
    base = base;
    cap = top;
    sleep = λ d w. (none, w);
    rand = λ m w. (draw m, w);
  }

-- A policy that names every field.
abbrev pub policy : (ℤ → ℤ) → ℕ → ℤ → ℤ → Policy Script
policy draw n base top = record {
  attempts = pos n;
  base = base;
  cap = top;
  sleep = some (λ d w. (none, w));
  rand = some (λ m w. (draw m, w));
}

-- The operation brings the next outcome of the list.
abbrev pub play : Script → Option GoError × Script
play [] = (none, [])
play (o ∷ os) = (o, os)

abbrev pub is_none {ℓ} : {A : Type ℓ} → Option A → Bool
is_none none = true
is_none (some _) = false

-- An outcome that repeating cannot change: success, or a failure that nobody marked transient.
abbrev pub is_settled : Option GoError → Bool
is_settled none = true
is_settled (some e) = is_none (is_transient e)

-- The last failure, with the number of attempts where there was more than one.
abbrev pub wrapped : ℕ → Option GoError → Option GoError
wrapped n none = none
wrapped n (some e) = some (if leb n 1 then e else after_attempts n e)

exhausted-wrapped : (n : ℕ) (last : Option GoError) → exhausted n last ≡ wrapped n last
unfolding exhausted
exhausted-wrapped n none = refl
exhausted-wrapped n (some e) = ground arith

-- The first settled outcome of a list, if there is one, and otherwise its last outcome, wrapped
-- with the count `n`.
abbrev pub outcome : ℕ → Option GoError → Script → Option GoError
outcome n last [] = wrapped n last
outcome n last (o ∷ os) = if is_settled o then o else outcome n o os

wait_after_steady :
    (draw : ℤ → ℤ) (n : ℕ) (base top : ℤ) (attempt : ℕ) (after : ℤ) (w : Script)
    → (wait_after (steady_policy draw n base top) attempt after w).1 ≡ w
unfolding wait_after backoff
wait_after_steady draw n base top attempt after w =
    elim (Bool-cases (leb_ℤ (grow top (attempt - 1) (min_ℤ base top)) (pos 0))) [
      | inl y ↦ rw y
      | inr m ↦ rw m
    ]

module _ (draw : ℤ → ℤ) (n : ℕ) (base top : ℤ) where
  verdict_steady :
      (attempt : ℕ) (e : GoError) (t : Option ℤ) (w : Script)
      → verdict (steady_policy draw n base top) attempt e t w ≡ (
          if is_none t
          then finished (some e) w
          else if attempt == n
          then finished (wrapped n (some e)) w
          else again e w)
  unfolding verdict pause wake
  verdict_steady attempt e none w = refl
  verdict_steady attempt e (some after) w =
      rw (wait_after_steady draw n base top attempt after w, exhausted-wrapped n (some e))

  loop_steady :
      (left attempt : ℕ) (last : Option GoError) (w : Script)
      → attempt + left ≡ n + 1
      → left ≤ length w
      → (loop (steady_world draw) (steady_policy draw n base top) play left attempt last w).0
        ≡ outcome n last (take left w)
  unfolding loop round admitted tried judge resume
  loop_steady zero attempt last w e l = exhausted-wrapped n last
  loop_steady (suc left) attempt last [] e l = absurd (omega arith)
  loop_steady (suc left) attempt last (none ∷ os) e l = refl
  loop_steady (suc zero) attempt last (some err ∷ os) e l =
      rw (verdict_steady attempt err (is_transient err) os, is_last)
        (elim (Bool-cases (is_none (is_transient err))) [ inl y ↦ rw y | inr m ↦ rw m ])
    where
      is_last : (attempt == n) ≡ true
      is_last = ground arith
  loop_steady (suc (suc left)) attempt last (some err ∷ os) e l =
      let ih = loop_steady (suc left) (attempt + 1) (some err) os (omega arith) (omega arith) in
      rw (verdict_steady attempt err (is_transient err) os, goes_on)
        (elim (Bool-cases (is_none (is_transient err))) [ inl y ↦ rw y | inr m ↦ rw m ih ])
    where
      goes_on : (attempt == n) ≡ false
      goes_on = ground arith

positive_or-pos : (n : ℕ) (d : ℤ) → 0 < n → positive_or (pos n) d ≡ pos n
unfolding positive_or
positive_or-pos n d h = ground arith

-- While the context lives and no sleep is cut short, `Do` returns the first outcome that repeating
-- cannot change (nil, or a failure that nobody marked transient) among those of its first
-- `attempts` tries, unwrapped; where each of these is a transient failure it returns the last one,
-- wrapped with the number of attempts if the policy allows more than one. The list must hold that
-- many outcomes.
pub do_retry-outcome :
    (draw : ℤ → ℤ) (attempts : ℕ) (base top : ℤ) (w : Script)
    → 0 < attempts
    → attempts ≤ length w
    → (do_retry (steady_world draw) (policy draw attempts base top) play w).0
      ≡ outcome attempts none (take attempts w)
unfolding do_retry normalized
do_retry-outcome draw attempts base top w h l =
    rw (positive_or-pos attempts (pos default_attempts) h) (
      loop_steady draw attempts (positive_or base default_base) (positive_or top default_cap)
        attempts 1 none w (omega arith) l)
