-- ===== src/Retry/Done.antt =====
-- Where `Do` returns nil, and what it keeps of the world on the way.
use bigoci.Prelude.{
  ◌==◌, ℤ, pos, leb_ℤ, min_ℤ, ℕ, zero, suc, ◌+◌, ◌-◌, ◌<◌, ◌≡◌, refl, ◌∙◌, Option, none, some,
  arith, branches,
}
use bigoci.Errors.{GoError, is_transient}
use bigoci.Retry.{
  World, Policy, FilledPolicy, Round, finished, again, normalized, judge, verdict, pause, wake,
  tried, admitted, round, resume, loop, do_retry, exhausted, wait_after, backoff, grow,
}
use bigoci.Retry.Backoff.{normalized-attempts}

-- The context, the sleep, the random source and the operation keep a property of the world.
pub record IsKept {W : Type 0} (P : W → Type 0) (world : World W) (p : FilledPolicy W)
    (op : W → Option GoError × W) : Type 0 where
  pub looks : (w : W) → P w → P (world.ctx_err w).1
  pub sleeps : (d : ℤ) (w : W) → P w → P (p.sleep d w).1
  pub draws : (d : ℤ) (w : W) → P w → P (p.rand d w).1
  pub acts : (w : W) → P w → P (op w).1

module _ {W : Type 0} (P : W → Type 0) (world : World W) (op : W → Option GoError × W)
    (p : FilledPolicy W) (k : IsKept P world p op) where
  -- a round that finishes with nil has called the operation, and it returned nil
  IsDone : Round W → Type 0
  IsDone (again e w) = P w
  IsDone (finished (some e) w) = Unit {0}
  IsDone (finished none w) = (v : W) × P v × (op v ≡ (none, w))

  wake-IsDone : (n : ℕ) (e : GoError) (x : Option GoError) (w : W) → P w → IsDone (wake p n e x w)
  unfolding wake IsDone
  wake-IsDone n e none w h = h
  wake-IsDone n e (some c) w h = tt

  wait_after_kept : (n : ℕ) (after : ℤ) (w : W) → P w → P (wait_after p n after w).1
  unfolding wait_after backoff
  wait_after_kept n after w h =
      branches (λ (r : ℤ × W). P r.1) (leb_ℤ (grow p.cap (n - 1) (min_ℤ p.base p.cap)) (pos 0)) _ _
        h (k.draws _ w h)

  pause-IsDone : (n : ℕ) (e : GoError) (after : ℤ) (w : W) → P w → IsDone (pause p n e after w)
  unfolding pause IsDone exhausted
  pause-IsDone n e after w h =
      branches IsDone (n == p.attempts) _ _ tt
        (wake-IsDone n e _ _ (k.sleeps _ _ (wait_after_kept n after w h)))

  verdict-IsDone : (n : ℕ) (e : GoError) (o : Option ℤ) (w : W) → P w → IsDone (verdict p n e o w)
  unfolding verdict IsDone
  verdict-IsDone n e none w h = tt
  verdict-IsDone n e (some after) w h = pause-IsDone n e after w h

  judge-IsDone : (n : ℕ) (e : GoError) (x : Option GoError) (w : W) → P w → IsDone (judge p n e x w)
  unfolding judge IsDone
  judge-IsDone n e (some c) w h = tt
  judge-IsDone n e none w h = verdict-IsDone n e (is_transient e) w h

  tried-IsDone :
      (n : ℕ) (v : W) (r : Option GoError) (w : W)
      → P v
      → P w
      → op v ≡ (r, w)
      → IsDone (tried world p n r w)
  unfolding tried IsDone
  tried-IsDone n v none w h g e = (v, h, e)
  tried-IsDone n v (some x) w h g e =
      judge-IsDone n x (world.ctx_err w).0 (world.ctx_err w).1 (k.looks w g)

  admitted-IsDone :
      (n : ℕ) (last x : Option GoError) (w : W) → P w → IsDone (admitted world p op n last x w)
  unfolding admitted IsDone
  admitted-IsDone n last (some c) w h = tt
  admitted-IsDone n last none w h = tried-IsDone n w (op w).0 (op w).1 h (k.acts w h) refl

  round-IsDone : (n : ℕ) (last : Option GoError) (w : W) → P w → IsDone (round world p op n last w)
  unfolding round
  round-IsDone n last w h =
      admitted-IsDone n last (world.ctx_err w).0 (world.ctx_err w).1 (k.looks w h)

  resume_done :
      (rest : GoError → W → Option GoError × W) (r : Round W) (w' : W)
      → IsDone r
      → ((e : GoError) (w : W) → P w → rest e w ≡ (none, w') → (v : W) × P v × (op v ≡ (none, w')))
      → resume rest r ≡ (none, w')
      → (v : W) × P v × (op v ≡ (none, w'))
  unfolding resume IsDone
  resume_done rest (again e w) w' d h q = h e w d q
  resume_done rest (finished (some e) w) w' d h q = absurd (cc q)
  resume_done rest (finished none w) w' (v, g, e) h q = (v, g, e ∙ q)

  loop_done :
      (left n : ℕ) (e : GoError) (w w' : W)
      → P w
      → loop world p op left n (some e) w ≡ (none, w')
      → (v : W) × P v × (op v ≡ (none, w'))
  unfolding loop exhausted
  loop_done zero n e w w' g h = absurd (cc h)
  loop_done (suc left) n e w w' g h =
      resume_done _ (round world p op n (some e) w) w' (round-IsDone n (some e) w g)
        (λ e' v x q. loop_done left (n + 1) e' v w' x q) h

  first_done :
      (left n : ℕ) (w w' : W)
      → 0 < left
      → P w
      → loop world p op left n none w ≡ (none, w')
      → (v : W) × P v × (op v ≡ (none, w'))
  unfolding loop
  first_done zero n w w' l g h = absurd (omega (arith, l))
  first_done (suc left) n w w' l g h =
      resume_done _ (round world p op n none w) w' (round-IsDone n none w g)
        (λ e' v x q. loop_done left (n + 1) e' v w' x q) h

-- `Do` that returns nil leaves the world as a call of the operation that returned nil left it, and
-- that call saw a world with every property that is kept.
pub do_retry_done :
    {W : Type 0} (P : W → Type 0) (world : World W) (op : W → Option GoError × W)
    (policy : Policy W) (w w' : W)
    → IsKept P world (normalized world policy) op
    → P w
    → do_retry world policy op w ≡ (none, w')
    → (v : W) × P v × (op v ≡ (none, w'))
unfolding do_retry
do_retry_done P world op policy w w' k g h =
    first_done P world op (normalized world policy) k (normalized world policy).attempts 1 w w'
      (normalized-attempts world policy) g h

-- the property that asks for nothing
pub any-IsKept :
    {W : Type 0} (world : World W) (p : FilledPolicy W) (op : W → Option GoError × W)
    → IsKept (λ w. Unit {0}) world p op
any-IsKept world p op = record {
  looks = λ w u. tt;
  sleeps = λ d w u. tt;
  draws = λ d w u. tt;
  acts = λ w u. tt;
}
