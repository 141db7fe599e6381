-- ===== src/Retry/Log.antt =====
-- What the loop of `Do` does to its surroundings: the calls of the operation, the sleeps and the
-- looks at the context, recorded in a log that is carried along with the world, the latest event
-- first. The recorded run is the run of `Do` beside its log.
use bigoci.Prelude.{
  ◌==◌, Bool-cases, Option-cases, ℤ, pos, leb_ℤ, min_ℤ, ℕ, zero, suc, ◌+◌, ◌-◌, ◌≡◌, refl, sym, ap,
  ◌∙◌, inl, inr, Option, none, some, List, [], ◌∷◌, Bool-cases, sym, ap, ap,
}
use bigoci.Errors.{GoError, is_transient}
use bigoci.Retry.{
  World, Policy, FilledPolicy, Round, finished, again, normalized, backoff, wait_after, grow, wake,
  pause, verdict, judge, tried, admitted, round, resume, loop, do_retry,
}

-- A look at the context, a call of the operation and a sleep, each with what it returned.
pub data Event : Type 0 where
  looked : Option GoError → Event
  called : Option GoError → Event
  slept : ℤ → Option GoError → Event

abbrev pub calls : List Event → ℕ
calls [] = 0
calls (called r ∷ l) = suc (calls l)
calls (looked r ∷ l) = calls l
calls (slept d r ∷ l) = calls l

abbrev pub sleeps : List Event → ℕ
sleeps [] = 0
sleeps (called r ∷ l) = sleeps l
sleeps (looked r ∷ l) = sleeps l
sleeps (slept d r ∷ l) = suc (sleeps l)

module _ {W : Type 0} where
  abbrev lift {ℓ} : {A : Type ℓ} → (W → A × W) → W × List Event → A × (W × List Event)
  lift f (w, l) = let (r, w') = f w in (r, (w', l))

  abbrev pub record_op :
      (W → Option GoError × W) → W × List Event → Option GoError × (W × List Event)
  record_op op (w, l) = let (r, w') = op w in (r, (w', called r ∷ l))

  abbrev pub record_world : World W → World (W × List Event)
  record_world world = record {
    ctx_err = λ s. let (r, w') = world.ctx_err s.0 in (r, (w', looked r ∷ s.1));
    wait_timer = λ d. lift (world.wait_timer d);
    rand_int64n = λ n. lift (world.rand_int64n n);
  }

  abbrev pub record_policy : FilledPolicy W → FilledPolicy (W × List Event)
  record_policy p = record {
    attempts = p.attempts;
    base = p.base;
    cap = p.cap;
    sleep = λ d s. let (r, w') = p.sleep d s.0 in (r, (w', slept d r ∷ s.1));
    rand = λ n. lift (p.rand n);
  }

  -- the run of `Do` with its log
  abbrev pub recorded :
      World W → Policy W → (W → Option GoError × W) → W → Option GoError × (W × List Event)
  recorded world p op w =
      let q = normalized world p in
      loop (record_world world) (record_policy q) (record_op op) q.attempts 1 none (w, [])

  pub wait_after_log :
      (p : FilledPolicy W) (attempt : ℕ) (after : ℤ) (s : W × List Event)
      → (wait_after (record_policy p) attempt after s).1.1 ≡ s.1
  unfolding wait_after backoff
  wait_after_log p attempt after s =
      elim (Bool-cases (leb_ℤ (grow p.cap (attempt - 1) (min_ℤ p.base p.cap)) (pos 0))) [
        | inl y ↦ rw y
        | inr n ↦ rw n
      ]

  wait_after_erased :
      (p : FilledPolicy W) (attempt : ℕ) (after : ℤ) (s : W × List Event)
      → ((wait_after (record_policy p) attempt after s).0 ≡ (wait_after p attempt after s.0).0)
        × ((wait_after (record_policy p) attempt after s).1.0 ≡ (wait_after p attempt after s.0).1)
  unfolding wait_after backoff
  wait_after_erased p attempt after s =
      elim (Bool-cases (leb_ℤ (grow p.cap (attempt - 1) (min_ℤ p.base p.cap)) (pos 0))) [
        | inl y ↦ rw y (refl, refl)
        | inr n ↦ rw n (refl, refl)
      ]

  abbrev forget : Round (W × List Event) → Round W
  forget (finished r s) = finished r s.0
  forget (again e s) = again e s.0

  abbrev erase : Option GoError × (W × List Event) → Option GoError × W
  erase run = (run.0, run.1.0)

  wake_erased :
      (p : FilledPolicy W) (attempt : ℕ) (e : GoError) (r : Option GoError) (s : W × List Event)
      → forget (wake (record_policy p) attempt e r s) ≡ wake p attempt e r s.0
  unfolding wake
  wake_erased p attempt e none s = refl
  wake_erased p attempt e (some c) s = refl

  pause_erased :
      (p : FilledPolicy W) (attempt : ℕ) (e : GoError) (after : ℤ) (s : W × List Event)
      → forget (pause (record_policy p) attempt e after s) ≡ pause p attempt e after s.0
  unfolding pause
  pause_erased p attempt e after s = elim (Bool-cases (attempt == p.attempts)) [
    | inl y ↦ rw y refl
    | inr n ↦
        let (wait, world) = wait_after_erased p attempt after s in
        rw n (wake_erased p attempt e _ _ ∙ rw (wait, world) refl)
  ]

  judge_erased :
      (p : FilledPolicy W) (attempt : ℕ) (e : GoError) (done : Option GoError) (s : W × List Event)
      → forget (judge (record_policy p) attempt e done s) ≡ judge p attempt e done s.0
  unfolding judge verdict
  judge_erased p attempt e (some c) s = refl
  judge_erased p attempt e none s = elim (Option-cases (is_transient e)) [
    | inl n ↦ rw n refl
    | inr (after, t) ↦ rw t (pause_erased p attempt e after s)
  ]

  module _ (world : World W) (p : FilledPolicy W) (op : W → Option GoError × W) where
    tried_erased :
        (attempt : ℕ) (r : Option GoError) (s : W × List Event)
        → forget (tried (record_world world) (record_policy p) attempt r s)
          ≡ tried world p attempt r s.0
    unfolding tried
    tried_erased attempt none s = refl
    tried_erased attempt (some e) s = judge_erased p attempt e _ _

    admitted_erased :
        (attempt : ℕ) (last done : Option GoError) (s : W × List Event)
        → forget
            (admitted (record_world world) (record_policy p) (record_op op) attempt last done s)
          ≡ admitted world p op attempt last done s.0
    unfolding admitted
    admitted_erased attempt last none s = tried_erased attempt _ _
    admitted_erased attempt last (some c) s = refl

    round_erased :
        (attempt : ℕ) (last : Option GoError) (s : W × List Event)
        → forget (round (record_world world) (record_policy p) (record_op op) attempt last s)
          ≡ round world p op attempt last s.0
    unfolding round
    round_erased attempt last s = admitted_erased attempt last _ _

  resume_erased :
      (rest : GoError → W × List Event → Option GoError × (W × List Event))
      (rest' : GoError → W → Option GoError × W) (r : Round (W × List Event))
      → ((e : GoError) (s : W × List Event) → erase (rest e s) ≡ rest' e s.0)
      → erase (resume rest r) ≡ resume rest' (forget r)
  unfolding resume
  resume_erased rest rest' (finished r s) h = refl
  resume_erased rest rest' (again e s) h = h e s

  loop_erased :
      (world : World W) (p : FilledPolicy W) (op : W → Option GoError × W) (left attempt : ℕ)
      (last : Option GoError) (s : W × List Event)
      → erase (loop (record_world world) (record_policy p) (record_op op) left attempt last s)
        ≡ loop world p op left attempt last s.0
  unfolding loop
  loop_erased world p op zero attempt last s = refl
  loop_erased world p op (suc left) attempt last s =
      resume_erased _ _ _ (λ e s'. loop_erased world p op left (attempt + 1) (some e) s')
      ∙ ap (resume (λ e w'. loop world p op left (attempt + 1) (some e) w'))
          (round_erased world p op attempt last s)

  -- Recording changes nothing.
  pub recorded-do_retry :
      (world : World W) (p : Policy W) (op : W → Option GoError × W) (w : W)
      → do_retry world p op w ≡ ((recorded world p op w).0, (recorded world p op w).1.0)
  unfolding do_retry
  recorded-do_retry world p op w =
      let q = normalized world p in sym (loop_erased world q op q.attempts 1 none (w, []))
