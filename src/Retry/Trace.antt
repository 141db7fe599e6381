-- ===== src/Retry/Trace.antt =====
-- How often the loop of `Do` calls and sleeps, and for how long.
use bigoci.Prelude.{
  ◌==◌, Bool-cases, ℤ, pos, ◌≤ℤ◌, max_int64, ℕ, zero, suc, ◌+◌, ◌-◌, ◌≤◌, ◌<◌, ◌≡◌, refl, ◌≢◌, inl,
  inr, Option, none, some, List, [], ◌∷◌, arith, dec_lt, Bool-cases,
}
use bigoci.Errors.{GoError, is_transient}
use bigoci.Retry.{
  World, Policy, FilledPolicy, Round, normalized, finished, again, wake, pause, verdict, judge,
  tried, admitted, round, resume, loop,
}
use bigoci.Retry.Log.{
  Event, looked, called, slept, calls, sleeps, record_op, record_world, record_policy, recorded,
  wait_after_log,
}
use bigoci.Retry.Backoff.{
  normalized-attempts, normalized-IsSound, IsSound, DrawsBelow, wait_after_bounds,
}

-- Every recorded sleep lies between zero and `top`.
abbrev pub Bounded : ℤ → List Event → Type 0
Bounded top [] = Unit
Bounded top (called r ∷ l) = Bounded top l
Bounded top (looked r ∷ l) = Bounded top l
Bounded top (slept d r ∷ l) = (pos 0 ≤ℤ d) × (d ≤ℤ top) × Bounded top l

module _ {W : Type 0} where
  record_policy-IsSound : (p : FilledPolicy W) → IsSound p → IsSound (record_policy p)
  record_policy-IsSound p s = record {
    base_nat = s.base_nat;
    cap_nat = s.cap_nat;
    base_eq = s.base_eq;
    cap_eq = s.cap_eq;
    base_le = s.base_le;
    cap_le = s.cap_le;
    base_pos = s.base_pos;
    cap_pos = s.cap_pos;
    draws = λ n w h. s.draws n w.0 h;
  }

  -- What one round that starts with log `l` may have added.
  record Adds (p : FilledPolicy W) (attempt : ℕ) (l l' : List Event) : Type 0 where
    bounded : Bounded p.cap l → Bounded p.cap l'
    calls_le : calls l' ≤ suc (calls l)
    sleeps_le : sleeps l' ≤ suc (sleeps l)
    paired : sleeps l' + calls l ≤ sleeps l + calls l'
    last_silent : attempt ≡ p.attempts → sleeps l' ≡ sleeps l

  abbrev RoundAdds : FilledPolicy W → ℕ → List Event → Round (W × List Event) → Type 0
  RoundAdds p attempt l (finished r s) = Adds p attempt l s.1
  RoundAdds p attempt l (again e s) = Adds p attempt l s.1 × (attempt ≢ p.attempts)

  -- `l'` is `l` with one call and any looks more.
  abbrev Called : FilledPolicy W → List Event → List Event → Type 0
  Called p l l' =
      (calls l' ≡ suc (calls l)) × (sleeps l' ≡ sleeps l) × (Bounded p.cap l → Bounded p.cap l')

  Adds-look :
      (p : FilledPolicy W) (attempt : ℕ) (l : List Event) (r : Option GoError)
      → Adds p attempt l (looked r ∷ l)
  Adds-look p attempt l r = ground arith

  Adds-call :
      (p : FilledPolicy W) (attempt : ℕ) (l l' : List Event) → Called p l l' → Adds p attempt l l'
  Adds-call p attempt l l' (c, s, b) = record {
    bounded = b;
    calls_le = omega arith;
    sleeps_le = omega arith;
    paired = omega arith;
    last_silent = λ _. s;
  }

  Adds-sleep :
      (p : FilledPolicy W) (attempt : ℕ) (l l' : List Event) (d : ℤ) (r : Option GoError)
      → Called p l l'
      → attempt ≢ p.attempts
      → pos 0 ≤ℤ d
      → d ≤ℤ p.cap
      → Adds p attempt l (slept d r ∷ l')
  Adds-sleep p attempt l l' d r (c, s, b) n low high = record {
    bounded = λ h. (low, high, b h);
    calls_le = omega arith;
    sleeps_le = omega arith;
    paired = omega arith;
    last_silent = λ e. absurd (n e);
  }

  wake-RoundAdds :
      (p : FilledPolicy W) (attempt : ℕ) (l : List Event) (e : GoError) (r : Option GoError)
      (s : W × List Event)
      → Adds p attempt l s.1
      → attempt ≢ p.attempts
      → RoundAdds p attempt l (wake (record_policy p) attempt e r s)
  unfolding wake
  wake-RoundAdds p attempt l e none s a n = (a, n)
  wake-RoundAdds p attempt l e (some c) s a n = a

  module _ (p : FilledPolicy W) (s : IsSound p) (attempt : ℕ) (l : List Event) where
    pause-RoundAdds :
        (e : GoError) (after : ℤ) (w : W) (l' : List Event)
        → Called p l l'
        → RoundAdds p attempt l (pause (record_policy p) attempt e after (w, l'))
    unfolding pause
    pause-RoundAdds e after w l' k = elim (Bool-cases (attempt == p.attempts)) [
      | inl y ↦ rw y (Adds-call p attempt l l' k)
      | inr n ↦
          let (low, high, _, _) =
            wait_after_bounds (record_policy p) attempt after (w, l') (record_policy-IsSound p s) in
          rw n (
            wake-RoundAdds p attempt l e _ _
              (rw (wait_after_log p attempt after (w, l'))
                (Adds-sleep p attempt l l' _ _ k (ground arith) low high))
              (ground arith))
    ]

    verdict-RoundAdds :
        (e : GoError) (t : Option ℤ) (w : W) (l' : List Event)
        → Called p l l'
        → RoundAdds p attempt l (verdict (record_policy p) attempt e t (w, l'))
    unfolding verdict
    verdict-RoundAdds e none w l' k = Adds-call p attempt l l' k
    verdict-RoundAdds e (some after) w l' k = pause-RoundAdds e after w l' k

    judge-RoundAdds :
        (e : GoError) (done : Option GoError) (w : W) (l' : List Event)
        → Called p l l'
        → RoundAdds p attempt l (judge (record_policy p) attempt e done (w, l'))
    unfolding judge
    judge-RoundAdds e none w l' k = verdict-RoundAdds e (is_transient e) w l' k
    judge-RoundAdds e (some c) w l' k = Adds-call p attempt l l' k

    tried-RoundAdds :
        (world : World W) (r : Option GoError) (w : W) (l' : List Event)
        → Called p l l'
        → RoundAdds p attempt l (tried (record_world world) (record_policy p) attempt r (w, l'))
    unfolding tried
    tried-RoundAdds world none w l' k = Adds-call p attempt l l' k
    tried-RoundAdds world (some e) w l' k = judge-RoundAdds e _ _ _ k

    admitted-RoundAdds :
        (world : World W) (op : W → Option GoError × W) (last done : Option GoError) (w : W)
        → RoundAdds p attempt l (
            admitted
              (record_world world)
              (record_policy p)
              (record_op op)
              attempt
              last
              done
              (w, looked done ∷ l))
    unfolding admitted
    admitted-RoundAdds world op last none w = tried-RoundAdds world _ _ _ (refl, refl, λ b. b)
    admitted-RoundAdds world op last (some c) w = Adds-look p attempt l (some c)

    round-RoundAdds :
        (world : World W) (op : W → Option GoError × W) (last : Option GoError) (w : W)
        → RoundAdds p attempt l
            (round (record_world world) (record_policy p) (record_op op) attempt last (w, l))
    unfolding round
    round-RoundAdds world op last w = admitted-RoundAdds world op last _ _

  -- What the rounds from `left` on, that start with log `l`, may have added.
  record RunAdds (p : FilledPolicy W) (left : ℕ) (l l' : List Event) : Type 0 where
    bounded : Bounded p.cap l → Bounded p.cap l'
    calls_le : calls l' ≤ calls l + left
    sleeps_lt : sleeps l' ≤ sleeps l + (left - 1)
    paired : sleeps l' + calls l ≤ sleeps l + calls l'

  resume-RunAdds :
      (p : FilledPolicy W) (attempt left : ℕ) (l : List Event)
      (rest : GoError → W × List Event → Option GoError × (W × List Event))
      (r : Round (W × List Event))
      → attempt + suc left ≡ p.attempts + 1
      → RoundAdds p attempt l r
      → ((e : GoError) (s : W × List Event) → RunAdds p left s.1 (rest e s).1.1)
      → RunAdds p (suc left) l (resume rest r).1.1
  unfolding resume
  resume-RunAdds p attempt left l rest (finished r s) e a h = record {
    bounded = a.bounded;
    calls_le = omega arith;
    sleeps_lt = (elim (dec_lt 0 left) [
      | yes m ↦ omega (arith, a.sleeps_le)
      | no z ↦ omega (arith, a.last_silent (omega arith))
    ]);
    paired = a.paired;
  }
  resume-RunAdds p attempt left l rest (again err s) e (a, n) h = record {
    bounded = λ b. (h err s).bounded (a.bounded b);
    calls_le = omega (arith, (h err s).calls_le);
    sleeps_lt = (let m : 0 < left = omega arith in omega (arith, (h err s).sleeps_lt, a.sleeps_le));
    paired = omega (arith, (h err s).paired);
  }

  loop-RunAdds :
      (world : World W) (p : FilledPolicy W) (s : IsSound p) (op : W → Option GoError × W)
      (left attempt : ℕ) (last : Option GoError) (w : W) (l : List Event)
      → attempt + left ≡ p.attempts + 1
      → RunAdds p left l
          (loop (record_world world) (record_policy p) (record_op op) left attempt last (w, l)).1.1
  unfolding loop
  loop-RunAdds world p s op zero attempt last w l e = ground arith
  loop-RunAdds world p s op (suc left) attempt last w l e =
      resume-RunAdds p attempt left l _ _ e (round-RoundAdds p s attempt l world op last w)
        (λ err st. loop-RunAdds world p s op left (attempt + 1) (some err) st.0 st.1 (omega arith))

  -- Whatever the context, the clock and the operation do, the loop of `Do` calls the operation at
  -- most as often as the policy allows, sleeps fewer times than the policy has attempts and at most
  -- as often as it calls, and every sleep lies between zero and the policy's cap, with unset fields
  -- at their defaults. For durations of int64 and a Rand that keeps its contract.
  pub do_retry-bounds :
      (world : World W) (p : Policy W) (op : W → Option GoError × W) (w : W)
      → p.base ≤ℤ pos max_int64
      → p.cap ≤ℤ pos max_int64
      → DrawsBelow (normalized world p).rand
      → let q = normalized world p in
        let log = (recorded world p op w).1.1 in
        (calls log ≤ q.attempts)
        × (sleeps log < q.attempts)
        × (sleeps log ≤ calls log)
        × Bounded q.cap log
  do_retry-bounds world p op w hb hc d =
      let q = normalized world p in
      let run =
        loop-RunAdds world q (normalized-IsSound world p hb hc d) op q.attempts 1 none w []
          (omega arith) in
      let positive : 0 < q.attempts = normalized-attempts world p in
      (
        omega (arith, run.calls_le),
        omega (arith, run.sleeps_lt),
        omega (arith, run.paired),
        run.bounded tt,
      )
