-- ===== src/Retry/Explained.antt =====
-- Every run of `Do` is orderly, and returns what its log explains.
use bigoci.Prelude.{
  ltb, ◌==◌, Bool-cases, Option-cases, ℤ, ℕ, zero, suc, ◌+◌, ◌-◌, ◌≤◌, ◌<◌, ◌≡◌, refl, ap, ◌≢◌, ◌⊎◌,
  inl, inr, true, false, not, ◌&&◌, Option, none, some, List, [], ◌∷◌, arith, Bool-cases, ap, ap,
}
use bigoci.Errors.{GoError, interrupted_by, is_transient}
use bigoci.Retry.{
  World, Policy, FilledPolicy, Round, finished, again, normalized, interrupted, exhausted, wake,
  pause, verdict, judge, tried, admitted, round, resume, loop, do_retry,
}
use bigoci.Retry.Log.{
  Event, looked, called, slept, calls, record_world, record_policy, record_op, recorded,
  wait_after_log, recorded-do_retry,
}
use bigoci.Retry.Order.{
  is_some, just_failed, IsOrderly, is_over, failure, stopped, spent, answer, starts,
  starts-may_look, starts-just_failed,
}
use bigoci.Retry.Backoff.{normalized-attempts}

stopped-interrupted :
    (cause : GoError) (n : ℕ) (last : Option GoError)
    → stopped cause n last ≡ some (interrupted cause n last)
unfolding interrupted
stopped-interrupted cause n none = refl
stopped-interrupted cause n (some e) = refl

module _ {W : Type 0} (p : FilledPolicy W) where
  -- The log where the round `attempt` starts, behind the failure `last`.
  record Ready (attempt : ℕ) (last : Option GoError) (l : List Event) : Type 0 where
    orderly : IsOrderly p.attempts l
    start : starts l ≡ true
    counted : calls l + 1 ≡ attempt
    failed : failure l ≡ last

  abbrev Ends : ℕ → Round (W × List Event) → Type 0
  Ends attempt (finished r s) =
      IsOrderly p.attempts s.1 × (is_over p.attempts s.1 ≡ true) × (r ≡ answer s.1)
  Ends attempt (again e s) = Ready (attempt + 1) (some e) s.1 × (attempt ≢ p.attempts)

  module _ (attempt : ℕ) (last : Option GoError) (l : List Event) (k : Ready attempt last l) where
    -- the log behind the call that failed with `e`
    abbrev behind : GoError → List Event
    behind e = called (some e) ∷ looked none ∷ l

    called-IsOrderly : (r : Option GoError) → IsOrderly p.attempts (called r ∷ looked none ∷ l)
    called-IsOrderly r =
        let c : not (just_failed l) ≡ true = rw (starts-just_failed l k.start) refl in
        (c, (starts-may_look l k.start, k.orderly))

    slept-IsOrderly :
        (e : GoError) (after d : ℤ) (r : Option GoError)
        → is_transient e ≡ some after
        → attempt ≢ p.attempts
        → attempt ≤ p.attempts
        → IsOrderly p.attempts (slept d r ∷ looked none ∷ behind e)
    slept-IsOrderly e after d r t n h =
        let left : ltb (suc (calls l)) p.attempts ≡ true = ground (arith, k.counted) in
        let may : (is_some (is_transient e) && ltb (suc (calls l)) p.attempts) ≡ true =
          rw (t, left) refl in
        (may, (refl, called-IsOrderly (some e)))

    wake-Ends :
        (e : GoError) (after d : ℤ) (r : Option GoError) (w : W)
        → is_transient e ≡ some after
        → attempt ≢ p.attempts
        → attempt ≤ p.attempts
        → Ends attempt (wake (record_policy p) attempt e r (w, slept d r ∷ looked none ∷ behind e))
    unfolding wake interrupted
    wake-Ends e after d none w t n h = (
      record {
        orderly = slept-IsOrderly e after d none t n h;
        start = refl;
        counted = omega (arith, k.counted);
        failed = refl;
      },
      n,
    )
    wake-Ends e after d (some c) w t n h =
        let at : attempt ≡ suc (calls l) = omega (arith, k.counted) in
        (slept-IsOrderly e after d (some c) t n h, refl, ap (λ i. some (interrupted_by c i e)) at)

    -- Behind a failure that is not transient, or with no attempts left, no sleep may come.
    over :
        (e : GoError)
        → (is_transient e ≡ none) ⊎ (ltb (suc (calls l)) p.attempts ≡ false)
        → is_over p.attempts (looked none ∷ behind e) ≡ true
    over e (inl n) = rw n refl
    over e (inr n) = elim (Option-cases (is_transient e)) [
      | inl t ↦ rw t refl
      | inr (after, t) ↦ rw (t, n) refl
    ]

    pause-Ends :
        (e : GoError) (after : ℤ) (w : W)
        → is_transient e ≡ some after
        → attempt ≤ p.attempts
        → Ends attempt (pause (record_policy p) attempt e after (w, looked none ∷ behind e))
    unfolding pause exhausted
    pause-Ends e after w t h = elim (Bool-cases (attempt == p.attempts)) [
      | inl y ↦
          let at : p.attempts ≡ suc (calls l) = ground (arith, k.counted) in
          let ended : exhausted p.attempts (some e)
              ≡ some (spent (suc (calls l)) e (is_transient e)) =
            rw (t, at) refl in
          let none_left : ltb (suc (calls l)) p.attempts ≡ false = ground arith in
          rw y ((refl, called-IsOrderly (some e)), over e (inr none_left), ended)
      | inr n ↦ rw n (
          rw (wait_after_log p attempt after (w, looked none ∷ behind e))
            (wake-Ends e after _ _ _ t (ground arith) h))
    ]

    verdict-Ends :
        (e : GoError) (w : W)
        → attempt ≤ p.attempts
        → Ends attempt
            (verdict (record_policy p) attempt e (is_transient e) (w, looked none ∷ behind e))
    unfolding verdict
    verdict-Ends e w h = elim (Option-cases (is_transient e)) [
      | inl n ↦
          let ended : some e ≡ some (spent (suc (calls l)) e (is_transient e)) = rw n refl in
          rw n ((refl, called-IsOrderly (some e)), over e (inl n), ended)
      | inr (after, t) ↦ rw t (pause-Ends e after w t h)
    ]

    judge-Ends :
        (e : GoError) (done : Option GoError) (w : W)
        → attempt ≤ p.attempts
        → Ends attempt (judge (record_policy p) attempt e done (w, looked done ∷ behind e))
    unfolding judge
    judge-Ends e none w h = verdict-Ends e w h
    judge-Ends e (some c) w h = ((refl, called-IsOrderly (some e)), refl, refl)

    tried-Ends :
        (world : World W) (r : Option GoError) (w : W)
        → attempt ≤ p.attempts
        → Ends attempt
            (tried (record_world world) (record_policy p) attempt r (w, called r ∷ looked none ∷ l))
    unfolding tried
    tried-Ends world none w h = (called-IsOrderly none, refl, refl)
    tried-Ends world (some e) w h = judge-Ends e _ _ h

    admitted-Ends :
        (world : World W) (op : W → Option GoError × W) (done : Option GoError) (w : W)
        → attempt ≤ p.attempts
        → Ends attempt (
            admitted
              (record_world world)
              (record_policy p)
              (record_op op)
              attempt
              last
              done
              (w, looked done ∷ l))
    unfolding admitted
    admitted-Ends world op none w h = tried-Ends world _ _ h
    admitted-Ends world op (some c) w h =
        let at : attempt - 1 ≡ calls l = omega (arith, k.counted) in
        (
          (starts-may_look l k.start, k.orderly),
          refl,
          rw (starts-just_failed l k.start, at, k.failed, stopped-interrupted c (calls l) last)
              refl,
        )

    round-Ends :
        (world : World W) (op : W → Option GoError × W) (w : W)
        → attempt ≤ p.attempts
        → Ends attempt
            (round (record_world world) (record_policy p) (record_op op) attempt last (w, l))
    unfolding round
    round-Ends world op w h = admitted-Ends world op _ _ h

  -- The whole run is orderly, and its result is the answer to its log.
  abbrev IsExplained : Option GoError × (W × List Event) → Type 0
  IsExplained run =
      IsOrderly p.attempts run.1.1 × (is_over p.attempts run.1.1 ≡ true) × (run.0 ≡ answer run.1.1)

  resume-IsExplained :
      (attempt : ℕ) (rest : GoError → W × List Event → Option GoError × (W × List Event))
      (r : Round (W × List Event))
      → Ends attempt r
      → ((e : GoError) (s : W × List Event)
          → Ready (attempt + 1) (some e) s.1
          → attempt ≢ p.attempts
          → IsExplained (rest e s))
      → IsExplained (resume rest r)
  unfolding resume
  resume-IsExplained attempt rest (finished r s) h f = h
  resume-IsExplained attempt rest (again e s) (h, n) f = f e s h n

  loop-IsExplained :
      (world : World W) (op : W → Option GoError × W) (left attempt : ℕ) (last : Option GoError)
      (w : W) (l : List Event)
      → attempt + left ≡ p.attempts + 1
      → 0 < left
      → Ready attempt last l
      → IsExplained
          (loop (record_world world) (record_policy p) (record_op op) left attempt last (w, l))
  unfolding loop
  loop-IsExplained world op zero attempt last w l e h k = absurd (omega arith)
  loop-IsExplained world op (suc left) attempt last w l e h k =
      resume-IsExplained attempt _ _ (round-Ends attempt last l k world op w (omega arith))
        (λ err s ready n.
          loop-IsExplained world op left (attempt + 1) (some err) s.0 s.1 (omega arith)
            (omega arith) ready)

-- Whatever the context, the clock and the operation do, the run of `Do`, told by its log, goes like
-- this. It opens with a look at the context. A call stands directly behind a look that found the
-- context alive and that opens the run or follows a sleep that was not interrupted. Only a look
-- follows a call that failed. A sleep stands directly behind a look that found the context alive
-- and that follows a call that failed transiently, and only while attempts are left. The run ends
-- where a call succeeded, a look found the context ended, or a sleep was interrupted, and nothing
-- follows these; otherwise it ends only behind a failed call and the look that follows, if the
-- failure is not transient or no attempt is left. And `Do` returns what the log explains: nothing
-- behind a success; the bare failure where the context ended during the call that failed, at
-- whichever attempt; the cause, with the number of calls and the latest failure once there was one,
-- where it ended before a call or in a sleep; and otherwise the failure, bare if it is not transient
-- or the only call's, and with the number of calls if it is transient behind more than one.
pub do_retry-IsOrderly :
    {W : Type 0} (world : World W) (p : Policy W) (op : W → Option GoError × W) (w : W)
    → let (result, (w', log)) = recorded world p op w in
      IsOrderly (normalized world p).attempts log
      × (is_over (normalized world p).attempts log ≡ true)
      × (result ≡ answer log)
      × (do_retry world p op w ≡ (result, w'))
do_retry-IsOrderly world p op w =
    let q = normalized world p in
    let (orderly, over, answered) =
      loop-IsExplained q world op q.attempts 1 none w [] (omega arith) (normalized-attempts world p)
        (record { orderly = tt; start = refl; counted = refl; failed = refl }) in
    (orderly, over, answered, recorded-do_retry world p op w)
