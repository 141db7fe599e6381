-- ===== src/Progress/Closed.antt =====
-- The end of a transfer's account (progress.go).
use bigoci.Prelude.{
  All, ◌≡◌, refl, sym, ◌≢◌, ◌↔◌, Bool, true, false, Option, none, some, List, [], ◌∷◌, arith, sym,
}
use bigoci.Errors.{GoError}
use bigoci.Progress.{
  Op, op_begin, op_measured, op_finish, Reporter, Snapshot, done, failed, last_phase, measured,
  finalize, complete, complete_twins, wire, hashed, retried, finish, step, run, deliver, set_phase,
}

-- `Push` and `Pull` call `begin` once, before anything else.
abbrev pub is_begin : Op → Bool
is_begin (op_begin _ _ _) = true
is_begin _ = false

step_closed : (o : Op) (r : Reporter) → is_begin o ≡ false → r.closed ≡ true → step o r ≡ r
unfolding step measured finalize complete complete_twins wire hashed retried finish
step_closed (op_begin p b n) r h c = absurd (ground arith)
step_closed (op_measured b n) r h c = rw c
step_closed o r h c = ground arith

pub run_closed :
    (os : List Op) (r : Reporter)
    → All (λ o. is_begin o ≡ false) os
    → r.closed ≡ true
    → run os r ≡ r
unfolding run
run_closed [] r h c = refl
run_closed (o ∷ os) r h c = rw (step_closed o r h.0 c) (run_closed os r h.1 c)

-- The snapshot `s` ends an account that stands at `before` with the error `e`: it counts the same,
-- and its phase is done exactly when there is no error and failed exactly when there is one.
pub record IsLast (before : Snapshot) (e : Option GoError) (s : Snapshot) : Type 0 where
  done_iff : (s.phase ≡ done) ↔ (e ≡ none)
  failed_iff : (s.phase ≡ failed) ↔ (e ≢ none)
  same_counts : s ≡ record before { phase = s.phase }

phases_differ : done ≢ failed
phases_differ = λ e. absurd (cc e)

last_phase-IsLast :
    (before : Snapshot) (e : Option GoError)
    → IsLast before e (record before { phase = last_phase e })
last_phase-IsLast before none = record {
  done_iff = (λ _. refl, λ _. refl);
  failed_iff = (λ q. absurd (phases_differ q), λ n. absurd (n refl));
  same_counts = refl;
}
last_phase-IsLast before (some x) = record {
  done_iff = (λ q. absurd (phases_differ (sym q)), λ q. absurd (cc q));
  failed_iff = (λ _ q. absurd (cc q), λ _. refl);
  same_counts = refl;
}

finish_closes :
    (r : Reporter) (e : Option GoError)
    → r.closed ≡ false
    → ((finish r e).closed ≡ true)
      × ((s : Snapshot) × ((finish r e).delivered ≡ s ∷ r.delivered) × IsLast r.snap e s)
unfolding finish deliver set_phase
finish_closes r e c = rw c (refl, (_, refl, last_phase-IsLast r.snap e))

-- `finish` on an open reporter delivers one more snapshot, with the counts as they stand, in phase
-- done exactly when there was no error and in phase failed exactly when there was one. Nothing that
-- follows it, in any number and order, delivers or changes anything, as long as the reporter is not
-- begun again.
pub finish_terminal :
    (r : Reporter) (e : Option GoError) (os : List Op)
    → r.closed ≡ false
    → All (λ o. is_begin o ≡ false) os
    → (run (op_finish e ∷ os) r ≡ finish r e)
      × ((s : Snapshot) × ((finish r e).delivered ≡ s ∷ r.delivered) × IsLast r.snap e s)
unfolding run step
finish_terminal r e os c h =
    let (closes, last) = finish_closes r e c in (run_closed os (finish r e) h closes, last)
