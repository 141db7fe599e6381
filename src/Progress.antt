-- ===== src/Progress.antt =====
-- internal/transfer/progress.go: the account that a transfer keeps of itself.
-- The callback is the list of the snapshots that it was handed, the latest first. The mutex makes
-- each method one step, so a run is a list of operations in the order in which they took the lock.
pub mod Closed
pub mod Lag
pub mod Marks
pub mod Credit
use bigoci.Prelude.{
  if◌then◌else◌, get_elem?, set, replicate, add64, mul64, ℤ, pos, negsuc, pos_part, ltb_ℤ, leb_ℤ,
  Bool, true, false, ◌||◌, Option, none, some, List, [], ◌∷◌,
}
use bigoci.Errors.{GoError}

-- const progressStep
abbrev pub progress_step : ℤ
progress_step = pos 4194304

-- `Phase`; `unset` is its zero value
pub data Phase : Type 0 where
  unset resolving transferring finalizing done failed : Phase

pub record Snapshot : Type 0 where
  pub phase : Phase
  pub total_bytes : ℤ
  pub total_parts : ℤ
  pub completed_bytes : ℤ
  pub completed_parts : ℤ
  pub skipped_parts : ℤ
  pub wire_bytes : ℤ
  pub hashed_bytes : ℤ
  pub retries : ℤ

pub record Reporter : Type 0 where
  pub delivered : List Snapshot
  pub snap : Snapshot
  pub credited : List Bool
  pub pending : ℤ
  pub closed : Bool

-- `newReporter`; a nil callback gives a nil reporter
unfoldable pub new_reporter : Bool → Option Reporter
new_reporter false = none
new_reporter true = some (record {
  delivered = [];
  snap = record {
    phase = unset;
    total_bytes = pos 0;
    total_parts = pos 0;
    completed_bytes = pos 0;
    completed_parts = pos 0;
    skipped_parts = pos 0;
    wire_bytes = pos 0;
    hashed_bytes = pos 0;
    retries = pos 0;
  };
  credited = [];
  pending = pos 0;
  closed = false;
})

unfoldable pub deliver : Reporter → Reporter
deliver r = record r { pending = pos 0; delivered = r.snap ∷ r.delivered }

unfoldable pub coalesce : Reporter → ℤ → Reporter
coalesce r n =
    let r' = record r { pending = add64 r.pending n } in
    if leb_ℤ progress_step r'.pending then deliver r' else r'

unfoldable pub set_totals : Reporter → ℤ → ℤ → Reporter
set_totals r total_bytes total_parts =
    let s = r.snap in
    record r {
      snap = record s { total_bytes = total_bytes; total_parts = total_parts };
      credited =
          if ltb_ℤ (pos 0) total_parts then replicate (pos_part total_parts) false else r.credited;
    }

unfoldable pub set_phase : Reporter → Phase → Reporter
set_phase r p = let s = r.snap in record r { snap = record s { phase = p } }

unfoldable pub begin : Reporter → Phase → ℤ → ℤ → Reporter
begin r p total_bytes total_parts = deliver (set_totals (set_phase r p) total_bytes total_parts)

unfoldable pub measured : Reporter → ℤ → ℤ → Reporter
measured r total_bytes total_parts =
    if r.closed then r else deliver (set_totals (set_phase r transferring) total_bytes total_parts)

unfoldable pub finalize : Reporter → Reporter
finalize r = if r.closed then r else deliver (set_phase r finalizing)

-- `r.credited[index]` with the bounds checks in front of it
unfoldable pub is_credited : Reporter → ℤ → Bool
is_credited r (negsuc i) = true
is_credited r (pos i) = elim (get_elem? r.credited i) [ none ↦ true | some b ↦ b ]

unfoldable pub complete : Reporter → ℤ → ℤ → Bool → Reporter
complete r index size skipped =
    let s = r.snap in
    if r.closed || is_credited r index
    then r
    else deliver (record r {
      credited = set r.credited (pos_part index) true;
      snap = record s {
        completed_parts = add64 s.completed_parts (pos 1);
        completed_bytes = add64 s.completed_bytes size;
        skipped_parts = if skipped then add64 s.skipped_parts (pos 1) else s.skipped_parts;
      };
    })

unfoldable pub complete_twins : Reporter → ℤ → ℤ → Reporter
complete_twins r count size =
    let s = r.snap in
    if leb_ℤ count (pos 0) || r.closed
    then r
    else deliver (record r {
      snap = record s {
        completed_parts = add64 s.completed_parts count;
        skipped_parts = add64 s.skipped_parts count;
        completed_bytes = add64 s.completed_bytes (mul64 size count);
      };
    })

unfoldable pub wire : Reporter → ℤ → Reporter
wire r n =
    let s = r.snap in
    if leb_ℤ n (pos 0) || r.closed
    then r
    else coalesce (record r { snap = record s { wire_bytes = add64 s.wire_bytes n } }) n

unfoldable pub hashed : Reporter → ℤ → Reporter
hashed r n =
    let s = r.snap in
    if leb_ℤ n (pos 0) || r.closed
    then r
    else coalesce (record r { snap = record s { hashed_bytes = add64 s.hashed_bytes n } }) n

unfoldable pub retried : Reporter → Reporter
retried r =
    let s = r.snap in
    if r.closed
    then r
    else deliver (record r { snap = record s { retries = add64 s.retries (pos 1) } })

-- the phase that `finish` ends in
abbrev pub last_phase : Option GoError → Phase
last_phase none = done
last_phase (some _) = failed

unfoldable pub finish : Reporter → Option GoError → Reporter
finish r err =
    if r.closed then r else deliver (set_phase (record r { closed = true }) (last_phase err))

-- The operations, and a run of them.
pub data Op : Type 0 where
  op_begin : Phase → ℤ → ℤ → Op
  op_measured : ℤ → ℤ → Op
  op_finalizing : Op
  op_complete : ℤ → ℤ → Bool → Op
  op_complete_twins : ℤ → ℤ → Op
  op_wire : ℤ → Op
  op_hashed : ℤ → Op
  op_retried : Op
  op_finish : Option GoError → Op

unfoldable pub step : Op → Reporter → Reporter
step (op_begin p b n) r = begin r p b n
step (op_measured b n) r = measured r b n
step op_finalizing r = finalize r
step (op_complete i n skipped) r = complete r i n skipped
step (op_complete_twins c n) r = complete_twins r c n
step (op_wire n) r = wire r n
step (op_hashed n) r = hashed r n
step op_retried r = retried r
step (op_finish e) r = finish r e

unfoldable pub run : List Op → Reporter → Reporter
run [] r = r
run (o ∷ os) r = run os (step o r)

-- A method of a nil reporter does nothing.
unfoldable pub step_nil : Op → Option Reporter → Option Reporter
step_nil o none = none
step_nil o (some r) = some (step o r)
