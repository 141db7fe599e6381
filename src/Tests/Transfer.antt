-- ===== src/Tests/Transfer.antt =====
-- internal/transfer: the progress account and the claims, on short runs.
use bigoci.Prelude.{
  codes, get_elem?, add64, mul64, pos, bits, ◌+◌, ◌%◌, ◌≡◌, refl, true, false, none, some, List, [],
  ◌∷◌, ◌++◌, arith, lookup, insert, bytes_eq, insert,
}
use bigoci.Progress.{
  Op, op_begin, op_measured, op_complete, op_complete_twins, op_wire, op_hashed, op_finish,
  Reporter, Snapshot, transferring, step, run, finish, deliver, coalesce, set_totals, set_phase,
  begin, complete, complete_twins, wire, hashed, is_credited,
}
use bigoci.Progress.Closed.{IsLast, finish_terminal}
use bigoci.Progress.Lag.{Lag, run-Lag}
use bigoci.Progress.Marks.{count, all_twins, named}
use bigoci.Progress.Credit.{run-credits}
use bigoci.Claims.{new_claim_set, take_from, take as take_claim, settle, waiting_of}
use bigoci.Claims.Conservation.{
  Event, took, settled, Balanced, asks, uploads, credits, claims-Balanced,
}
use bigoci.Claims.Conservation

abbrev fresh : Reporter
fresh = record {
  delivered = [];
  snap = record {
    phase = transferring;
    total_bytes = pos 0;
    total_parts = pos 0;
    completed_bytes = pos 0;
    completed_parts = pos 0;
    skipped_parts = pos 0;
    wire_bytes = pos 0;
    hashed_bytes = pos 0;
    retries = pos 0;
  };
  credited = [];
  pending = pos 0;
  closed = false;
}

abbrev transfer : List Op
transfer =
    op_wire (pos 3000000)
    ∷ op_complete (pos 1) (pos 4) false
    ∷ op_wire (pos 100)
    ∷ op_complete (pos 1) (pos 4) false
    ∷ op_complete_twins (pos 1) (pos 4)
    ∷ op_hashed (pos 7)
    ∷ op_complete (pos 9) (pos 4) true
    ∷ []

abbrev late : List Op
late = op_finish none ∷ op_complete (pos 2) (pos 4) false ∷ []

begun : Reporter
begun = run (op_begin transferring (pos 12) (pos 3) ∷ transfer) fresh

begun_counts : (begun.snap.completed_parts ≡ pos 2) × (begun.pending ≡ pos 7)
unfolding begun run step begin set_totals set_phase deliver coalesce complete complete_twins wire
    hashed is_credited add64 mul64
begun_counts = (refl, refl)

finish_terminal_example :
    (run (op_finish none ∷ transfer) fresh ≡ finish fresh none)
    × ((s : Snapshot) × ((finish fresh none).delivered ≡ s ∷ []) × IsLast fresh.snap none s)
finish_terminal_example =
    finish_terminal fresh none transfer refl
      (refl, (refl, (refl, (refl, (refl, (refl, (refl, tt)))))))

run-Lag_example : Lag (run (op_begin transferring (pos 12) (pos 3) ∷ transfer) fresh)
run-Lag_example =
    run-Lag fresh transferring (pos 12) (pos 3) transfer
      (omega arith, (tt, (omega arith, (tt, (tt, (omega arith, (tt, tt)))))))

-- A pull that ends well, with a late report behind its end.
run-credits_example :
    let r' = run (op_measured (pos 12) (pos 3) ∷ (transfer ++ late)) fresh in
    (bits r'.snap.completed_parts
      ≡ (0 + (count r'.credited + all_twins transfer)) % 18446744073709551616)
    × (get_elem? r'.credited 1 ≡ some (named 1 transfer))
run-credits_example =
    run-credits fresh (op_measured (pos 12) (pos 3)) 3 1 transfer late refl (omega arith) refl
      (tt, (tt, (tt, (tt, (tt, (tt, (tt, tt))))))) (tt, (refl, tt))

-- Three parts share digest "a": the second asks while the upload runs, the third after it.
abbrev sharing : List Event
sharing =
    took (codes "a")
    ∷ took (codes "b")
    ∷ took (codes "a")
    ∷ settled (codes "a")
    ∷ took (codes "a")
    ∷ []

claims-Balanced_example :
    Balanced
      (asks (codes "a") sharing)
      (uploads (codes "a") new_claim_set sharing)
      (credits (codes "a") new_claim_set sharing)
      (lookup (codes "a") (Conservation.run sharing new_claim_set))
claims-Balanced_example =
    claims-Balanced (codes "a") sharing
      (unfold take_claim take_from lookup insert bytes_eq in (refl, tt))

sharing-credits : credits (codes "a") new_claim_set sharing ≡ 3
unfolding take_claim take_from settle waiting_of lookup insert bytes_eq
sharing-credits = refl
