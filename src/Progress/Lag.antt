-- ===== src/Progress/Lag.antt =====
-- How far the watcher's latest snapshot may trail the account (progress.go).
use bigoci.Prelude.{
  if◌then◌else◌, Bool-cases, All, add64, ℤ, pos, negsuc, ◌≤ℤ◌, leb_ℤ, max_int64, bits, add64_small,
  ℕ, ◌+◌, ◌%◌, ◌≤◌, ◌<◌, ◌≡◌, refl, ap, ◌∙◌, inl, inr, Bool, true, false, ◌||◌, List, [], ◌∷◌,
  arith, bits_lt, bits-add64, bits_pos,
}
use bigoci.Progress.{
  Op, op_begin, op_measured, op_finalizing, op_complete, op_complete_twins, op_wire, op_hashed,
  op_retried, op_finish, Reporter, Snapshot, Phase, begin, measured, finalize, complete,
  complete_twins, wire, hashed, retried, finish, step, run, deliver, coalesce, is_credited,
  progress_step,
}

-- The latest snapshot delivered is `last`. The account has moved on from it by `wire_lag` bytes on
-- the wire and `hash_lag` bytes hashed, and in no other field; the two lags together stay below the
-- 4 MiB of progressStep.
pub record Lag (r : Reporter) : Type 0 where
  pub last : Snapshot
  pub rest : List Snapshot
  pub wire_lag : ℕ
  pub hash_lag : ℕ
  pub delivered_eq : r.delivered ≡ last ∷ rest
  pub same :
      record last { wire_bytes = r.snap.wire_bytes; hashed_bytes = r.snap.hashed_bytes } ≡ r.snap
  pub wire_eq : bits r.snap.wire_bytes ≡ (bits last.wire_bytes + wire_lag) % 18446744073709551616
  pub hash_eq :
      bits r.snap.hashed_bytes ≡ (bits last.hashed_bytes + hash_lag) % 18446744073709551616
  pub pending_eq : r.pending ≡ pos (wire_lag + hash_lag)
  pub small : wire_lag + hash_lag < 4194304

-- A single write of the transfer is far smaller than this.
abbrev pub HasSmallDelta : Op → Type 0
HasSmallDelta (op_wire n) = n ≤ℤ pos 9223372036850581503
HasSmallDelta (op_hashed n) = n ≤ℤ pos 9223372036850581503
HasSmallDelta _ = Unit

deliver-Lag : (r : Reporter) → Lag (deliver r)
unfolding deliver
deliver-Lag r = record {
  last = r.snap;
  rest = r.delivered;
  wire_lag = 0;
  hash_lag = 0;
  delivered_eq = refl;
  same = refl;
  wire_eq = omega (arith, bits_lt r.snap.wire_bytes);
  hash_eq = omega (arith, bits_lt r.snap.hashed_bytes);
  pending_eq = refl;
  small = omega arith;
}

pending_add :
    (lag n : ℕ) → lag < 4194304 → n ≤ 9223372036850581503 → add64 (pos lag) (pos n) ≡ pos (lag + n)
pending_add lag n h k = add64_small lag n (omega arith)

wire_moves :
    (a : ℤ) (b lag n : ℕ)
    → n ≤ max_int64
    → bits a ≡ (b + lag) % 18446744073709551616
    → bits (add64 a (pos n)) ≡ (b + (lag + n)) % 18446744073709551616
wire_moves a b lag n h e = rw (bits-add64 a (pos n), bits_pos n h, e) (omega arith)

stays_small : (lag : ℕ) (p : ℤ) → p ≡ pos lag → leb_ℤ progress_step p ≡ false → lag < 4194304
stays_small lag p e h = ground arith

wire-Lag : (r : Reporter) (n : ℤ) → Lag r → HasSmallDelta (op_wire n) → Lag (wire r n)
unfolding wire coalesce
wire-Lag r (negsuc n) l h = ground arith
wire-Lag r (pos n) l h = elim (Bool-cases (leb_ℤ (pos n) (pos 0) || r.closed)) [
  | inl y ↦ rw y l
  | inr go ↦
      let sum : add64 r.pending (pos n) ≡ pos (l.wire_lag + l.hash_lag + n) =
        rw l.pending_eq (pending_add (l.wire_lag + l.hash_lag) n l.small (omega arith)) in
      rw go (elim (Bool-cases (leb_ℤ progress_step (add64 r.pending (pos n)))) [
        | inl full ↦ rw full (deliver-Lag _)
        | inr more ↦ rw more (record {
          last = l.last;
          rest = l.rest;
          wire_lag = l.wire_lag + n;
          hash_lag = l.hash_lag;
          delivered_eq = l.delivered_eq;
          same =
              ap {A = Snapshot} {B = Snapshot}
                (λ s. record s { wire_bytes = add64 r.snap.wire_bytes (pos n) }) l.same;
          wire_eq = wire_moves _ _ l.wire_lag n (omega arith) l.wire_eq;
          hash_eq = l.hash_eq;
          pending_eq = sum ∙ ap pos (omega arith);
          small = stays_small (l.wire_lag + n + l.hash_lag) _ (sum ∙ ap pos (omega arith)) more;
        })
      ])
]

hashed-Lag : (r : Reporter) (n : ℤ) → Lag r → HasSmallDelta (op_hashed n) → Lag (hashed r n)
unfolding hashed coalesce
hashed-Lag r (negsuc n) l h = ground arith
hashed-Lag r (pos n) l h = elim (Bool-cases (leb_ℤ (pos n) (pos 0) || r.closed)) [
  | inl y ↦ rw y l
  | inr go ↦
      let sum : add64 r.pending (pos n) ≡ pos (l.wire_lag + l.hash_lag + n) =
        rw l.pending_eq (pending_add (l.wire_lag + l.hash_lag) n l.small (omega arith)) in
      rw go (elim (Bool-cases (leb_ℤ progress_step (add64 r.pending (pos n)))) [
        | inl full ↦ rw full (deliver-Lag _)
        | inr more ↦ rw more (record {
          last = l.last;
          rest = l.rest;
          wire_lag = l.wire_lag;
          hash_lag = l.hash_lag + n;
          delivered_eq = l.delivered_eq;
          same =
              ap {A = Snapshot} {B = Snapshot}
                (λ s. record s { hashed_bytes = add64 r.snap.hashed_bytes (pos n) }) l.same;
          wire_eq = l.wire_eq;
          hash_eq = wire_moves _ _ l.hash_lag n (omega arith) l.hash_eq;
          pending_eq = sum ∙ ap pos (omega arith);
          small = stays_small (l.wire_lag + (l.hash_lag + n)) _ (sum ∙ ap pos (omega arith)) more;
        })
      ])
]

if-Lag : (b : Bool) (r s : Reporter) → Lag r → Lag s → Lag (if b then r else s)
if-Lag true r s l m = l
if-Lag false r s l m = m

step-Lag : (o : Op) (r : Reporter) → Lag r → HasSmallDelta o → Lag (step o r)
unfolding step begin measured finalize complete complete_twins retried finish
step-Lag (op_begin p b n) r l h = deliver-Lag _
step-Lag (op_measured b n) r l h = if-Lag r.closed _ _ l (deliver-Lag _)
step-Lag op_finalizing r l h = if-Lag r.closed _ _ l (deliver-Lag _)
step-Lag (op_complete i n skipped) r l h =
    if-Lag (r.closed || is_credited r i) _ _ l (deliver-Lag _)
step-Lag (op_complete_twins c n) r l h = if-Lag (leb_ℤ c (pos 0) || r.closed) _ _ l (deliver-Lag _)
step-Lag (op_wire n) r l h = wire-Lag r n l h
step-Lag (op_hashed n) r l h = hashed-Lag r n l h
step-Lag op_retried r l h = if-Lag r.closed _ _ l (deliver-Lag _)
step-Lag (op_finish e) r l h = if-Lag r.closed _ _ l (deliver-Lag _)

run-Lag' : (os : List Op) (r : Reporter) → Lag r → All HasSmallDelta os → Lag (run os r)
unfolding run
run-Lag' [] r l h = l
run-Lag' (o ∷ os) r l h = run-Lag' os (step o r) (step-Lag o r l h.0) h.1

-- Once begun, and after any operations in any order, the latest snapshot that the callback was
-- handed trails the account by less than 4 MiB of bytes on the wire and bytes hashed together, and
-- agrees with it in every other field. Single deltas are below 2 ^ 63 - 4 MiB.
pub run-Lag :
    (r : Reporter) (p : Phase) (b n : ℤ) (os : List Op)
    → All HasSmallDelta os
    → Lag (run (op_begin p b n ∷ os) r)
unfolding run step begin
run-Lag r p b n os h = run-Lag' os (begin r p b n) (deliver-Lag _) h
