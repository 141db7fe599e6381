-- ===== src/Progress/Credit.antt =====
-- Every part is credited once (progress.go): `complete` and `completeTwins`.
use bigoci.Prelude.{
  Bool-cases, get_elem?, replicate, All, add64, ℤ, pos, negsuc, ltb_ℤ, leb_ℤ, bits, ℕ, ◌+◌, ◌%◌,
  ◌<◌, ◌≡◌, refl, ap, ◌∙◌, inl, inr, Bool, true, false, ◌||◌, some, List, [], ◌∷◌, ◌++◌, arith,
  bits_lt, bits-add64, Bool-cases, ap, ap,
}
use bigoci.Progress.Closed.{run_closed}
use bigoci.Progress.Marks.{
  count, IsRunning, IsSizing, IsFinish, IsEnding, twins, all_twins, names, named, count-set,
  count-replicate, get_elem?-replicate, get_elem?-set,
}
use bigoci.Progress.{
  Op, op_begin, op_measured, op_complete, op_complete_twins, op_finish, Reporter, finish, measured,
  begin, finalize, complete, complete_twins, wire, hashed, retried, step, run, deliver, coalesce,
  set_phase, set_totals, is_credited,
}

-- The number of completed parts, past the `base` that it started from, is what has been credited
-- by index and the `t` twins.
record Counts (base t : ℕ) (r : Reporter) : Type 0 where
  opened : r.closed ≡ false
  counted : bits r.snap.completed_parts ≡ (base + (count r.credited + t)) % 18446744073709551616

is_credited-cases :
    (r : Reporter) (i : ℕ) → is_credited r (pos i) ≡ false → get_elem? r.credited i ≡ some false
unfolding is_credited
is_credited-cases r i h = ground arith

bits-add64_mod :
    (a : ℤ) (n m : ℕ)
    → bits a ≡ m % 18446744073709551616
    → bits (add64 a (pos n)) ≡ (m + n) % 18446744073709551616
bits-add64_mod a n m e = rw (bits-add64 a (pos n), e) (omega arith)

module _ (base t : ℕ) (r : Reporter) (c : Counts base t r) where
  complete-Counts : (i n : ℤ) (skipped : Bool) → Counts base t (complete r i n skipped)
  unfolding complete deliver
  complete-Counts (negsuc i) n skipped = let e = c.opened in unfold is_credited in ground arith
  complete-Counts (pos i) n skipped = elim (Bool-cases (r.closed || is_credited r (pos i))) [
    | inl y ↦ rw y c
    | inr go ↦
        let free = is_credited-cases r i (ground arith) in
        let more = bits-add64_mod r.snap.completed_parts 1 _ c.counted in
        rw go
          (record { opened = c.opened; counted = omega (arith, more, count-set r.credited i free) })
  ]

  twins-Counts : (k : ℕ) (n : ℤ) → Counts base (t + k) (complete_twins r (pos k) n)
  unfolding complete_twins deliver
  twins-Counts k n = elim (Bool-cases (leb_ℤ (pos k) (pos 0))) [
    | inl y ↦ let e : t + k ≡ t = ground arith in rw (y, e) c
    | inr go ↦
        let more = bits-add64_mod r.snap.completed_parts k _ c.counted in
        rw (go, c.opened) (record { opened = refl; counted = omega (arith, more) })
  ]

  step-Counts : (o : Op) → IsRunning o → Counts base (t + twins o) (step o r)
  unfolding step finalize complete_twins wire hashed retried deliver coalesce set_phase
  step-Counts (op_complete i n s) h =
      let e : t + 0 ≡ t = omega arith in rw e (complete-Counts i n s)
  step-Counts (op_complete_twins (pos k) n) h = twins-Counts k n
  step-Counts o h = ground arith

run-Counts :
    (base t : ℕ) (os : List Op) (r : Reporter)
    → Counts base t r
    → All IsRunning os
    → Counts base (t + all_twins os) (run os r)
unfolding run
run-Counts base t [] r c h = let e : t + 0 ≡ t = omega arith in rw e c
run-Counts base t (o ∷ os) r c h =
    let e : t + (twins o + all_twins os) ≡ t + twins o + all_twins os = omega arith in
    rw e (run-Counts base (t + twins o) os (step o r) (step-Counts base t r c o h.0) h.1)

step-names :
    (o : Op) (r : Reporter) (i : ℕ) (b : Bool)
    → IsRunning o
    → r.closed ≡ false
    → get_elem? r.credited i ≡ some b
    → (get_elem? (step o r).credited i ≡ some (names i o || b)) × ((step o r).closed ≡ false)
unfolding step finalize complete complete_twins wire hashed retried deliver coalesce set_phase
    is_credited
step-names (op_complete (pos j) n s) r i b h c e =
    ground (arith, get_elem?-set r.credited i j b true e)
step-names o r i b h c e = ground arith

run-names :
    (os : List Op) (r : Reporter) (i : ℕ) (b : Bool)
    → All IsRunning os
    → r.closed ≡ false
    → get_elem? r.credited i ≡ some b
    → get_elem? (run os r).credited i ≡ some (named i os || b)
unfolding run
run-names [] r i b h c e = e
run-names (o ∷ os) r i b h c e =
    let (e', c') = step-names o r i b h.0 c e in
    run-names os (step o r) i (names i o || b) h.1 c' e'
    ∙ ap some (regroup (names i o) (named i os) b)
  where
    regroup : (x y z : Bool) → (y || (x || z)) ≡ ((x || y) || z)
    regroup x y z = ground arith

fresh_marks :
    (c n : ℕ)
    → c < 18446744073709551616
    → c ≡ (c + (count (replicate n false) + 0)) % 18446744073709551616
fresh_marks c n h = omega (arith, count-replicate n)

sized-Counts :
    (o : Op) (r : Reporter) (n : ℕ)
    → IsSizing n o
    → 0 < n
    → r.closed ≡ false
    → Counts (bits r.snap.completed_parts) 0 (step o r) × ((step o r).credited ≡ replicate n false)
unfolding step begin measured deliver set_totals set_phase
sized-Counts (op_begin p b k) r n s h c =
    let t : ltb_ℤ (pos 0) (pos n) ≡ true = ground arith in
    let start = fresh_marks (bits r.snap.completed_parts) n (bits_lt r.snap.completed_parts) in
    rw (s, t) (record { opened = c; counted = start }, refl)
sized-Counts (op_measured b k) r n s h c =
    let t : ltb_ℤ (pos 0) (pos n) ≡ true = ground arith in
    let start = fresh_marks (bits r.snap.completed_parts) n (bits_lt r.snap.completed_parts) in
    rw (c, s, t) (record { opened = refl; counted = start }, refl)
sized-Counts o r n s h c = ground arith

finish-keeps :
    (o : Op) (r : Reporter)
    → IsFinish o
    → r.closed ≡ false
    → ((step o r).closed ≡ true)
      × ((step o r).snap.completed_parts ≡ r.snap.completed_parts)
      × ((step o r).credited ≡ r.credited)
unfolding step finish deliver set_phase
finish-keeps (op_finish e) r h c = rw c (refl, refl, refl)
finish-keeps o r h c = ground arith

-- An ending leaves the parts and their marks as they are.
ending-keeps :
    (os : List Op) (r : Reporter)
    → IsEnding os
    → r.closed ≡ false
    → ((run os r).snap.completed_parts ≡ r.snap.completed_parts)
      × ((run os r).credited ≡ r.credited)
unfolding run
ending-keeps [] r h c = (refl, refl)
ending-keeps (o ∷ os) r (f, h) c =
    let (closes, parts, marks) = finish-keeps o r f c in
    rw (run_closed os (step o r) h closes) (parts, marks)

run-append : (os os' : List Op) (r : Reporter) → run (os ++ os') r ≡ run os' (run os r)
unfolding run
run-append [] os' r = refl
run-append (o ∷ os) os' r = run-append os os' (step o r)

-- An open reporter is sized for `n` parts, by `begin` as in a push or by `measured` as in a pull,
-- then runs through any operations other than `begin`, `measured` and `finish`, in any order and
-- with any repetition, and then perhaps through a `finish` with anything but a `begin` behind it.
-- Then a part `i` of the `n` is marked as credited exactly when some `complete` in front of the
-- `finish` named it, and the completed parts have grown by the number of marked parts plus the
-- twins, modulo 2 ^ 64: a part that is reported twice counts once, an index out of range not at
-- all, and nothing counts behind the `finish`.
pub run-credits :
    (r : Reporter) (o : Op) (n i : ℕ) (os end : List Op)
    → IsSizing n o
    → i < n
    → r.closed ≡ false
    → All IsRunning os
    → IsEnding end
    → let r' = run (o ∷ (os ++ end)) r in
      (bits r'.snap.completed_parts
        ≡ (bits r.snap.completed_parts + (count r'.credited + all_twins os)) % 18446744073709551616)
      × (get_elem? r'.credited i ≡ some (named i os))
run-credits r o n i os end s l c k h =
    let (start, fresh) = sized-Counts o r n s (omega arith) c in
    let counts = run-Counts _ 0 os (step o r) start k in
    let (parts, marks) = ending-keeps end (run os (step o r)) h counts.opened in
    let split : run (o ∷ (os ++ end)) r ≡ run end (run os (step o r)) =
      unfold run in run-append os end (step o r) in
    rw (split, parts, marks)
      (
        omega (arith, counts.counted),
        run-names os (step o r) i false k start.opened (rw fresh (get_elem?-replicate n i l))
            ∙ ap some (or_false (named i os)),
      )
  where
    or_false : (x : Bool) → (x || false) ≡ x
    or_false x = ground arith
