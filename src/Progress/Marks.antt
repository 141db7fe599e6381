-- ===== src/Progress/Marks.antt =====
-- The runs of an account, and what they mark as credited.
use bigoci.Prelude.{
  ◌==◌, if◌then◌else◌, get_elem?, set, replicate, All, pos, ℕ, zero, suc, ◌+◌, ◌<◌, ◌≡◌, refl, ap,
  Bool, true, false, ◌||◌, some, List, [], ◌∷◌, arith, ap, ap,
}
use bigoci.Progress.{Op, op_begin, op_measured, op_complete, op_complete_twins, op_finish}
use bigoci.Progress.Closed.{is_begin}

abbrev pub count : List Bool → ℕ
count [] = 0
count (true ∷ l) = suc (count l)
count (false ∷ l) = count l

-- The operations of a running transfer: all but those that size the account or end it.
abbrev pub IsRunning : Op → Type 0
IsRunning (op_begin _ _ _) = ⊥
IsRunning (op_measured _ _) = ⊥
IsRunning (op_finish _) = ⊥
IsRunning _ = Unit

-- The operation sizes the account for `n` parts: `begin` in a push, `measured` in a pull.
abbrev pub IsSizing : ℕ → Op → Type 0
IsSizing n (op_begin _ _ c) = c ≡ pos n
IsSizing n (op_measured _ c) = c ≡ pos n
IsSizing n _ = ⊥

abbrev pub IsFinish : Op → Type 0
IsFinish (op_finish _) = Unit
IsFinish _ = ⊥

-- What may stand behind a running transfer: nothing yet, or its `finish` and late calls.
abbrev pub IsEnding : List Op → Type 0
IsEnding [] = Unit
IsEnding (o ∷ os) = IsFinish o × All (λ o. is_begin o ≡ false) os

-- The parts that twins are credited for.
abbrev pub twins : Op → ℕ
twins (op_complete_twins (pos c) _) = c
twins _ = 0

abbrev pub all_twins : List Op → ℕ
all_twins [] = 0
all_twins (o ∷ os) = twins o + all_twins os

-- The part `i` is named by a `complete`.
abbrev pub names : ℕ → Op → Bool
names i (op_complete (pos j) _ _) = i == j
names i _ = false

abbrev pub named : ℕ → List Op → Bool
named i [] = false
named i (o ∷ os) = names i o || named i os

pub count-set :
    (l : List Bool) (i : ℕ) → get_elem? l i ≡ some false → count (set l i true) ≡ suc (count l)
count-set [] i e = absurd (ground arith)
count-set (false ∷ l) zero e = refl
count-set (true ∷ l) zero e = absurd (ground arith)
count-set (false ∷ l) (suc i) e = count-set l i e
count-set (true ∷ l) (suc i) e = ap suc (count-set l i e)

pub count-replicate : (n : ℕ) → count (replicate n false) ≡ 0
count-replicate zero = refl
count-replicate (suc n) = count-replicate n

pub get_elem?-replicate : (n i : ℕ) → i < n → get_elem? (replicate n false) i ≡ some false
get_elem?-replicate zero i h = absurd (omega arith)
get_elem?-replicate (suc n) zero h = refl
get_elem?-replicate (suc n) (suc i) h = get_elem?-replicate n i (omega arith)

pub get_elem?-set :
    (l : List Bool) (i j : ℕ) (b c : Bool)
    → get_elem? l i ≡ some b
    → get_elem? (set l j c) i ≡ some (if i == j then c else b)
get_elem?-set [] i j b c e = absurd (ground arith)
get_elem?-set (x ∷ l) zero zero b c e = refl
get_elem?-set (x ∷ l) zero (suc j) b c e = ground arith
get_elem?-set (x ∷ l) (suc i) zero b c e = ground arith
get_elem?-set (x ∷ l) (suc i) (suc j) b c e = ground (arith, get_elem?-set l i j b c e)
