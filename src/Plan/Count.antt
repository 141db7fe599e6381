-- ===== src/Plan/Count.antt =====
-- The number of parts that plan.go counts, and the branches of `New`.
use bigoci.Prelude.{
  ltb, ◌==◌, if◌then◌else◌, ltb→lt, Bool-cases, ℤ, pos, negsuc, ◌≤ℤ◌, ltb_ℤ, leb_ℤ, max_int64,
  add64_small, ℕ, ◌+◌, ◌-◌, ◌*◌, ◌/◌, ◌%◌, ◌≤◌, ◌<◌, ◌≡◌, refl, ◌⊎◌, inl, inr, true, false, ◌||◌,
  arith,
}
use bigoci.Plan.{
  PlanResult, ok, err, negative_file_size, part_size_not_positive, too_many_parts, max_parts,
  count_parts, new, new_checked,
}
use native.Mathlib.Nat.{div-le_self, div-add-mod', mod-lt}

-- `n` is the number of parts: they reach the end of the file, and one fewer would not. An empty
-- file has one part.
pub record IsCount (f p n : ℕ) : Type 0 where
  pub positive : 0 < n
  pub reaches : f ≤ n * p
  pub needed : (n ≡ 1) ⊎ ((n - 1) * p < f)

-- The count as a plain number.
abbrev pub part_count : ℕ → ℕ → ℕ
part_count f p = let n = f / p in if n == 0 || ltb 0 (f % p) then n + 1 else n

part_count-le : (f p : ℕ) → 0 < p → part_count f p ≤ f + 1
part_count-le f p h = ground (arith, div-le_self f p)

div-lt_of_mod : (f p : ℕ) → 0 < p → 0 < f % p → f / p < f
div-lt_of_mod f p h k = grind (arith, div-add-mod' f p)

-- The increment never overflows, although rounding up by (f + p - 1) / p could.
pub count_parts-part_count :
    (f p : ℕ) → f ≤ max_int64 → 0 < p → count_parts f p ≡ pos (part_count f p)
unfolding count_parts
count_parts-part_count f p h k =
    ground (arith, add64_small (f / p) 1, div-lt_of_mod f p k, div-le_self f p)

IsCount-exact : (f p n : ℕ) → n * p ≡ f → 0 < n → 0 < p → IsCount f p n
IsCount-exact f p n e h k = record {
  positive = h;
  reaches = omega arith;
  needed = inr (grind arith);
}

IsCount-rest : (f p n : ℕ) → n * p ≤ f → f < n * p + p → (n ≡ 0) ⊎ (n * p < f) → IsCount f p (n + 1)
IsCount-rest f p n a b c = record {
  positive = omega arith;
  reaches = omega arith;
  needed = elim c [
    | inl z ↦ inl (omega arith)
    | inr l ↦ inr (let e : n + 1 - 1 ≡ n = omega arith in rw e l)
  ];
}

pub part_count-IsCount : (f p : ℕ) → 0 < p → IsCount f p (part_count f p)
part_count-IsCount f p h = elim (Bool-cases (f / p == 0 || ltb 0 (f % p))) [
  | inl up ↦ rw up (
      IsCount-rest f p (f / p) (omega (arith, div-add-mod' f p))
        (omega (arith, div-add-mod' f p, mod-lt f h)) (ground (arith, div-add-mod' f p)))
  | inr even ↦
      rw even (IsCount-exact f p (f / p) (ground (arith, div-add-mod' f p)) (ground arith) h)
]

-- The three branches of `New`.
abbrev pub NewSpec : ℤ → ℤ → PlanResult → Type 0
NewSpec f p (ok q) =
    (f ≡ pos q.file_size)
    × (p ≡ pos q.part_size)
    × (0 < q.part_size)
    × IsCount q.file_size q.part_size q.num_parts
    × (q.num_parts ≤ max_parts)
NewSpec f p (err negative_file_size) = ltb_ℤ f (pos 0) ≡ true
NewSpec f p (err part_size_not_positive) = (ltb_ℤ f (pos 0) ≡ false) × (leb_ℤ p (pos 0) ≡ true)
NewSpec f p (err (too_many_parts s)) =
    (f' : ℕ) × (p' : ℕ) × (n : ℕ) × (f ≡ pos f') × (p ≡ pos p') × IsCount f' p' n × (max_parts < n)

new_checked-NewSpec : (f p : ℕ) → f ≤ max_int64 → 0 < p → NewSpec (pos f) (pos p) (new_checked f p)
unfolding new_checked
new_checked-NewSpec f p h k =
    rw (count_parts-part_count f p h k) (elim (Bool-cases (ltb max_parts (part_count f p))) [
      | inl many ↦
          rw many (f, p, part_count f p, refl, refl, part_count-IsCount f p k, ltb→lt _ _ many)
      | inr few ↦ rw few (refl, refl, k, part_count-IsCount f p k, ground arith)
    ])

-- For a file size within int64, `New` either refuses for the reason that it names, each reason
-- under exactly its own condition on the two sizes, or returns a plan of the two sizes whose
-- number of parts is the least that covers the file (one for an empty file), and at most MaxParts.
pub new-NewSpec : (f p : ℤ) → f ≤ℤ pos max_int64 → NewSpec f p (new f p)
unfolding new
new-NewSpec (negsuc f) p h = ground arith
new-NewSpec (pos f) (negsuc p) h = ground arith
new-NewSpec (pos f) (pos p) h = elim (Bool-cases (p == 0)) [
  | inl z ↦ rw z (ground arith)
  | inr nz ↦ rw nz (new_checked-NewSpec f p (omega arith) (ground arith))
]
