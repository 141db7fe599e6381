-- ===== src/Plan/Smallest.antt =====
-- The part size that a refusal of plan.go recommends, and `Part` against `Parts`.
use bigoci.Prelude.{
  ltb, ◌==◌, if◌then◌else◌, lt→ltb, le→ltb_false, get_elem?, pos, max_int64, add64_small, ℕ, zero,
  suc, ◌+◌, ◌-◌, ◌*◌, ◌/◌, ◌%◌, ◌≤◌, ◌<◌, ◌≡◌, sym, ap, ◌∙◌, ◌⊎◌, inl, inr, false, none, some,
  arith, dec_lt,
}
use bigoci.Plan.{
  Plan, ok, err, too_many_parts, max_parts, smallest_part_size, part, part_at, parts_from, parts,
  new, new_checked,
}
use bigoci.Plan.Count.{IsCount, part_count, count_parts-part_count, part_count-IsCount}
use native.Mathlib.Nat.{mul-le-mul_right}

-- The least size of which `max_parts` cover the file, as a plain number.
abbrev ceiling : ℕ → ℕ
ceiling f = if ltb 0 (f % max_parts) then f / max_parts + 1 else f / max_parts

smallest_part_size-ceiling : (f : ℕ) → f ≤ max_int64 → smallest_part_size f ≡ pos (ceiling f)
unfolding smallest_part_size
smallest_part_size-ceiling f h = ground (arith, add64_small (f / max_parts) 1)

ceiling_covers : (f : ℕ) → f ≤ max_parts * ceiling f
ceiling_covers f = ground arith

ceiling_least : (f p : ℕ) → f ≤ max_parts * p → ceiling f ≤ p
ceiling_least f p h = ground arith

count_few : (f p n : ℕ) → IsCount f p n → n ≤ max_parts → f ≤ max_parts * p
count_few f p n c h = omega (arith, c.reaches, mul-le-mul_right p h)

count_many : (f p n : ℕ) → IsCount f p n → max_parts < n → max_parts * p < f
count_many f p n c h = elim c.needed [
  | inl one ↦ absurd (omega arith)
  | inr l ↦ let k : max_parts ≤ n - 1 = omega arith in omega (arith, mul-le-mul_right p k)
]

module _ (f p : ℕ) (h : f ≤ max_int64) (k : 0 < p) where
  positive : (p == 0) ≡ false
  positive = ground arith

  new_few :
      f ≤ max_parts * p
      → new (pos f) (pos p)
        ≡ ok (record { file_size = f; part_size = p; num_parts = part_count f p })
  unfolding new new_checked
  new_few l = elim (dec_lt max_parts (part_count f p)) [
    | yes m ↦ absurd (omega (arith, count_many f p _ (part_count-IsCount f p k) m))
    | no m ↦ rw (
      positive,
      count_parts-part_count f p h k,
      le→ltb_false max_parts (part_count f p) (omega arith),
    )
  ]

  new_many : max_parts * p < f → new (pos f) (pos p) ≡ err (too_many_parts (ceiling f))
  unfolding new new_checked
  new_many l = elim (dec_lt max_parts (part_count f p)) [
    | yes m ↦ rw (
      positive,
      count_parts-part_count f p h k,
      lt→ltb max_parts (part_count f p) m,
      smallest_part_size-ceiling f h,
    )
    | no m ↦ absurd (omega (arith, count_few f p _ (part_count-IsCount f p k) (omega arith)))
  ]

-- The size in the refusal: it is the size of `f` alone.
new_refusal :
    (f p s : ℕ)
    → f ≤ max_int64
    → 0 < p
    → new (pos f) (pos p) ≡ err (too_many_parts s)
    → (s ≡ ceiling f) × (max_parts * p < f)
new_refusal f p s h k e = elim (dec_lt (max_parts * p) f) [
  | yes m ↦ (cc (new_many f p h k m), m)
  | no m ↦ absurd (cc (new_few f p h k (omega arith)))
]

-- Where a file of `f` bytes is refused for too many parts, the part size `s` that the error names
-- is positive, `New` accepts it, and it refuses every smaller positive one: any positive part size
-- `r` is at least `s`, or refused with the same error. For an int64 file size.
pub too_many_parts-smallest :
    (f p s r : ℕ)
    → f ≤ max_int64
    → 0 < p
    → new (pos f) (pos p) ≡ err (too_many_parts s)
    → 0 < r
    → (0 < s)
      × ((q : Plan) × (new (pos f) (pos s) ≡ ok q))
      × ((s ≤ r) ⊎ (new (pos f) (pos r) ≡ err (too_many_parts s)))
too_many_parts-smallest f p s r h k e kr =
    let (es, m) = new_refusal f p s h k e in
    let covers : f ≤ max_parts * s = omega (arith, rw (← es) at (ceiling_covers f)) in
    (
      omega arith,
      (_, new_few f s h (omega arith) covers),
      elim (dec_lt (max_parts * r) f) [
        | yes l ↦ inr (new_many f r h kr l ∙ ap (λ t. err (too_many_parts t)) (sym es))
        | no l ↦ inl (omega (arith, ceiling_least f r (omega arith)))
      ],
    )

get_parts_from :
    (q : Plan) (i left j : ℕ)
    → get_elem? (parts_from q i left) j ≡ (if ltb j left then some (part q (i + j)) else none)
unfolding parts_from
get_parts_from q i zero j = ground arith
get_parts_from q i (suc left) zero = ground arith
get_parts_from q i (suc left) (suc j) =
    let e : i + 1 + j ≡ i + suc j = omega arith in
    rw (get_parts_from q (i + 1) left j, e) (ground arith)

-- `Part` at an index agrees with the sequence of `Parts`: the part there, or a panic exactly where
-- the sequence has none.
get_elem?-parts : (q : Plan) (i : ℕ) → part_at q (pos i) ≡ get_elem? (parts q) i
unfolding part_at parts
get_elem?-parts q i =
    rw (get_parts_from q 0 q.num_parts i) (let e : 0 + i ≡ i = omega arith in rw e)
