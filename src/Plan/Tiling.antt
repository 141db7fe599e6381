-- ===== src/Plan/Tiling.antt =====
-- The parts that plan.go yields tile the file, and computing their offsets never overflows.
use bigoci.Prelude.{
  ℤ, pos, pos_part, ◌≤ℤ◌, max_int64, sub64_small, mul64_small, ℕ, zero, suc, ◌+◌, ◌-◌, ◌*◌, ◌≤◌,
  ◌<◌, min, ◌≡◌, refl, ◌⊎◌, inl, inr, List, [], ◌∷◌, arith, min_ℤ-pos, dec_lt,
}
use bigoci.Plan.{Part, Plan, ok, max_parts, part, parts_from, parts, new}
use bigoci.Plan.Count.{IsCount, NewSpec, new-NewSpec}
use native.Mathlib.Nat.{mul-le-mul_right}

-- Consecutive byte ranges from offset `at` up to `end`, their indexes counted from `i`. Each is
-- full except the last, and none is empty unless the file is.
abbrev pub Tiles : ℕ → ℕ → ℕ → ℕ → List Part → Type 0
Tiles p end at i [] = at ≡ end
Tiles p end at i (x ∷ xs) =
    (n : ℕ) × (x.index ≡ i)
    × (x.offset ≡ pos at)
    × (x.size ≡ pos n)
    × ((n ≡ p) ⊎ ((xs ≡ []) × (n ≤ p)))
    × ((0 < n) ⊎ (end ≡ 0))
    × Tiles p end (at + n) (i + 1) xs

record Fits (q : Plan) : Type 0 where
  file_fits : q.file_size ≤ max_int64
  part_fits : q.part_size ≤ max_int64
  part_positive : 0 < q.part_size
  few : q.num_parts ≤ max_parts
  count : IsCount q.file_size q.part_size q.num_parts

mul_mono : (i j p : ℕ) → i ≤ j → i * p ≤ j * p
mul_mono i j p h = mul-le-mul_right p h

offset-le : (f p n i : ℕ) → IsCount f p n → i < n → i * p ≤ f
offset-le f p n i c h = elim c.needed [
  | inl one ↦ grind arith
  | inr l ↦ omega (arith, mul_mono i (n - 1) p (omega arith))
]

before_last : (f p n i : ℕ) → IsCount f p n → i + 1 ≤ n → 0 < i → i * p < f
before_last f p n i c h k = elim c.needed [
  | inl one ↦ absurd (omega arith)
  | inr l ↦ omega (arith, mul_mono i (n - 1) p (omega arith))
]

part_value :
    (q : Plan) (i : ℕ)
    → Fits q
    → i < q.num_parts
    → let at = i * q.part_size in
      part q i
      ≡ record { index = i; offset = pos at; size = pos (min q.part_size (q.file_size - at)) }
unfolding part
part_value q i fits h =
    let le : i * q.part_size ≤ q.file_size = offset-le _ _ _ i fits.count h in
    rw (
      mul64_small i q.part_size (omega arith) fits.part_fits (omega arith),
      sub64_small q.file_size (i * q.part_size) le fits.file_fits,
      min_ℤ-pos q.part_size (q.file_size - i * q.part_size),
    )

last_nonempty :
    (f p n i : ℕ) → IsCount f p n → n ≡ i + 1 → 0 < p → (0 < min p (f - i * p)) ⊎ (f ≡ 0)
last_nonempty f p n i c e k = elim c.needed [
  | inl one ↦ elim (dec_lt 0 f) [ yes l ↦ inl (grind arith) | no z ↦ inr (omega arith) ]
  | inr l ↦ inl (let b : n - 1 ≡ i = omega arith in omega (arith, rw b at l))
]

-- One round: what the range that starts at `i * p` holds, and where the next one starts.
size_facts :
    (f p n i : ℕ)
    → IsCount f p n
    → 0 < p
    → i < n
    → let size = min p (f - i * p) in
      ((size ≡ p) ⊎ ((i + 1 ≡ n) × (size ≤ p)))
      × ((0 < size) ⊎ (f ≡ 0))
      × ((i + 1 ≡ n → i * p + size ≡ f) × (i + 1 < n → i * p + size ≡ (i + 1) * p))
size_facts f p n i c k h = elim (dec_lt (i + 1) n) [
  | yes l ↦
      let inside : (i + 1) * p < f = before_last f p n (i + 1) c (omega arith) (omega arith) in
      let step : (i + 1) * p ≡ i * p + p = omega arith in
      (inl (omega arith), inl (omega arith), (λ e. omega arith, λ _. omega arith))
  | no g ↦
      let last : n ≡ i + 1 = omega arith in
      let reach : f ≤ (i + 1) * p = rw last at c.reaches in
      let below : i * p ≤ f = offset-le f p n i c h in
      (
        inr (omega arith, omega arith),
        last_nonempty f p n i c last k,
        (λ e. omega arith, λ l. omega arith),
      )
]

parts_from-none : (q : Plan) (i left : ℕ) → left ≡ 0 → parts_from q i left ≡ []
unfolding parts_from
parts_from-none q i zero e = refl
parts_from-none q i (suc left) e = absurd (omega arith)

parts_from-Tiles :
    (q : Plan) (i left at : ℕ)
    → Fits q
    → i + left ≡ q.num_parts
    → (0 < left → at ≡ i * q.part_size)
    → (left ≡ 0 → at ≡ q.file_size)
    → Tiles q.part_size q.file_size at i (parts_from q i left)
unfolding parts_from
parts_from-Tiles q i zero at fits e a b = b refl
parts_from-Tiles q i (suc left) at fits e a b =
    let (full, some_bytes, ends) =
      size_facts q.file_size q.part_size q.num_parts i fits.count fits.part_positive
        (omega arith) in
    let start : at ≡ i * q.part_size = a (omega arith) in
    rw (part_value q i fits (omega arith), start)
      (
        min q.part_size (q.file_size - i * q.part_size),
        refl,
        refl,
        refl,
        elim full [
          | inl x ↦ inl x
          | inr (l, x) ↦ inr (parts_from-none q (i + 1) left (omega arith), x)
        ],
        some_bytes,
        parts_from-Tiles q (i + 1) left _ fits (omega arith) (λ h. ends.1 (omega arith))
            (λ z. ends.0 (omega arith)),
      )

plan-Fits :
    (f p : ℤ) (q : Plan) → f ≤ℤ pos max_int64 → p ≤ℤ pos max_int64 → NewSpec f p (ok q) → Fits q
plan-Fits f p q hf hp (ef, ep, k, c, few) = record {
  file_fits = omega (arith, rw ef at hf);
  part_fits = omega (arith, rw ep at hp);
  part_positive = k;
  few = few;
  count = c;
}

-- Where `New` returns a plan, the parts that `Parts` yields are consecutive ranges of the file,
-- numbered from 0: the first starts at 0, each starts where the one before ends, the last ends at
-- the end of the file, every part but the last is a full part size, and no part is empty unless
-- the file is. For an int64 file size and part size.
pub parts-Tiles :
    (f p : ℤ) (q : Plan)
    → f ≤ℤ pos max_int64
    → p ≤ℤ pos max_int64
    → new f p ≡ ok q
    → (f ≡ pos q.file_size) × Tiles (pos_part p) q.file_size 0 0 (parts q)
unfolding parts
parts-Tiles f p q hf hp e =
    let spec : NewSpec f p (ok q) = rw e at (new-NewSpec f p hf) in
    let fits = plan-Fits f p q hf hp spec in
    let c = fits.count in
    (
      spec.0,
      rw spec.1 (
          parts_from-Tiles q 0 q.num_parts 0 fits (omega arith) (λ _. omega arith)
            (λ z. absurd (omega (arith, c.positive)))),
    )
