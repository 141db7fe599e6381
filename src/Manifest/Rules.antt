-- ===== src/Manifest/Rules.antt =====
-- What internal/manifest accepts as an artifact, and that `validate` and `Decode` enforce it.
use bigoci.Prelude.{
  Bytes, length, length-map, All, ℤ, pos, ℕ, zero, suc, ◌+◌, ◌≤◌, ◌<◌, ◌≡◌, refl, sym, ap, ◌∙◌, ◌≢◌,
  ◌↔◌, ◌⊎◌, inl, inr, true, none, some, List, [], ◌∷◌, map, arith, bytes_eq_iff, ==ℤ_iff,
}
use mathlib.Core.Path.{subst}
use bigoci.Text.{valid_utf8}
use bigoci.Plan.{Plan, PlanResult, PlanError, new, part, part_at, parts, parts_from, ok, err}
use bigoci.Manifest.{
  Oci, Part, Artifact, validate_digest, validate_part, validate_each, validate_parts, validate,
}

pub new-cases : (r : PlanResult) → ((q : Plan) × (r ≡ ok q)) ⊎ ((x : PlanError) × (r ≡ err x))
new-cases (ok q) = inl (q, refl)
new-cases (err x) = inr (x, refl)

abbrev pub sizes : List Part → List ℤ
sizes ps = map (λ p. p.size) ps

abbrev pub split_sizes : List bigoci.Plan.Part → List ℤ
split_sizes ps = map (λ p. p.size) ps

module _ (oci : Oci) where
  -- A digest that go-digest accepts, of the one algorithm that the format allows.
  abbrev pub IsSha256 : Bytes → Type 0
  IsSha256 d = (oci.digest_error d ≡ none) × (oci.algorithm d ≡ oci.sha256)

  abbrev pub IsValidTitle : Bytes → Type 0
  IsValidTitle t = (t ≡ []) ⊎ (valid_utf8 t ≡ true)

  -- The format contract: a text title, sha256 digests, and as many parts as the split of the file
  -- has, of its sizes and in its order.
  pub record IsValid (a : Artifact) : Type 0 where
    pub title_text : IsValidTitle a.title
    pub file_sha256 : IsSha256 a.file_digest
    pub split : Plan
    pub splits : new a.file_size a.part_size ≡ ok split
    pub some_parts : 0 < length a.parts
    pub same_sizes : sizes a.parts ≡ split_sizes (parts split)
    pub parts_sha256 : All (λ p. IsSha256 p.digest) a.parts

  validate_digest_iff : (d : Bytes) → (validate_digest oci d ≡ none) ↔ IsSha256 d
  unfolding validate_digest
  validate_digest_iff d = ground (arith, bytes_eq_iff (oci.algorithm d) oci.sha256)

  part_at_inside : (q : Plan) (i : ℕ) → i < q.num_parts → part_at q (pos i) ≡ some (part q i)
  unfolding part_at
  part_at_inside q i h = ground arith

  validate_part_iff :
      (q : Plan) (i : ℕ) (p : Part)
      → i < q.num_parts
      → (validate_part oci q i p ≡ none) ↔ (IsSha256 p.digest × (p.size ≡ (part q i).size))
  unfolding validate_part
  validate_part_iff q i p h =
      ground
        (arith, validate_digest_iff p.digest, part_at_inside q i h, ==ℤ_iff p.size (part q i).size)

  validate_each-cons :
      (q : Plan) (i : ℕ) (p : Part) (ps : List Part)
      → (validate_each oci q i (p ∷ ps) ≡ none)
        ↔ ((validate_part oci q i p ≡ none) × (validate_each oci q (i + 1) ps ≡ none))
  unfolding validate_each
  validate_each-cons q i p ps = ground arith

  validate_each_iff :
      (q : Plan) (i : ℕ) (ps : List Part)
      → i + length ps ≤ q.num_parts
      → (validate_each oci q i ps ≡ none)
        ↔ (All (λ p. IsSha256 p.digest) ps × (sizes ps ≡ split_sizes (parts_from q i (length ps))))
  unfolding parts_from validate_each
  validate_each_iff q i [] h = (λ _. (tt, refl), λ _. refl)
  validate_each_iff q i (p ∷ ps) h =
      let (to, from) = validate_each-cons q i p ps in
      let (here, there) = validate_part_iff q i p (omega arith) in
      let (go, back) = validate_each_iff q (i + 1) ps (omega arith) in
      (
        λ e. let (s, z) = here (to e).0 in let (a, b) = go (to e).1 in ((s, a), cc (z, b)),
        λ ((s, a), b). from (there (s, cc b), back (a, cc b)),
      )

  length-parts_from : (q : Plan) (i n : ℕ) → length (parts_from q i n) ≡ n
  unfolding parts_from
  length-parts_from q i zero = refl
  length-parts_from q i (suc n) = ap suc (length-parts_from q (i + 1) n)

  as_many : (q : Plan) (ps : List Part) → sizes ps ≡ split_sizes (parts q) → length ps ≡ q.num_parts
  unfolding parts
  as_many q ps e =
      sym (length-map ps (λ p. p.size))
      ∙ ap length e
      ∙ length-map (parts q) (λ p. p.size)
      ∙ length-parts_from q 0 q.num_parts

  validate_parts_ok :
      (a : Artifact) (q : Plan)
      → new a.file_size a.part_size ≡ ok q
      → (validate_parts oci a ≡ none) ↔ (
          (0 < length a.parts)
          × (q.num_parts ≡ length a.parts)
          × (validate_each oci q 0 a.parts ≡ none))
  unfolding validate_parts
  validate_parts_ok a q e = rw e (ground arith)

  validate_parts_err :
      (a : Artifact) (x : PlanError)
      → new a.file_size a.part_size ≡ err x
      → validate_parts oci a ≢ none
  unfolding validate_parts
  validate_parts_err a x e = rw e (ground arith)

  validate_split :
      (a : Artifact)
      → (validate oci a ≡ none) ↔ (
          IsValidTitle a.title
          × (validate_digest oci a.file_digest ≡ none)
          × (validate_parts oci a ≡ none))
  unfolding validate
  validate_split a = ground (arith, bytes_eq_iff a.title [])

  IsValid-of :
      (a : Artifact) (q : Plan)
      → new a.file_size a.part_size ≡ ok q
      → validate oci a ≡ none
      → IsValid a
  unfolding parts
  IsValid-of a q e h =
      let (t, d, ps) = (validate_split a).0 h in
      let (more, n, each) = (validate_parts_ok a q e).0 ps in
      let (shas, same) = (validate_each_iff q 0 a.parts (omega arith)).0 each in
      record {
        title_text = t;
        file_sha256 = (validate_digest_iff a.file_digest).0 d;
        split = q;
        splits = e;
        some_parts = more;
        same_sizes = subst (λ m. sizes a.parts ≡ split_sizes (parts_from q 0 m)) (sym n) same;
        parts_sha256 = shas;
      }

  of_IsValid : (a : Artifact) → IsValid a → validate oci a ≡ none
  unfolding parts
  of_IsValid a v =
      let n = as_many v.split a.parts v.same_sizes in
      let same : sizes a.parts ≡ split_sizes (parts_from v.split 0 (length a.parts)) =
        rw n v.same_sizes in
      (validate_split a).1 (
        v.title_text,
        (validate_digest_iff a.file_digest).1 v.file_sha256,
        (validate_parts_ok a v.split v.splits).1 (
          v.some_parts,
          sym n,
          (validate_each_iff v.split 0 a.parts (omega arith)).1 (v.parts_sha256, same),
        ),
      )

  -- `validate`, which guards `Encode`, returns nil exactly where the artifact obeys the format
  -- contract: a title of valid UTF-8, digests that are sha256, and at least one part, as many parts
  -- as the split of the file size at the part size has, each of the size that the split gives it.
  pub validate-IsValid : (a : Artifact) → (validate oci a ≡ none) ↔ IsValid a
  validate-IsValid a = (
    (λ h. elim (new-cases (new a.file_size a.part_size)) [
      | inl (q, e) ↦ IsValid-of a q e h
      | inr (x, e) ↦ let (_, _, ps) = (validate_split a).0 h in absurd (validate_parts_err a x e ps)
    ]),
    of_IsValid a,
  )
