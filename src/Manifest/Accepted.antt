-- ===== src/Manifest/Accepted.antt =====
-- What `Decode` guarantees of the artifact that it returns, and what its errors say.
use bigoci.Prelude.{
  ◌==◌, Bool-cases, Option-cases, Bytes, ℤ, pos, negsuc, pos_part, max_int64, ℕ, zero, suc, ◌+◌,
  ◌-◌, ◌*◌, ◌≤◌, ◌≡◌, refl, sym, ap, ◌⊎◌, inl, inr, Option, none, some, List, [], ◌∷◌, arith,
}
use bigoci.Errors.{GoError}
use bigoci.Decimal.{scan, parse_uint, parse_int, to_pos, to_neg}
use bigoci.Plan.{Plan, new, parts, ok}
use bigoci.Plan.Tiling.{Tiles, parts-Tiles}
use bigoci.Manifest.{Oci, Artifact, validate}
use bigoci.Manifest.Rules.{IsValid, sizes, split_sizes, validate-IsValid}
use bigoci.Manifest.RoundTrip.{IsInt64}
use bigoci.Manifest.Agree.{validate_decoded-validate}
use bigoci.Manifest.Decode.{
  WireAnnotations, WireManifest, then_try, unless_error, size_annotation, read_present,
  read_annotations, check_kind, with_parts, accept, read_content, decode,
}

scan_bound : (limit n : ℕ) (s : Bytes) (m : ℕ) → n ≤ limit → scan limit n s ≡ some m → m ≤ limit
unfolding scan
scan_bound limit n [] m h e = ground (arith, e)
scan_bound limit n (c ∷ s) m h e =
    let rest : n * 10 + (c - b'0') ≤ limit
        → scan limit (n * 10 + (c - b'0')) s ≡ some m
        → m ≤ limit =
      scan_bound limit (n * 10 + (c - b'0')) s m in
    ground (arith, e, rest)

parse_uint_bound : (limit : ℕ) (s : Bytes) (m : ℕ) → parse_uint limit s ≡ some m → m ≤ limit
unfolding parse_uint
parse_uint_bound limit [] m e = ground (arith, e)
parse_uint_bound limit (c ∷ s) m e = scan_bound limit 0 (c ∷ s) m (omega arith) e

Below : ℕ → Option ℕ → Type 0
Below limit o = (m : ℕ) → o ≡ some m → m ≤ limit

to_pos-IsInt64 : (o : Option ℕ) (z : ℤ) → Below max_int64 o → to_pos o ≡ some z → IsInt64 z
unfolding Below
to_pos-IsInt64 none z h e = absurd (cc e)
to_pos-IsInt64 (some m) z h e =
    let eq : pos m ≡ z = cc e in let small = h m refl in rw (← eq) (omega arith, omega arith)

to_neg-IsInt64 : (o : Option ℕ) (z : ℤ) → Below (max_int64 + 1) o → to_neg o ≡ some z → IsInt64 z
unfolding Below
to_neg-IsInt64 none z h e = absurd (cc e)
to_neg-IsInt64 (some zero) z h e = let eq : pos 0 ≡ z = cc e in rw (← eq) (omega arith, omega arith)
to_neg-IsInt64 (some (suc m)) z h e =
    let small = h (suc m) refl in
    let eq : negsuc m ≡ z = cc e in rw (← eq) (omega arith, omega arith)

parse_int-IsInt64 : (s : Bytes) (z : ℤ) → parse_int s ≡ some z → IsInt64 z
unfolding parse_int Below
parse_int-IsInt64 [] z e = absurd (cc e)
parse_int-IsInt64 (c ∷ s) z e = elim (Bool-cases (c == b'-')) [
  | inl minus ↦ to_neg-IsInt64 _ z (parse_uint_bound (max_int64 + 1) s) (rw minus at e)
  | inr other ↦ elim (Bool-cases (c == b'+')) [
    | inl plus ↦ to_pos-IsInt64 _ z (parse_uint_bound max_int64 s) (rw (other, plus) at e)
    | inr digit ↦ to_pos-IsInt64 _ z (parse_uint_bound max_int64 (c ∷ s)) (rw (other, digit) at e)
  ]
]

then_try-inr {ℓ κ} :
    {A : Type ℓ} {B : Type κ} (x : GoError ⊎ A) (f : A → GoError ⊎ B) (b : B)
    → then_try x f ≡ inr b
    → (a : A) × (x ≡ inr a) × (f a ≡ inr b)
unfolding then_try
then_try-inr (inl x) f b e = absurd (cc e)
then_try-inr (inr a) f b e = (a, refl, e)

unless_error-inr {ℓ} :
    {A : Type ℓ} (o : Option GoError) (k : GoError ⊎ A) (a : A)
    → unless_error o k ≡ inr a
    → (o ≡ none) × (k ≡ inr a)
unfolding unless_error
unless_error-inr none k a e = (refl, e)
unless_error-inr (some x) k a e = absurd (cc e)

size_annotation-IsInt64 : (s : Bytes) (z : ℤ) → size_annotation s ≡ inr z → IsInt64 z
unfolding size_annotation
size_annotation-IsInt64 s z e =
    let (v, _, h) = then_try-inr _ _ z e in
    elim (Option-cases (parse_int v)) [
      | inl k ↦ absurd (ground (arith, h, k))
      | inr (y, k) ↦ parse_int-IsInt64 v z (ground (arith, h, k))
    ]

-- The sizes that come from the annotations are int64 values.
read_present-IsInt64 :
    (w : WireAnnotations) (a : Artifact)
    → read_present w ≡ inr a
    → IsInt64 a.file_size × IsInt64 a.part_size
unfolding read_present
read_present-IsInt64 w a e =
    let (d, _, e1) = then_try-inr _ _ a e in
    let (f, ef, e2) = then_try-inr _ _ a e1 in
    let (p, ep, e3) = then_try-inr _ _ a e2 in
    let eq : record { file_digest = d; file_size = f; part_size = p; title = w.title; parts = [] }
        ≡ a =
      cc e3 in
    rw (← eq) (size_annotation-IsInt64 _ f ef, size_annotation-IsInt64 _ p ep)

read_annotations-IsInt64 :
    (w : Option WireAnnotations) (a : Artifact)
    → read_annotations w ≡ inr a
    → IsInt64 a.file_size × IsInt64 a.part_size
unfolding read_annotations
read_annotations-IsInt64 none a e = read_present-IsInt64 _ a e
read_annotations-IsInt64 (some w) a e = read_present-IsInt64 w a e

abbrev pub total : List ℤ → ℕ
total [] = 0
total (z ∷ zs) = pos_part z + total zs

total-Tiles :
    (p end at i : ℕ) (ps : List bigoci.Plan.Part)
    → Tiles p end at i ps
    → at + total (split_sizes ps) ≡ end
total-Tiles p end at i [] t = omega (arith, t)
total-Tiles p end at i (x ∷ xs) (n, _, _, size, _, _, rest) =
    rw size (omega (arith, total-Tiles p end (at + n) (i + 1) xs rest))

module _ (oci : Oci) where
  accept-inr : (b a : Artifact) → accept oci b ≡ inr a → (b ≡ a) × (validate oci b ≡ none)
  unfolding accept
  accept-inr b a e = ground (arith, e, validate_decoded-validate oci b)

  -- The artifact is one of the format, and its sizes are int64 values.
  read_content-inr :
      (w : WireManifest) (a : Artifact)
      → read_content oci w ≡ inr a
      → (validate oci a ≡ none) × IsInt64 a.file_size × IsInt64 a.part_size
  unfolding read_content
  read_content-inr w a e =
      let (b, eb, e1) = then_try-inr _ _ a e in
      let (ps, _, e2) = then_try-inr _ _ a e1 in
      let (eq, v) = accept-inr (with_parts b ps) a e2 in
      let (f, p) = read_annotations-IsInt64 w.annotations b eb in rw (← eq) (v, f, p)

  decode-inr :
      (w : WireManifest) (a : Artifact)
      → decode oci (inr w) ≡ inr a
      → (check_kind oci w.media_type w.artifact ≡ none) × (read_content oci w ≡ inr a)
  unfolding decode
  decode-inr w a e =
      let (kind, e1) = unless_error-inr _ _ a e in
      let (_, e2) = unless_error-inr _ _ a e1 in
      let (_, e3) = unless_error-inr _ _ a e2 in (kind, e3)

  -- Whatever a registry serves, an artifact that `Decode` returns obeys the format contract, and
  -- the sizes of its parts add up to the size of the file.
  pub decode-IsValid :
      (w : WireManifest) (a : Artifact)
      → decode oci (inr w) ≡ inr a
      → IsValid oci a × (a.file_size ≡ pos (total (sizes a.parts)))
  decode-IsValid w a e =
      let (_, content) = decode-inr w a e in
      let (h, (_, f), (_, p)) = read_content-inr w a content in
      let v = (validate-IsValid oci a).0 h in
      let (size, tiles) = parts-Tiles a.file_size a.part_size v.split f p v.splits in
      let sum : total (split_sizes (parts v.split)) ≡ v.split.file_size =
        omega (arith, total-Tiles _ v.split.file_size 0 0 (parts v.split) tiles) in
      (v, rw (size, v.same_sizes) (ap pos (sym sum)))
