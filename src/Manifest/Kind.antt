-- ===== src/Manifest/Kind.antt =====
-- When `Decode` says that a reference points at something else.
use bigoci.Prelude.{
  Bytes, ℤ, ℕ, ◌+◌, ◌≡◌, refl, ◌⊎◌, inl, inr, Bool, false, not, ◌&&◌, ◌||◌, Option, none, some,
  List, [], ◌∷◌, arith, bytes_eq,
}
use bigoci.Errors.{GoError, is_error, err_not_bigoci_artifact, err_too_many_parts}
use bigoci.Errors.Matching.{is_error-sentinel}
use bigoci.Plan.{Plan, PlanError, new, negative_file_size, part_size_not_positive, too_many_parts}
use bigoci.Manifest.{Oci, Part, Artifact, artifact_type, plan_error}
use bigoci.Text.{equal_fold}
use bigoci.Manifest.Rules.{new-cases}
use bigoci.Manifest.Decode.{
  WireAnnotations, WireLayer, WireManifest, WireConfig, then_try, unless_error, required_annotation,
  size_annotation, read_present, read_annotations, read_layers, check_kind, check_config,
  check_schema, with_parts, accept, read_content, decode, validate_decoded, validate_decoded_digest,
  validate_decoded_part, validate_decoded_each, validate_decoded_parts,
}

abbrev pub names_other : GoError → Bool
names_other e = is_error err_not_bigoci_artifact e

-- The result is an error that `errors.Is` matches with ErrNotBigociArtifact.
abbrev pub is_other {ℓ} : {A : Type ℓ} → GoError ⊎ A → Bool
is_other (inl e) = names_other e
is_other (inr a) = false

-- The media type is that of an image manifest, or left out as the OCI image specification allows,
-- and the artifact type is that of bigoci, both as strings.EqualFold compares them.
abbrev pub names_bigoci : Oci → WireManifest → Bool
names_bigoci oci w =
    (bytes_eq w.media_type [] || equal_fold w.media_type oci.image_manifest)
    && equal_fold w.artifact artifact_type

abbrev is_other_error : Option GoError → Bool
is_other_error none = false
is_other_error (some e) = names_other e

then_try-false {ℓ κ} :
    {A : Type ℓ} {B : Type κ} (x : GoError ⊎ A) (f : A → GoError ⊎ B)
    → is_other x ≡ false
    → ((a : A) → is_other (f a) ≡ false)
    → is_other (then_try x f) ≡ false
unfolding then_try
then_try-false (inl e) f h k = h
then_try-false (inr a) f h k = k a

required_annotation-false : (s : Bytes) → is_other (required_annotation s) ≡ false
unfolding required_annotation is_error
required_annotation-false s = ground arith

size_annotation-false : (s : Bytes) → is_other (size_annotation s) ≡ false
unfolding size_annotation is_error
size_annotation-false s = then_try-false _ _ (required_annotation-false s) (λ v. ground arith)

read_present-false : (w : WireAnnotations) → is_other (read_present w) ≡ false
unfolding read_present
read_present-false w = then_try-false _ _ (required_annotation-false w.file_digest) (λ d.
    then_try-false _ _ (size_annotation-false w.file_size)
      (λ f. then_try-false _ _ (size_annotation-false w.part_size) (λ p. refl)))

read_annotations-false : (w : Option WireAnnotations) → is_other (read_annotations w) ≡ false
unfolding read_annotations
read_annotations-false none = read_present-false _
read_annotations-false (some w) = read_present-false w

read_layers-false : (ls : List WireLayer) → is_other (read_layers ls) ≡ false
unfolding read_layers is_error
read_layers-false [] = refl
read_layers-false (l ∷ ls) =
    let rest =
      then_try-false {B = List Part} (read_layers ls)
        (λ ps. inr (record { digest = l.digest; size = l.size } ∷ ps)) (read_layers-false ls)
        (λ ps. refl) in
    ground (arith, rest)

plan_error-false : (e : PlanError) → names_other (plan_error e) ≡ false
unfolding plan_error is_error
plan_error-false negative_file_size = refl
plan_error-false part_size_not_positive = refl
plan_error-false (too_many_parts s) =
    is_error-sentinel err_too_many_parts err_not_bigoci_artifact (λ e. absurd (cc e))

module _ (oci : Oci) where
  digest-false : (d : Bytes) → is_other_error (validate_decoded_digest oci d) ≡ false
  unfolding validate_decoded_digest is_error
  digest-false d = ground arith

  part-false :
      (q : Plan) (i : ℕ) (p : Part) → is_other_error (validate_decoded_part oci q i p) ≡ false
  unfolding validate_decoded_part is_error
  part-false q i p = ground (arith, digest-false p.digest)

  each-false :
      (q : Plan) (i : ℕ) (ps : List Part)
      → is_other_error (validate_decoded_each oci q i ps) ≡ false
  unfolding validate_decoded_each
  each-false q i [] = refl
  each-false q i (p ∷ ps) = ground (arith, part-false q i p, each-false q (i + 1) ps)

  parts-false : (a : Artifact) → is_other_error (validate_decoded_parts oci a) ≡ false
  unfolding validate_decoded_parts is_error
  parts-false a = elim (new-cases (new a.file_size a.part_size)) [
    | inl (q, e) ↦ rw e (ground (arith, each-false q 0 a.parts))
    | inr (x, e) ↦ rw e (ground (arith, plan_error-false x))
  ]

  validate_decoded-false : (a : Artifact) → is_other_error (validate_decoded oci a) ≡ false
  unfolding validate_decoded is_error
  validate_decoded-false a = ground (arith, digest-false a.file_digest, parts-false a)

  accept-false : (a : Artifact) → is_other (accept oci a) ≡ false
  unfolding accept is_error
  accept-false a = ground (arith, validate_decoded-false a)

  read_content-false : (w : WireManifest) → is_other (read_content oci w) ≡ false
  unfolding read_content
  read_content-false w =
      then_try-false _ _ (read_annotations-false w.annotations) (λ a.
        then_try-false _ _ (read_layers-false w.layers) (λ ps. accept-false (with_parts a ps)))

  kind-names_bigoci :
      (w : WireManifest)
      → is_other_error (check_kind oci w.media_type w.artifact) ≡ not (names_bigoci oci w)
  unfolding check_kind is_error
  kind-names_bigoci w = ground arith

  config-false : (c : WireConfig) → is_other_error (check_config oci c) ≡ false
  unfolding check_config is_error
  config-false c = ground arith

  schema-false : (v : ℤ) → is_other_error (check_schema v) ≡ false
  unfolding check_schema is_error
  schema-false v = ground arith

  -- `Decode` of a manifest that parses fails with ErrNotBigociArtifact exactly where the manifest
  -- gives a media type that is not that of an OCI image manifest (an empty one passes) or an
  -- artifact type that is not that of bigoci, up to case as strings.EqualFold compares: an artifact
  -- of the format that is broken in another way never fails with it, and no other check comes
  -- first.
  pub decode-names_bigoci :
      (w : WireManifest) → is_other (decode oci (inr w)) ≡ not (names_bigoci oci w)
  unfolding decode unless_error
  decode-names_bigoci w = ground (
    arith,
    kind-names_bigoci w,
    config-false w.config,
    schema-false w.schema,
    read_content-false w,
  )
