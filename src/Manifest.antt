-- ===== src/Manifest.antt =====
-- internal/manifest/manifest.go: the artifact of a bigoci manifest, its rules, and the manifest
-- struct that `Encode` hands to encoding/json. The constants of the OCI image spec and the digest
-- checks of go-digest are a parameter, `Oci`.
pub mod Decode
pub mod Bound
pub mod Rules
pub mod Agree
pub mod Accepted
pub mod Kind
pub mod RoundTrip
use bigoci.Prelude.{
  ◌==◌, if◌then◌else◌, Bytes, codes, length, ℤ, pos, ◌==ℤ◌, ℕ, ◌+◌, ◌⊎◌, inl, inr, not, ◌&&◌,
  Option, none, some, List, [], ◌∷◌, map, insert, bytes_eq,
}
use bigoci.Errors.{GoError, plain, context, sentinel, err_too_many_parts}
use bigoci.Decimal.{format_int}
use bigoci.Text.{valid_utf8}
use bigoci.Plan.{
  Plan, PlanError, part_size_not_positive, negative_file_size, too_many_parts, new, part_at, ok,
  err,
}

abbrev pub artifact_type : Bytes
artifact_type = codes "application/vnd.bigoci.file.v1"

abbrev pub media_type_part : Bytes
media_type_part = codes "application/vnd.bigoci.file.part.v1"

abbrev pub annotation_file_digest : Bytes
annotation_file_digest = codes "io.bigoci.file.digest"

abbrev pub annotation_file_size : Bytes
annotation_file_size = codes "io.bigoci.file.size"

abbrev pub annotation_part_size : Bytes
annotation_part_size = codes "io.bigoci.part.size"

abbrev pub schema_version : ℤ
schema_version = pos 2

pub record Part : Type 0 where
  pub digest : Bytes
  pub size : ℤ

pub record Artifact : Type 0 where
  pub file_digest : Bytes
  pub file_size : ℤ
  pub part_size : ℤ
  pub title : Bytes
  pub parts : List Part

-- ocispec.Descriptor, its members that bigoci sets
pub record Descriptor : Type 0 where
  pub media_type : Bytes
  pub digest : Bytes
  pub size : ℤ
  pub content : Bytes

-- ocispec.Manifest, its members that bigoci sets
pub record Manifest : Type 0 where
  pub schema : ℤ
  pub media_type : Bytes
  pub artifact : Bytes
  pub config : Descriptor
  pub layers : List Descriptor
  pub annotations : List (Bytes × Bytes)

-- What the package takes from the modules it imports: constants of the image spec, and
-- `Digest.Validate` and `Digest.Algorithm` of go-digest.
pub record Oci : Type 0 where
  pub image_manifest : Bytes
  pub annotation_title : Bytes
  pub empty_json : Descriptor
  pub sha256 : Bytes
  pub digest_error : Bytes → Option GoError
  pub algorithm : Bytes → Bytes

-- the errors of `plan.New`
unfoldable pub plan_error : PlanError → GoError
plan_error negative_file_size = plain "file size must not be negative"
plan_error part_size_not_positive = plain "part size must be positive"
plan_error (too_many_parts smallest) =
    context "use a part size of at least" (sentinel err_too_many_parts)

unfoldable pub layer_of : Part → Descriptor
layer_of p = record { media_type = media_type_part; digest = p.digest; size = p.size; content = [] }

module _ (oci : Oci) where
  -- nil is `none`
  unfoldable pub validate_digest : Bytes → Option GoError
  validate_digest d = elim (oci.digest_error d) [
    | some e ↦ some (context "digest" e)
    | none ↦
        if bytes_eq (oci.algorithm d) oci.sha256
        then none
        else some (plain "digest algorithm is not sha256")
  ]

  -- one round of `for i, part := range a.Parts`; a panic of `split.Part` is the last error, which
  -- the count check rules out
  unfoldable pub validate_part : Plan → ℕ → Part → Option GoError
  validate_part split i p = elim (validate_digest p.digest) [
    | some e ↦ some e
    | none ↦ elim (part_at split (pos i)) [
      | some want ↦
          if p.size ==ℤ want.size then none else some (plain "split rule requires another size")
      | none ↦ some (plain "panic: part index out of range")
    ]
  ]

  unfoldable pub validate_each : Plan → ℕ → List Part → Option GoError
  validate_each split i [] = none
  validate_each split i (p ∷ ps) =
      let rest = validate_each split (i + 1) ps in
      elim (validate_part split i p) [ some e ↦ some e | none ↦ rest ]

  unfoldable pub validate_parts : Artifact → Option GoError
  validate_parts a =
      if length a.parts == 0
      then some (plain "artifact has no parts, want at least one")
      else elim (new a.file_size a.part_size) [
        | err e ↦ some (context "split" (plan_error e))
        | ok split ↦
            if split.num_parts == length a.parts
            then validate_each split 0 a.parts
            else some (plain "artifact splits into another number of parts")
      ]

  unfoldable pub validate : Artifact → Option GoError
  validate a =
      if not (bytes_eq a.title []) && not (valid_utf8 a.title)
      then some (plain "title is not valid UTF-8")
      else elim (validate_digest a.file_digest) [ some e ↦ some e | none ↦ validate_parts a ]

  -- the descriptor of `EmptyConfig`, whose Data is cleared
  unfoldable pub empty_config : Descriptor
  empty_config = record {
    media_type = oci.empty_json.media_type;
    digest = oci.empty_json.digest;
    size = oci.empty_json.size;
    content = [];
  }

  -- the annotation map, in the order of its insertions
  unfoldable pub annotations_of : Artifact → List (Bytes × Bytes)
  annotations_of a =
      let base = insert annotation_part_size (format_int a.part_size) (
        insert annotation_file_size (format_int a.file_size)
          (insert annotation_file_digest a.file_digest [])) in
      if bytes_eq a.title [] then base else insert oci.annotation_title a.title base

  -- the struct that `Encode` marshals
  abbrev pub manifest_of : Artifact → Manifest
  manifest_of a = record {
    schema = schema_version;
    media_type = oci.image_manifest;
    artifact = artifact_type;
    config = empty_config;
    layers = map layer_of a.parts;
    annotations = annotations_of a;
  }

  -- `Encode` up to `encodeCanonical`
  unfoldable pub encode : Artifact → GoError ⊎ Manifest
  encode a = elim (validate a) [
    | some e ↦ inl (context "invalid artifact" e)
    | none ↦ inr (manifest_of a)
  ]
