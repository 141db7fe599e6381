-- ===== src/Manifest/Decode.antt =====
-- internal/manifest/decode.go: `Decode` from the struct that encoding/json fills to the artifact.
use bigoci.Prelude.{
  ltb, ◌==◌, if◌then◌else◌, Bytes, length, ℤ, pos, ◌==ℤ◌, ℕ, ◌+◌, ◌⊎◌, inl, inr, not, ◌&&◌, Option,
  none, some, List, [], ◌∷◌, bytes_eq,
}
use bigoci.Errors.{GoError, plain, context, sentinel, err_not_bigoci_artifact}
use bigoci.Decimal.{parse_int}
use bigoci.Text.{valid_utf8, equal_fold}
use bigoci.Plan.{Plan, new, part_at, ok, err}
use bigoci.Manifest.{
  Oci, Part, Artifact, artifact_type, media_type_part, schema_version, plan_error,
}

pub record WireConfig : Type 0 where
  pub media_type : Bytes
  pub digest : Bytes
  pub size : ℤ
  pub content : Bytes

pub record WireLayer : Type 0 where
  pub media_type : Bytes
  pub digest : Bytes
  pub size : ℤ

pub record WireAnnotations : Type 0 where
  pub file_digest : Bytes
  pub file_size : Bytes
  pub part_size : Bytes
  pub title : Bytes

-- An absent member has its zero value, and absent annotations are the nil pointer `none`.
pub record WireManifest : Type 0 where
  pub schema : ℤ
  pub media_type : Bytes
  pub artifact : Bytes
  pub config : WireConfig
  pub layers : List WireLayer
  pub annotations : Option WireAnnotations

-- The chain of `if err != nil { return ..., err }`.
unfoldable pub then_try {ℓ κ} :
    {A : Type ℓ} {B : Type κ} → GoError ⊎ A → (A → GoError ⊎ B) → GoError ⊎ B
then_try (inl e) f = inl e
then_try (inr a) f = f a

unfoldable pub unless_error {ℓ} : {A : Type ℓ} → Option GoError → GoError ⊎ A → GoError ⊎ A
unless_error (some e) k = inl e
unless_error none k = k

unfoldable pub required_annotation : Bytes → GoError ⊎ Bytes
required_annotation value =
    if bytes_eq value [] then inl (plain "manifest is missing an annotation") else inr value

unfoldable pub size_annotation : Bytes → GoError ⊎ ℤ
size_annotation value = then_try (required_annotation value) (λ v. elim (parse_int v) [
  | some n ↦ inr n
  | none ↦ inl (plain "annotation is not a base-10 byte count")
])

abbrev empty_annotations : WireAnnotations
empty_annotations = record { file_digest = []; file_size = []; part_size = []; title = [] }

-- `readAnnotations` behind its nil check; the parts come later
unfoldable pub read_present : WireAnnotations → GoError ⊎ Artifact
read_present w = then_try (required_annotation w.file_digest) (λ d.
    then_try (size_annotation w.file_size) (λ f. then_try (size_annotation w.part_size) (λ p.
      inr (record { file_digest = d; file_size = f; part_size = p; title = w.title; parts = [] }))))

unfoldable pub read_annotations : Option WireAnnotations → GoError ⊎ Artifact
read_annotations none = read_present empty_annotations
read_annotations (some w) = read_present w

unfoldable pub read_layers : List WireLayer → GoError ⊎ List Part
read_layers [] = inr []
read_layers (l ∷ ls) =
    let rest = read_layers ls in
    if equal_fold l.media_type media_type_part
    then then_try rest (λ ps. inr (record { digest = l.digest; size = l.size } ∷ ps))
    else inl (plain "layer media type is not a bigoci part")

abbrev pub with_parts : Artifact → List Part → Artifact
with_parts a ps = record {
  file_digest = a.file_digest;
  file_size = a.file_size;
  part_size = a.part_size;
  title = a.title;
  parts = ps;
}

unfoldable pub check_schema : ℤ → Option GoError
check_schema v =
    if v ==ℤ schema_version then none else some (plain "manifest schema version must be 2")

module _ (oci : Oci) where
  unfoldable pub check_kind : Bytes → Bytes → Option GoError
  check_kind media_type artifact =
      if not (bytes_eq media_type []) && not (equal_fold media_type oci.image_manifest)
      then some (
          context "manifest media type is not an OCI image manifest"
            (sentinel err_not_bigoci_artifact))
      else if not (equal_fold artifact artifact_type)
      then some (context "manifest artifact type is not bigoci" (sentinel err_not_bigoci_artifact))
      else none

  unfoldable pub check_config : WireConfig → Option GoError
  check_config c =
      if not (equal_fold c.media_type oci.empty_json.media_type)
      then some (plain "config media type does not match the OCI empty descriptor")
      else if not (bytes_eq c.digest oci.empty_json.digest)
      then some (plain "config digest does not match the OCI empty descriptor")
      else if not (c.size ==ℤ oci.empty_json.size)
      then some (plain "config size does not match the OCI empty descriptor")
      else if ltb 0 (length c.content) && not (bytes_eq c.content oci.empty_json.content)
      then some (plain "config data does not match the OCI empty descriptor")
      else none

  unfoldable pub validate_decoded_digest : Bytes → Option GoError
  validate_decoded_digest d = elim (oci.digest_error d) [
    | some e ↦ some (plain "digest is invalid")
    | none ↦
        if bytes_eq (oci.algorithm d) oci.sha256
        then none
        else some (plain "digest algorithm must be sha256")
  ]

  -- one round of `for i, part := range a.Parts`; a panic of `split.Part` is the last error, which
  -- the count check rules out
  unfoldable pub validate_decoded_part : Plan → ℕ → Part → Option GoError
  validate_decoded_part split i p = elim (validate_decoded_digest p.digest) [
    | some e ↦ some e
    | none ↦ elim (part_at split (pos i)) [
      | some want ↦
          if p.size ==ℤ want.size
          then none
          else some (plain "part size does not match the split rule")
      | none ↦ some (plain "panic: part index out of range")
    ]
  ]

  unfoldable pub validate_decoded_each : Plan → ℕ → List Part → Option GoError
  validate_decoded_each split i [] = none
  validate_decoded_each split i (p ∷ ps) =
      let rest = validate_decoded_each split (i + 1) ps in
      elim (validate_decoded_part split i p) [ some e ↦ some e | none ↦ rest ]

  unfoldable pub validate_decoded_parts : Artifact → Option GoError
  validate_decoded_parts a =
      if length a.parts == 0
      then some (plain "artifact has no parts, want at least one")
      else elim (new a.file_size a.part_size) [
        | err e ↦ some (context "manifest split is invalid" (plan_error e))
        | ok split ↦
            if split.num_parts == length a.parts
            then validate_decoded_each split 0 a.parts
            else some (plain "artifact part count does not match its split")
      ]

  unfoldable pub validate_decoded : Artifact → Option GoError
  validate_decoded a =
      if not (bytes_eq a.title []) && not (valid_utf8 a.title)
      then some (plain "title is not valid UTF-8")
      else elim (validate_decoded_digest a.file_digest) [
        | some e ↦ some e
        | none ↦ validate_decoded_parts a
      ]

  -- `Decode` behind `validateDecoded`
  unfoldable pub accept : Artifact → GoError ⊎ Artifact
  accept a = elim (validate_decoded a) [
    | some e ↦ inl (context "invalid manifest" e)
    | none ↦ inr a
  ]

  unfoldable pub read_content : WireManifest → GoError ⊎ Artifact
  read_content w =
      then_try (read_annotations w.annotations)
        (λ a. then_try (read_layers w.layers) (λ ps. accept (with_parts a ps)))

  -- `Decode` on the outcome of `decodeManifest`, whose error is that of encoding/json
  unfoldable pub decode : GoError ⊎ WireManifest → GoError ⊎ Artifact
  decode (inl e) = inl (context "parse manifest JSON" e)
  decode (inr w) =
      unless_error (check_kind w.media_type w.artifact) (
        unless_error (check_schema w.schema)
          (unless_error (check_config w.config) (read_content w)))
