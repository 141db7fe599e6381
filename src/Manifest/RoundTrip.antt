-- ===== src/Manifest/RoundTrip.antt =====
-- `Decode` reads back what `Encode` writes.
use bigoci.Prelude.{
  Bool-cases, Bytes, codes, ℤ, pos, negsuc, ◌≤ℤ◌, max_int64, ◌≡◌, refl, sym, ap, ◌∙◌, ◌≢◌, inl, inr,
  true, Option, none, some, List, [], ◌∷◌, map, arith, lookup, insert, bytes_eq, bytes_eq_iff,
  ==ℤ_iff,
}
use bigoci.Decimal.{format_int, parse_int}
use bigoci.Decimal.RoundTrip.{parse_int-format_int}
use bigoci.Text.{equal_fold, strip_rune}
use bigoci.Manifest.{
  Oci, Part, Artifact, Descriptor, Manifest, artifact_type, media_type_part, schema_version,
  annotation_file_digest, annotation_file_size, annotation_part_size, validate, layer_of,
  empty_config, annotations_of, manifest_of, encode,
}
use bigoci.Manifest.Decode.{
  WireConfig, WireLayer, WireAnnotations, WireManifest, then_try, unless_error, required_annotation,
  size_annotation, read_present, read_annotations, read_layers, check_kind, check_config,
  check_schema, with_parts, accept, read_content, decode,
}
use bigoci.Manifest.Rules.{validate-IsValid}
use bigoci.Manifest.Agree.{validate_decoded-validate}

abbrev text_of : Option Bytes → Bytes
text_of none = []
text_of (some s) = s

-- What the members of the struct that `Encode` marshals are to the struct that `Decode` fills, by
-- the member names in the tags of both.
abbrev wire_config : Descriptor → WireConfig
wire_config d = record {
  media_type = d.media_type;
  digest = d.digest;
  size = d.size;
  content = d.content;
}

abbrev wire_layer : Descriptor → WireLayer
wire_layer d = record { media_type = d.media_type; digest = d.digest; size = d.size }

abbrev wire_annotations : List (Bytes × Bytes) → WireAnnotations
wire_annotations m = record {
  file_digest = text_of (lookup annotation_file_digest m);
  file_size = text_of (lookup annotation_file_size m);
  part_size = text_of (lookup annotation_part_size m);
  title = text_of (lookup (codes "org.opencontainers.image.title") m);
}

abbrev pub wire_of : Manifest → WireManifest
wire_of m = record {
  schema = m.schema;
  media_type = m.media_type;
  artifact = m.artifact;
  config = wire_config m.config;
  layers = map wire_layer m.layers;
  annotations = some (wire_annotations m.annotations);
}

equal_fold_refl : (s : Bytes) → equal_fold s s ≡ true
unfolding equal_fold strip_rune
equal_fold_refl [] = refl
equal_fold_refl (c ∷ s) = ground (arith, equal_fold_refl s)

read_layers-wire : (ps : List Part) → read_layers (map wire_layer (map layer_of ps)) ≡ inr ps
unfolding read_layers layer_of then_try
read_layers-wire [] = refl
read_layers-wire (p ∷ ps) = rw (equal_fold_refl media_type_part, read_layers-wire ps) refl

abbrev pub IsInt64 : ℤ → Type 0
IsInt64 z = (negsuc max_int64 ≤ℤ z) × (z ≤ℤ pos max_int64)

parse_none : parse_int [] ≡ none
unfolding parse_int
parse_none = refl

size_annotation-some : (s : Bytes) (z : ℤ) → parse_int s ≡ some z → size_annotation s ≡ inr z
unfolding size_annotation required_annotation bytes_eq then_try
size_annotation-some [] z e = absurd (ground (arith, parse_none, e))
size_annotation-some (c ∷ s) z e = ground (arith, e)

size_annotation-format_int : (z : ℤ) → IsInt64 z → size_annotation (format_int z) ≡ inr z
size_annotation-format_int z (low, high) =
    size_annotation-some (format_int z) z (parse_int-format_int z low high)

required_annotation-some : (s : Bytes) → s ≢ [] → required_annotation s ≡ inr s
unfolding required_annotation bytes_eq
required_annotation-some [] h = absurd (h refl)
required_annotation-some (c ∷ s) h = refl

-- An artifact whose size annotations are read apart from its parts.
read_present-some :
    (a : Artifact)
    → a.file_digest ≢ []
    → IsInt64 a.file_size
    → IsInt64 a.part_size
    → read_present (record {
      file_digest = a.file_digest;
      file_size = format_int a.file_size;
      part_size = format_int a.part_size;
      title = a.title;
    })
      ≡ inr (with_parts a [])
unfolding read_present then_try
read_present-some a d f p =
    rw
      (
        required_annotation-some a.file_digest d,
        size_annotation-format_int a.file_size f,
        size_annotation-format_int a.part_size p,
      )
      refl

module _ (oci : Oci) (title : oci.annotation_title ≡ codes "org.opencontainers.image.title") where
  wire_annotations-of :
      (a : Artifact)
      → wire_annotations (annotations_of oci a) ≡ record {
        file_digest = a.file_digest;
        file_size = format_int a.file_size;
        part_size = format_int a.part_size;
        title = a.title;
      }
  unfolding annotations_of insert lookup bytes_eq
  wire_annotations-of a = elim (Bool-cases (bytes_eq a.title [])) [
    | inl e ↦ rw (title, e, (bytes_eq_iff a.title []).0 e) refl
    | inr e ↦ rw (title, e) refl
  ]

  kind_passes : check_kind oci oci.image_manifest artifact_type ≡ none
  unfolding check_kind
  kind_passes =
      rw (equal_fold_refl oci.image_manifest, equal_fold_refl artifact_type) (ground arith)

  config_passes : check_config oci (wire_config (empty_config oci)) ≡ none
  unfolding check_config empty_config
  config_passes =
      rw
        (
          equal_fold_refl oci.empty_json.media_type,
          (bytes_eq_iff oci.empty_json.digest oci.empty_json.digest).1 refl,
          (==ℤ_iff oci.empty_json.size oci.empty_json.size).1 refl,
        )
        refl

  schema_passes : check_schema schema_version ≡ none
  unfolding check_schema
  schema_passes = refl

  accept-some : (a : Artifact) → validate oci a ≡ none → accept oci a ≡ inr a
  unfolding accept
  accept-some a h = ground (arith, validate_decoded-validate oci a)

  digest_present :
      (a : Artifact) → oci.digest_error [] ≢ none → validate oci a ≡ none → a.file_digest ≢ []
  digest_present a h v e =
      let (sha, _) = ((validate-IsValid oci a).0 v).file_sha256 in
      h (ap oci.digest_error (sym e) ∙ sha)

  encode-some : (a : Artifact) → validate oci a ≡ none → encode oci a ≡ inr (manifest_of oci a)
  unfolding encode
  encode-some a h = ground (arith, h)

  read_content-manifest_of :
      (a : Artifact)
      → a.file_digest ≢ []
      → IsInt64 a.file_size
      → IsInt64 a.part_size
      → validate oci a ≡ none
      → read_content oci (wire_of (manifest_of oci a)) ≡ inr a
  unfolding read_content read_annotations then_try
  read_content-manifest_of a d f p h =
      rw (wire_annotations-of a, read_present-some a d f p, read_layers-wire a.parts)
        (accept-some a h)

  decode-manifest_of :
      (a : Artifact)
      → read_content oci (wire_of (manifest_of oci a)) ≡ inr a
      → decode oci (inr (wire_of (manifest_of oci a))) ≡ inr a
  unfolding decode unless_error
  decode-manifest_of a h = rw (kind_passes, schema_passes, config_passes) h

  -- For an artifact that obeys the format contract, with int64 sizes, `Encode` produces a manifest,
  -- and `Decode` of that manifest returns the artifact: digests, sizes, title and parts in order.
  -- It is assumed that go-digest refuses an empty digest and that the image spec's title key is
  -- the one that the decoder's tag names.
  pub decode-encode :
      oci.digest_error [] ≢ none
      → (a : Artifact) → IsInt64 a.file_size
      → IsInt64 a.part_size
      → validate oci a ≡ none
      → (m : Manifest) × (encode oci a ≡ inr m) × (decode oci (inr (wire_of m)) ≡ inr a)
  decode-encode d a f p h = (
    manifest_of oci a,
    encode-some a h,
    decode-manifest_of a (read_content-manifest_of a (digest_present a d h) f p h),
  )
