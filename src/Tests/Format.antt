-- ===== src/Tests/Format.antt =====
-- internal/manifest on an artifact of three parts.
use bigoci.Prelude.{
  if◌then◌else◌, codes, add64, sub64, mul64, pos, ◌≡◌, refl, ◌≢◌, ◌↔◌, inr, true, false, not, none,
  some, [], ◌∷◌, ◌++◌, arith, lookup, insert, bytes_eq, insert,
}
use bigoci.Errors.{plain}
use bigoci.Decimal.{parse_int, parse_uint, scan, format_int, format_nat, emit}
use bigoci.Text.{equal_fold, strip_rune, valid_utf8, valid_from, to_lower}
use bigoci.Plan.{new, new_checked, count_parts, part_at, part}
use bigoci.Manifest.{
  Oci, Artifact, Manifest, validate, validate_digest, validate_part, validate_each, validate_parts,
  encode, manifest_of, annotations_of, empty_config, layer_of,
}
use bigoci.Manifest.Decode.{
  WireManifest, decode, check_kind, then_try, unless_error, check_schema, check_config,
  read_content, read_annotations, read_present, required_annotation, size_annotation, read_layers,
  accept, validate_decoded, validate_decoded_digest, validate_decoded_part, validate_decoded_each,
  validate_decoded_parts,
}
use bigoci.Manifest.Rules.{IsValid, sizes, validate-IsValid}
use bigoci.Manifest.RoundTrip.{wire_of, decode-encode}
use bigoci.Manifest.Accepted.{total, decode-IsValid}
use bigoci.Manifest.Kind.{is_other, names_bigoci, decode-names_bigoci}
use bigoci.Manifest.Bound.{judge_layers, unmarshal}
use bigoci.Manifest.Bound.Text.{
  Pieces, nil, cons, object, quoted, byte, literal, escape, element_ok, pieces_ok, print_elements,
  piece_ok, string_ok, starts,
}
use bigoci.Manifest.Bound.Count.{judge_layers-print}

abbrev some_digests : Oci
some_digests = record {
  image_manifest = codes "application/vnd.oci.image.manifest.v1+json";
  annotation_title = codes "org.opencontainers.image.title";
  empty_json = record {
    media_type = codes "application/vnd.oci.empty.v1+json";
    digest = codes "sha256:44";
    size = pos 2;
    content = codes "{}";
  };
  sha256 = codes "sha256";
  digest_error = λ d. if bytes_eq d [] then some (plain "invalid checksum digest format") else none;
  algorithm = λ d. codes "sha256";
}

abbrev ten_bytes : Artifact
ten_bytes = record {
  file_digest = codes "sha256:00";
  file_size = pos 10;
  part_size = pos 4;
  title = codes "a.bin";
  parts =
      record { digest = codes "sha256:01"; size = pos 4 }
      ∷ record { digest = codes "sha256:02"; size = pos 4 }
      ∷ record { digest = codes "sha256:03"; size = pos 2 }
      ∷ [];
}

ten_bytes-validate : validate some_digests ten_bytes ≡ none
unfolding validate validate_digest validate_part validate_each validate_parts new new_checked
    count_parts part_at part valid_utf8 valid_from bytes_eq add64 sub64 mul64
ten_bytes-validate = refl

empty_digest_error : some_digests.digest_error [] ≢ none
unfolding bytes_eq
empty_digest_error = λ e. absurd (cc e)

validate-IsValid_example : (validate some_digests ten_bytes ≡ none) ↔ IsValid some_digests ten_bytes
validate-IsValid_example = validate-IsValid some_digests ten_bytes

decode-encode_example :
    (m : Manifest) × (encode some_digests ten_bytes ≡ inr m)
    × (decode some_digests (inr (wire_of m)) ≡ inr ten_bytes)
decode-encode_example =
    decode-encode some_digests refl empty_digest_error ten_bytes (omega arith, omega arith)
      (omega arith, omega arith) ten_bytes-validate

abbrev ten_wire : WireManifest
ten_wire = wire_of (manifest_of some_digests ten_bytes)

ten_decode : decode some_digests (inr ten_wire) ≡ inr ten_bytes
unfolding decode check_kind then_try unless_error check_schema check_config read_content
    read_annotations read_present required_annotation size_annotation read_layers accept
    validate_decoded validate_decoded_digest validate_decoded_part validate_decoded_each
    validate_decoded_parts annotations_of empty_config layer_of insert lookup parse_int parse_uint
    scan format_int format_nat emit equal_fold strip_rune to_lower new new_checked count_parts
    part_at part valid_utf8 valid_from bytes_eq add64 sub64 mul64
ten_decode = refl

decode-IsValid_example :
    IsValid some_digests ten_bytes × (pos 10 ≡ pos (total (sizes ten_bytes.parts)))
decode-IsValid_example = decode-IsValid some_digests ten_wire ten_bytes ten_decode

-- the same manifest with another artifact type
abbrev other_wire : WireManifest
other_wire = record ten_wire { artifact = codes "application/vnd.other" }

decode-names_bigoci_example :
    is_other (decode some_digests (inr other_wire)) ≡ not (names_bigoci some_digests other_wire)
decode-names_bigoci_example = decode-names_bigoci some_digests other_wire

other_refused : names_bigoci some_digests other_wire ≡ false
unfolding equal_fold strip_rune to_lower bytes_eq
other_refused = refl

-- {"a":"\"]"} and {}
abbrev first_layer : Pieces
first_layer =
    cons
      (object (
        cons (quoted (literal b'a' ∷ []))
          (cons (byte b':') (cons (quoted (escape b'"' ∷ literal b']' ∷ [])) nil))))
      nil

first_layer_ok : element_ok first_layer ≡ true
unfolding element_ok piece_ok pieces_ok string_ok starts
first_layer_ok = refl

second_layer_ok : pieces_ok false (cons (object nil) nil) ≡ true
unfolding pieces_ok piece_ok
second_layer_ok = refl

judge_layers-print_example :
    judge_layers (b'[' ∷ codes " " ++ print_elements first_layer (cons (object nil) nil ∷ []) [])
    ≡ unmarshal
judge_layers-print_example =
    judge_layers-print (codes " ") first_layer (cons (object nil) nil ∷ []) [] (refl, tt)
      first_layer_ok (second_layer_ok, tt)
