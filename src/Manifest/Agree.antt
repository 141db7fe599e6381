-- ===== src/Manifest/Agree.antt =====
-- `Decode` enforces the rules of `Encode`: `validateDecoded` agrees with `validate`.
use bigoci.Prelude.{
  Bytes, ℕ, ◌+◌, ◌≡◌, refl, inl, inr, Bool, true, false, Option, none, some, List, [], ◌∷◌, arith,
}
use bigoci.Errors.{GoError}
use bigoci.Plan.{Plan, new}
use bigoci.Manifest.{
  Oci, Part, Artifact, validate_digest, validate_part, validate_each, validate_parts, validate,
}
use bigoci.Manifest.Rules.{new-cases}
use bigoci.Manifest.Decode.{
  validate_decoded_digest, validate_decoded_part, validate_decoded_each, validate_decoded_parts,
  validate_decoded,
}

abbrev pub is_nil : Option GoError → Bool
is_nil none = true
is_nil (some e) = false

module _ (oci : Oci) where
  agree_digest :
      (d : Bytes) → is_nil (validate_digest oci d) ≡ is_nil (validate_decoded_digest oci d)
  unfolding validate_digest validate_decoded_digest
  agree_digest d = ground arith

  agree_part :
      (q : Plan) (i : ℕ) (p : Part)
      → is_nil (validate_part oci q i p) ≡ is_nil (validate_decoded_part oci q i p)
  unfolding validate_part validate_decoded_part
  agree_part q i p = ground (arith, agree_digest p.digest)

  agree_each :
      (q : Plan) (i : ℕ) (ps : List Part)
      → is_nil (validate_each oci q i ps) ≡ is_nil (validate_decoded_each oci q i ps)
  unfolding validate_each validate_decoded_each
  agree_each q i [] = refl
  agree_each q i (p ∷ ps) = ground (arith, agree_part q i p, agree_each q (i + 1) ps)

  agree_parts :
      (a : Artifact) → is_nil (validate_parts oci a) ≡ is_nil (validate_decoded_parts oci a)
  unfolding validate_parts validate_decoded_parts
  agree_parts a = elim (new-cases (new a.file_size a.part_size)) [
    | inl (q, e) ↦ rw e (ground (arith, agree_each q 0 a.parts))
    | inr (x, e) ↦ rw e (ground arith)
  ]

  -- The check of `Decode` passes an artifact exactly where the check of `Encode` does.
  pub validate_decoded-validate :
      (a : Artifact) → is_nil (validate oci a) ≡ is_nil (validate_decoded oci a)
  unfolding validate validate_decoded
  validate_decoded-validate a = ground (arith, agree_digest a.file_digest, agree_parts a)
