-- ===== src/Push/Publish.antt =====
-- internal/transfer/push.go before and behind the workers: the pass that hashes the file, and the
-- empty config blob and the manifest that end a push. Encoding a manifest to its text is a parameter.
pub mod Ordered
use bigoci.Prelude.{
  if◌then◌else◌, Bool-cases, Bytes, length, pos, ◌==ℤ◌, ◌≡◌, refl, ◌⊎◌, inl, inr, Option, none,
  some, List, [], ◌∷◌, ◌++◌, arith, ==ℤ_iff, Bool-cases,
}
use bigoci.Errors.{GoError, context, sentinel, err_source_changed}
use bigoci.Plan.{Part}
use bigoci.Retry.{World, Policy, do_retry}
use bigoci.Push.{Job, Ports, PutFailure, from_source, from_port, ended}

-- The context and the file: the bytes that a copy of a part's section hands to the hashers, and the
-- error that it ends with.
pub record Source (W : Type 0) : Type 0 where
  pub ctx_err : W → Option GoError × W
  pub copy : Part → W → (Bytes × Option GoError) × W

-- The jobs that were queued, the digest of the file or an error, and the world.
pub record Hashed (W : Type 0) : Type 0 where
  pub jobs : List Job
  pub outcome : GoError ⊎ Bytes
  pub world : W

module _ (digest_of : Bytes → Bytes) {W : Type 0} (source : Source W) where
  abbrev stopped : GoError → W → Hashed W
  stopped e w = record { jobs = []; outcome = inl e; world = w }

  abbrev queued : Job → Hashed W → Hashed W
  queued job h = record { jobs = job ∷ h.jobs; outcome = h.outcome; world = h.world }

  abbrev pub hashed_part : Part → Bytes → Hashed W → (Bytes × Option GoError) × W → Hashed W
  hashed_part part file rest ((chunk, some e), w) = stopped (context "hash part" e) w
  hashed_part part file rest ((chunk, none), w) =
      if pos (length chunk) ==ℤ part.size
      then queued (record { part = part; dgst = digest_of chunk }) rest
      else stopped (context "part is of another size than planned" (sentinel err_source_changed)) w

  abbrev pub unless_ended : Option GoError → W → Hashed W → Hashed W
  unless_ended (some e) w h = stopped e w
  unless_ended none w h = h

  -- the loop of `hashParts`, with what the file's hasher holds
  unfoldable pub hash_from : List Part → Bytes → W → Hashed W
  hash_from [] file w = record { jobs = []; outcome = inr (digest_of file); world = w }
  hash_from (part ∷ parts) file w =
      let (cause, w1) = source.ctx_err w in
      let read = source.copy part w1 in
      let rest = hash_from parts (file ++ read.0.0) read.1 in
      unless_ended cause w1 (hashed_part part file rest read)

  -- `hashParts`
  unfoldable pub hash_parts : List Part → W → Hashed W
  hash_parts parts w = hash_from parts [] w

-- What was hashed: each part has its size of bytes, its job the digest of these, and the file the
-- digest of them all, behind those of the parts before.
abbrev pub IsHashed : (Bytes → Bytes) → List Part → List Job → Bytes → Bytes → Type 0
IsHashed digest_of [] [] file d = d ≡ digest_of file
IsHashed digest_of [] (j ∷ js) file d = ⊥
IsHashed digest_of (p ∷ ps) [] file d = ⊥
IsHashed digest_of (p ∷ ps) (j ∷ js) file d =
    (chunk : Bytes) × (pos (length chunk) ≡ p.size)
    × (j.part ≡ p)
    × (j.dgst ≡ digest_of chunk)
    × IsHashed digest_of ps js (file ++ chunk) d

module _ (digest_of : Bytes → Bytes) {W : Type 0} (source : Source W) where
  hashed_part-IsHashed :
      (p : Part) (ps : List Part) (file : Bytes) (rest : Hashed W)
      (r : (Bytes × Option GoError) × W) (d : Bytes)
      → (rest.outcome ≡ inr d → IsHashed digest_of ps rest.jobs (file ++ r.0.0) d)
      → (hashed_part digest_of source p file rest r).outcome ≡ inr d
      → IsHashed digest_of (p ∷ ps) (hashed_part digest_of source p file rest r).jobs file d
  hashed_part-IsHashed p ps file rest ((chunk, some e), w) d k h = absurd (cc h)
  hashed_part-IsHashed p ps file rest ((chunk, none), w) d k h =
      elim (Bool-cases (pos (length chunk) ==ℤ p.size)) [
        | inl q ↦
            let size : pos (length chunk) ≡ p.size = (==ℤ_iff (pos (length chunk)) p.size).0 q in
            rw q (chunk, size, refl, refl, k (rw q at h))
        | inr q ↦ absurd (cc (rw q at h))
      ]

  unless_ended-IsHashed :
      (cause : Option GoError) (w : W) (h : Hashed W) (parts : List Part) (file d : Bytes)
      → (h.outcome ≡ inr d → IsHashed digest_of parts h.jobs file d)
      → (unless_ended digest_of source cause w h).outcome ≡ inr d
      → IsHashed digest_of parts (unless_ended digest_of source cause w h).jobs file d
  unless_ended-IsHashed (some e) w h parts file d k q = absurd (cc q)
  unless_ended-IsHashed none w h parts file d k q = k q

  hash_from-IsHashed :
      (parts : List Part) (file : Bytes) (w : W) (d : Bytes)
      → (hash_from digest_of source parts file w).outcome ≡ inr d
      → IsHashed digest_of parts (hash_from digest_of source parts file w).jobs file d
  unfolding hash_from
  hash_from-IsHashed [] file w d h = ground (arith, h)
  hash_from-IsHashed (p ∷ ps) file w d h =
      let read : (Bytes × Option GoError) × W = source.copy p (source.ctx_err w).1 in
      let rest : Hashed W = hash_from digest_of source ps (file ++ read.0.0) read.1 in
      unless_ended-IsHashed (source.ctx_err w).0 (source.ctx_err w).1 _ (p ∷ ps) file d
        (hashed_part-IsHashed p ps file rest read d
          (λ g. hash_from-IsHashed ps (file ++ read.0.0) read.1 d g))
        h

  -- Where the hash pass returns a digest, the jobs are those of the parts in file order, each with
  -- the digest of as many bytes as the part has, and the digest is that of all these bytes in order.
  pub hash_parts-IsHashed :
      (parts : List Part) (w : W) (d : Bytes)
      → (hash_parts digest_of source parts w).outcome ≡ inr d
      → IsHashed digest_of parts (hash_parts digest_of source parts w).jobs [] d
  unfolding hash_parts
  hash_parts-IsHashed parts w d h = hash_from-IsHashed parts [] w d h
