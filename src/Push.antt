-- ===== src/Push.antt =====
-- internal/transfer/push.go: the pass that hashes the file, and what one worker does with a part. The
-- ports and the file are parameters that act on a world, and so is the digest of a text; what the
-- attempts of a part share (`uploaded`) is paired with the world.
pub mod Reads
pub mod Publish
pub mod Workers
pub mod Stored
use bigoci.Prelude.{
  ltb, if◌then◌else◌, Bytes, length, add64, ℤ, pos, ltb_ℤ, ℕ, ◌-◌, ◌⊎◌, inl, inr, Bool, true, false,
  not, ◌&&◌, Option, none, some, List, [], ◌∷◌, ◌++◌, bytes_eq,
}
use bigoci.Errors.{GoError, context, sentinel, err_source_changed}
use bigoci.Plan.{Part}
use bigoci.Claims.{Claims, take, settle}
use bigoci.Retry.{World, Policy, do_retry}

-- partJob
pub record Job : Type 0 where
  pub part : Part
  pub dgst : Bytes

-- How a read of the file's range ends: with nil, with io.EOF, or with another error.
pub data ReadEnd : Type 0 where
  going eof : ReadEnd
  broken : GoError → ReadEnd

-- How a read through `tagSourceReads` ends; `source_error` is the tag.
pub data TaggedEnd : Type 0 where
  fine ended : TaggedEnd
  source_error : GoError → TaggedEnd

-- the fields of `tagSourceReads` that a read changes
pub record Tagged : Type 0 where
  pub hashed : Bytes
  pub read : ℤ

-- why `Put` failed, by whether errors.As finds a sourceError in it
pub data PutFailure : Type 0 where
  from_source from_port : GoError → PutFailure

-- The Blobs port and the file: `Exists`, `Put` of a digest with its size and the reads of its
-- content, and the reads that a section of the file gives.
pub record Ports (W : Type 0) : Type 0 where
  pub exists : Bytes → W → (GoError ⊎ Bool) × W
  pub put : Bytes → ℤ → List (Bytes × TaggedEnd) → W → Option PutFailure × W
  pub section : Part → W → List (Bytes × ReadEnd)

abbrev pub changed : TaggedEnd
changed = source_error (sentinel err_source_changed)

abbrev pub hashing : Bytes → Tagged → Tagged
hashing chunk s = record { hashed = s.hashed ++ chunk; read = add64 s.read (pos (length chunk)) }

abbrev pub fresh_tagged : Tagged
fresh_tagged = record { hashed = []; read = pos 0 }

module _ (digest_of : Bytes → Bytes) where
  -- the checks of `Read` behind the read of the range, on the state it leaves
  unfoldable pub read_checked : Bytes → ℤ → Bytes → ReadEnd → Tagged → Bytes × TaggedEnd
  read_checked expect size chunk (broken e) t = (chunk, source_error e)
  read_checked expect size chunk going t =
      if ltb_ℤ t.read size
      then (chunk, fine)
      else if bytes_eq (digest_of t.hashed) expect
      then (chunk, fine)
      else ([], changed)
  read_checked expect size chunk eof t =
      if ltb_ℤ t.read size
      then (chunk, changed)
      else if bytes_eq (digest_of t.hashed) expect
      then (chunk, ended)
      else ([], changed)

  -- `tagSourceReads.Read`, on what the range gives: what the caller gets, and the new state
  unfoldable pub read_tagged : Bytes → ℤ → Bytes × ReadEnd → Tagged → (Bytes × TaggedEnd) × Tagged
  read_tagged expect size (chunk, end) s =
      (read_checked expect size chunk end (hashing chunk s), hashing chunk s)

  -- the results of all the reads of one attempt, on the reads of the range
  unfoldable pub tag_reads : Bytes → ℤ → List (Bytes × ReadEnd) → Tagged → List (Bytes × TaggedEnd)
  tag_reads expect size [] s = []
  tag_reads expect size (r ∷ l) s =
      let (out, t) = read_tagged expect size r s in out ∷ tag_reads expect size l t

  module _ {W : Type 0} (ports : Ports W) where
    abbrev pub put_ended : Option PutFailure × W → Option GoError × (W × Bool)
    put_ended (none, w) = (none, (w, true))
    put_ended (some (from_source e), w) = (some (context "read part of the source" e), (w, true))
    put_ended (some (from_port e), w) = (some (context "upload part" e), (w, true))

    abbrev pub checked : Job → Bool → (GoError ⊎ Bool) × W → Option GoError × (W × Bool)
    checked job uploaded (inl e, w) = (some (context "check whether part exists" e), (w, uploaded))
    checked job uploaded (inr true, w) = (none, (w, uploaded))
    checked job uploaded (inr false, w) = put_ended (
        ports.put job.dgst job.part.size
          (tag_reads job.dgst job.part.size (ports.section job.part w) fresh_tagged) w)

    -- `attempt`
    unfoldable pub attempt : Job → W × Bool → Option GoError × (W × Bool)
    attempt job (w, uploaded) = checked job uploaded (ports.exists job.dgst w)

-- What an upload credits: one part, skipped or not, and the parts that waited for it.
pub data Credit : Type 0 where
  single : ℕ → ℤ → Bool → Credit
  twins : ℕ → ℤ → Credit

-- the claim that opens `upload`: whether to go on, and the credit of a part that another one placed
unfoldable pub claim_job : Job → Claims → Bool × List Credit × Claims
claim_job job claims =
    let (claimed, credit, held) = take job.dgst claims in
    (
      claimed,
      if not claimed && ltb 0 credit then single job.part.index job.part.size true ∷ [] else [],
      held,
    )

-- the end of `upload` behind its attempts
unfoldable pub settle_job : Job → Bool → Claims → List Credit × Claims
settle_job job uploaded claims =
    let (placed, held) = settle job.dgst claims in
    (
      single job.part.index job.part.size (not uploaded) ∷ twins (placed - 1) job.part.size ∷ [],
      held,
    )

-- the attempts of `upload`
unfoldable pub upload_attempts :
    {W : Type 0}
    → (Bytes → Bytes)
    → Ports W
    → World (W × Bool)
    → Policy (W × Bool)
    → Job
    → W
    → Option GoError × (W × Bool)
upload_attempts digest_of ports world policy job w =
    do_retry world policy (attempt digest_of ports job) (w, false)
