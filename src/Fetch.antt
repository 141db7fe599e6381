-- ===== src/Fetch.antt =====
-- internal/transfer/pull.go: one part fetched over several attempts (`attempt` and `stream`).
-- The state is what survives an attempt: the bytes in the hasher, the part's range of the sink, and
-- the count `done`. The port's answer is a parameter, and so is the digest of a text.
pub mod Verified
pub mod Whole
use bigoci.Prelude.{
  ltb, ◌==◌, if◌then◌else◌, Bytes, length, take, ℤ, pos, ◌==ℤ◌, ℕ, zero, suc, ◌+◌, ◌-◌, Bool, not,
  ◌&&◌, Option, none, some, List, [], ◌∷◌, ◌++◌, bytes_eq,
}
use bigoci.Errors.{GoError, plain, fault, context, sentinel, err_digest_mismatch}

pub record Fetch : Type 0 where
  pub done : ℕ
  pub hashed : Bytes
  pub range : Bytes

-- A sink that stops taking bytes: how much of the rest the hasher and the range got by then.
pub record Refusal : Type 0 where
  pub hashed : ℕ
  pub placed : ℕ
  pub cause : GoError

-- A blob stream: all its bytes, the error it ends with (`none` is io.EOF), whether that error comes
-- together with the last bytes, and where the sink refuses them, if it does.
pub record Delivery : Type 0 where
  pub body : Bytes
  pub ending : Option GoError
  pub together : Bool
  pub refusal : Option Refusal

-- What `Blobs.Get` returns: an error, or a stream with the offset it starts at.
pub data Answer : Type 0 where
  unavailable : GoError → Answer
  stream_at : ℤ → Delivery → Answer

-- `WriteAt` inside the part's range
unfoldable pub write_at : ℕ → Bytes → Bytes → Bytes
write_at k bs [] = []
write_at zero [] (x ∷ r) = x ∷ r
write_at zero (b ∷ bs) (x ∷ r) = b ∷ write_at zero bs r
write_at (suc k) bs (x ∷ r) = x ∷ write_at k bs r

-- the bytes that reached the hasher and the range together
unfoldable pub place : Fetch → Bytes → Fetch
place s taken = record {
  done = s.done + length taken;
  hashed = s.hashed ++ taken;
  range = write_at s.done taken s.range;
}

-- the bytes of a copy that the sink cut short: `done` stays
unfoldable pub cut_short : Fetch → Bytes → Refusal → Fetch
cut_short s taken r = record {
  done = s.done;
  hashed = s.hashed ++ take r.hashed taken;
  range = write_at s.done (take r.placed taken) s.range;
}

-- how `stream` ends behind the copy of at most `remaining` bytes
unfoldable pub stream_end : ℕ → Delivery → Option GoError
stream_end remaining d =
    let n = length d.body in
    if ltb n remaining
    then elim d.ending [
      | some e ↦ some (context "fetch part" e)
      | none ↦ some (fault (plain "part ended before its declared size") (pos 0))
    ]
    else if n == remaining
    then elim d.ending [
      | some e ↦ some (
          context (if d.together && ltb 0 remaining then "fetch part" else "read the end of part")
            e)
      | none ↦ none
    ]
    else some (plain "part is longer than its declared size")

unfoldable pub stream : ℕ → Fetch → Delivery → Option GoError × Fetch
stream size s d =
    let taken = take (size - s.done) d.body in
    elim d.refusal [
      | some r ↦ (some (context "write part into the destination" r.cause), cut_short s taken r)
      | none ↦ (stream_end (size - s.done) d, place s taken)
    ]

-- a part that has all its bytes is asked for whole
unfoldable pub rewind : ℕ → Fetch → Fetch
rewind size s = if s.done == size then record s { done = 0 } else s

-- a stream from zero starts the part over, with a fresh hasher
unfoldable pub restart : ℤ → Fetch → Fetch
restart start s =
    let from = if start ==ℤ pos 0 then 0 else s.done in
    record { done = from; hashed = if from == 0 then [] else s.hashed; range = s.range }

module _ (digest_of : Bytes → Bytes) where
  -- the check of the digest behind the stream
  unfoldable pub check_digest : Bytes → Option GoError × Fetch → Option GoError × Fetch
  check_digest dgst (some e, s) = (some e, s)
  check_digest dgst (none, s) =
      if bytes_eq (digest_of s.hashed) dgst
      then (none, s)
      else (some (context "part does not match the manifest" (sentinel err_digest_mismatch)), s)

  unfoldable pub answered : ℕ → Bytes → Fetch → Answer → Option GoError × Fetch
  answered size dgst s (unavailable e) = (some (context "fetch part" e), s)
  answered size dgst s (stream_at start d) =
      if not (start ==ℤ pos 0) && not (start ==ℤ pos s.done)
      then (some (plain "the blob port returned an unusable stream offset"), s)
      else check_digest dgst (stream size (restart start s) d)

  -- `attempt` on a part of the given size and digest
  unfoldable pub attempt : ℕ → Bytes → Fetch → Answer → Option GoError × Fetch
  attempt size dgst s a = answered size dgst (rewind size s) a

  -- the state after one attempt for each of the answers
  unfoldable pub attempts : ℕ → Bytes → Fetch → List Answer → Fetch
  attempts size dgst s [] = s
  attempts size dgst s (a ∷ more) = attempts size dgst (attempt size dgst s a).1 more
