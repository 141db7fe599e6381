-- ===== src/Fetch/Whole.antt =====
-- internal/transfer/pull.go: a part from the partial file or off the registry (`fetch` and `verify`),
-- over the retry loop. The world is paired with what the part's fetch holds. The Blobs port and the
-- reading of the sink are parameters.
pub mod Placed
use bigoci.Prelude.{
  ◌==◌, if◌then◌else◌, Bytes, length, take, ℕ, ◌⊎◌, inl, inr, Bool, true, false, not, Option, none,
  some, bytes_eq,
}
use bigoci.Errors.{GoError, context, plain}
use bigoci.Fetch.{Fetch, Answer, attempt, rewind}
use bigoci.Retry.{World, Policy, do_retry}

-- The port's `Get` from an offset, and a pass over the part's range of the sink: it reads all of it,
-- or breaks off behind some bytes, where the disk fails or the context ends.
pub record Ports (V : Type 0) : Type 0 where
  pub get : Bytes → ℕ → V → Answer × V
  pub scan : V → Option (ℕ × GoError) × V

-- `verify`'s outcome: an error, or whether the range already matches
abbrev pub scanned : Option (ℕ × GoError) → Bytes → Bytes
scanned none range = range
scanned (some (n, e)) range = take n range

module _ (digest_of : Bytes → Bytes) {V : Type 0} (ports : Ports V) where
  abbrev pub compared : ℕ → Bytes → Option (ℕ × GoError) → Bytes → GoError ⊎ Bool
  compared size dgst (some (n, e)) read = inl (context "read part of the existing file" e)
  compared size dgst none read =
      if length read == size
      then inr (bytes_eq (digest_of read) dgst)
      else inl (plain "length does not match the manifest")

  -- `verify`: the hasher is reset and takes what is read
  unfoldable pub verify : ℕ → Bytes → V × Fetch → (GoError ⊎ Bool) × (V × Fetch)
  verify size dgst (v, f) =
      let (stop, v') = ports.scan v in
      (
        compared size dgst stop (scanned stop f.range),
        (v', record f { hashed = scanned stop f.range }),
      )

  abbrev pub attempted_on : V → Option GoError × Fetch → Option GoError × (V × Fetch)
  attempted_on v (r, f) = (r, (v, f))

  -- one attempt, with the answer that the port gives it
  unfoldable pub try_once : ℕ → Bytes → V × Fetch → Option GoError × (V × Fetch)
  try_once size dgst (v, f) =
      let (a, v') = ports.get dgst (rewind size f).done v in
      attempted_on v' (attempt digest_of size dgst f a)

  module _ (world : World (V × Fetch)) (policy : Policy (V × Fetch)) where
    -- the attempts, from a count of zero; a part that was fetched was not skipped
    unfoldable pub fetch_all : ℕ → Bytes → V × Fetch → Option GoError × (V × Fetch)
    fetch_all size dgst (v, f) =
        do_retry world policy (try_once size dgst) (v, record f { done = 0 })

    abbrev pub fetch_rest :
        ℕ → Bytes → (GoError ⊎ Bool) × (V × Fetch) → Option GoError × (V × Fetch)
    fetch_rest size dgst (inl e, s) = (some e, s)
    fetch_rest size dgst (inr true, s) = (none, s)
    fetch_rest size dgst (inr false, s) = fetch_all size dgst s

    -- `fetch`
    unfoldable pub fetch : Bool → ℕ → Bytes → V × Fetch → Option GoError × (V × Fetch)
    fetch true size dgst s = fetch_rest size dgst (verify size dgst s)
    fetch false size dgst s = fetch_all size dgst s
