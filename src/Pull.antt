-- ===== src/Pull.antt =====
-- internal/transfer/pull.go: the workers of a pull on one file. Every part has its own range of the
-- file (Plan/Tiling), which only the worker that took the part writes, so the file is its ranges.
pub mod Restored
use bigoci.Prelude.{
  ◌==◌, if◌then◌else◌, Bytes, get_elem?, ℤ, pos, pos_part, ltb_ℤ, ◌==ℤ◌, ℕ, ◌+◌, ◌≡◌, Bool, ◌&&◌,
  none, some, List, [], ◌∷◌, ◌++◌,
}
use bigoci.Errors.{GoError}
use bigoci.Plan.{Part}
use bigoci.Fetch.{Fetch}
use bigoci.Fetch.Whole
use bigoci.Retry.{World, Policy}
use bigoci.Push.{Job}
use bigoci.Manifest.{Artifact}

-- `resumable`
unfoldable pub resumable : ℤ → Artifact → Bool
resumable existing a = existing ==ℤ a.file_size && ltb_ℤ (pos 0) a.file_size

-- How far a part has got: in the channel, with a worker, or fetched.
pub data Progress : Type 0 where
  waiting taken placed : Progress

-- The parts and the ranges of the file, by the index of the part.
pub record Pull : Type 0 where
  pub progress : ℕ → Progress
  pub ranges : ℕ → Bytes

abbrev pub update {ℓ} : {A : Type ℓ} → (ℕ → A) → ℕ → A → ℕ → A
update f i x j = if i == j then x else f j

-- the size of a part as a number of bytes
abbrev pub bytes_of : ℤ → ℕ
bytes_of n = pos_part n

module _ (digest_of : Bytes → Bytes) {V : Type 0} (ports : Whole.Ports V)
    (world : World (V × Fetch)) (policy : Policy (V × Fetch)) (resume : Bool)
    (jobs : List Job) where
  -- A worker takes a part, in any order, and comes back once `fetch` returned nil, whatever the
  -- registry and the hasher held when it started. A worker that fails ends the pull.
  pub data Step (s : Pull) : Pull → Type 0 where
    taking :
        (i : ℕ)
        → s.progress i ≡ waiting
        → Step s (record s { progress = update s.progress i taken })
    fetching :
        (i : ℕ) (job : Job) (v w : V) (done : ℕ) (hashed : Bytes) (f : Fetch)
        → s.progress i ≡ taken
        → get_elem? jobs i ≡ some job
        → Whole.fetch digest_of ports world policy resume
            (bytes_of job.part.size)
            job.dgst
            (v, record { done = done; hashed = hashed; range = s.ranges i })
          ≡ (none, (w, f))
        → Step s
            (record { progress = update s.progress i placed; ranges = update s.ranges i f.range })

  pub data Steps (s : Pull) : Pull → Type 0 where
    here : Steps s s
    next : {t u : Pull} → Steps s t → Step t u → Steps s u

-- a file that was cut to its size, before any worker has started
abbrev pub start : (ℕ → Bytes) → Pull
start ranges = record { progress = λ i. waiting; ranges = ranges }

-- the ranges in order, from an index on
unfoldable pub assembled : (ℕ → Bytes) → ℕ → List Job → Bytes
assembled ranges i [] = []
assembled ranges i (j ∷ js) = ranges i ++ assembled ranges (i + 1) js
