-- ===== src/Push/Workers.antt =====
-- The workers of internal/transfer/push.go on one registry, as steps in any order. A worker takes
-- the next part off the queue, and those that are told to upload it come back once their attempts
-- returned nil. A worker that fails ends the push, so nothing follows it.
use bigoci.Prelude.{
  if◌then◌else◌, Bytes, ◌≡◌, Bool, true, false, ◌||◌, none, List, [], ◌∷◌, ◌++◌, bytes_eq,
}
use bigoci.Claims.{Claims}
use bigoci.Retry.{World, Policy}
use bigoci.Push.{Job, Ports, Credit, claim_job, settle_job, upload_attempts}

pub record Push (W : Type 0) : Type 0 where
  pub world : W
  pub claims : Claims
  pub queue : List Job
  pub taken : List Job
  pub busy : List Bytes
  pub credits : List Credit

unfoldable pub is_among : Bytes → List Bytes → Bool
is_among d [] = false
is_among d (e ∷ l) = bytes_eq e d || is_among d l

unfoldable pub without : Bytes → List Bytes → List Bytes
without d [] = []
without d (e ∷ l) = let rest = without d l in if bytes_eq e d then rest else e ∷ rest

-- what a registry holds only grows
abbrev pub Keeps : {W : Type 0} → (W → Bytes → Bool) → W → W → Type 0
Keeps stored w v = (d : Bytes) → stored w d ≡ true → stored v d ≡ true

-- the first part of the queue is taken
abbrev pub claimed_by :
    {W : Type 0} → Job → List Job → Bool × List Credit × Claims → Push W → Push W
claimed_by job rest (claimed, credit, held) s = record s {
  claims = held;
  queue = rest;
  taken = s.taken ++ job ∷ [];
  busy = if claimed then job.dgst ∷ s.busy else s.busy;
  credits = s.credits ++ credit;
}

-- an upload has come back, in a world that others may have moved on
abbrev pub settled_by : {W : Type 0} → Job → List Credit × Claims → W → Push W → Push W
settled_by job (credit, held) w s = record s {
  world = w;
  claims = held;
  busy = without job.dgst s.busy;
  credits = s.credits ++ credit;
}

module _ {W : Type 0} (digest_of : Bytes → Bytes) (ports : Ports W) (world : World (W × Bool))
    (policy : Policy (W × Bool)) (stored : W → Bytes → Bool) where
  pub data Step (s : Push W) : Push W → Type 0 where
    taking :
        (job : Job) (rest : List Job)
        → s.queue ≡ job ∷ rest
        → Step s (claimed_by job rest (claim_job job s.claims) s)
    uploading :
        (job : Job) (w v u : W) (uploaded : Bool)
        → is_among job.dgst s.busy ≡ true
        → upload_attempts digest_of ports world policy job w ≡ (none, (v, uploaded))
        → Keeps stored v u
        → Keeps stored s.world u
        → Step s (settled_by job (settle_job job uploaded s.claims) u s)
    others : (w : W) → Keeps stored s.world w → Step s (record s { world = w })

  pub data Steps (s : Push W) : Push W → Type 0 where
    here : Steps s s
    next : {t u : Push W} → Steps s t → Step t u → Steps s u

-- a push before any worker has started
abbrev pub start : {W : Type 0} → W → List Job → Push W
start w jobs = record { world = w; claims = []; queue = jobs; taken = []; busy = []; credits = [] }
