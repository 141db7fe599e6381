-- ===== src/Claims.antt =====
-- internal/transfer/push.go: the claims that the workers of one push share, and the credit for the
-- parts that share a digest. The mutex makes `take` and `settle` one step each.
pub mod Conservation
use bigoci.Prelude.{
  if◌then◌else◌, Bytes, ℕ, ◌+◌, Bool, true, false, Option, none, some, List, [], lookup, insert,
}

-- digest.Digest is a string.
abbrev pub Digest : Type 0
Digest = Bytes

-- `waiting` counts parts of one push, at most plan.MaxParts of them, so it is left unbounded.
pub record Claim : Type 0 where
  pub done : Bool
  pub waiting : ℕ

-- the map behind `claimSet`
abbrev pub Claims : Type 0
Claims = List (Digest × Claim)

-- `newClaimSet`
abbrev pub new_claim_set : Claims
new_claim_set = []

-- the switch of `take` on what the map holds for the digest: whether to upload, the credit, and the
-- claim to store
unfoldable pub take_from : Option Claim → Bool × ℕ × Claim
take_from none = (true, 0, record { done = false; waiting = 0 })
take_from (some held) =
    if held.done then (false, 1, held) else (false, 0, record held { waiting = held.waiting + 1 })

-- `take`: the two results, and the new map
unfoldable pub take : Digest → Claims → Bool × ℕ × Claims
take dgst claims =
    let (claimed, credit, held) = take_from (lookup dgst claims) in
    (claimed, credit, insert dgst held claims)

-- the waiting count that `settle` reads; a missing key gives the zero claim
unfoldable pub waiting_of : Option Claim → ℕ
waiting_of none = 0
waiting_of (some held) = held.waiting

-- `settle`: how many parts the upload put in place, and the new map
unfoldable pub settle : Digest → Claims → ℕ × Claims
settle dgst claims =
    (1 + waiting_of (lookup dgst claims), insert dgst (record { done = true; waiting = 0 }) claims)
