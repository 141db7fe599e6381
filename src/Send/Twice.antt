-- ===== src/Send/Twice.antt =====
-- How often internal/oci/repository.go sends a request that the blob client owns.
use mathlib.Core.Path.{subst}
use bigoci.Prelude.{
  ◌==◌, Bool-cases, Bytes, ℕ, ◌+◌, ◌≤◌, ◌≡◌, refl, ◌⊎◌, inl, inr, false, ◌&&◌, Option, none, some,
  [], arith, bytes_eq, Bool-cases, branches,
}
use bigoci.Errors.{GoError, status_error}
use bigoci.Challenge.{Challenge, parse_challenge, AuthResult, ok, err}
use bigoci.Redirect.{Request, Response}
use bigoci.Auth.{AuthState, Decision, anonymous, await, refuse, present, exchange, is_refusal}
use bigoci.Send.{
  Network, Body, no_body, once, rewinding, Result, exhausted, returned, settle, mint,
  replay_arrived, replay_with, replay_answer, answer_challenge, answer_with, arrived, send_with,
  accepted_direct, replayable, with_header,
}

-- The call came back, with at most so many requests sent in all, and a response is no refusal.
abbrev pub IsWithin : {W : Type 0} → (W → ℕ) → ℕ → Result W → Type 0
IsWithin count n exhausted = ⊥
IsWithin count n (returned (inl e) w a) = count w ≤ n
IsWithin count n (returned (inr resp) w a) = (count w ≤ n) × (is_refusal resp.status ≡ false)

module _ {W : Type 0} (net : Network W) (count : W → ℕ)
    (sends : (r : Request) (w : W) (a : AuthState) → count (net.send r (w, a)).1 ≡ count w + 1)
    (acquires : (c : Challenge) (w : W) (a : AuthState) → count (net.acquire c (w, a)).1 ≡ count w)
    (waits : (id : ℕ) (w : W) (a : AuthState) → count (net.wait id (w, a)).1 ≡ count w) where
  settle_quiet :
      (key : Bytes) (d : Decision) (w : W) (a : AuthState)
      → count (settle net key d (w, a)).1 ≡ count w
  unfolding settle mint
  settle_quiet key anonymous w a = refl
  settle_quiet key (await id) w a = waits id w a
  settle_quiet key (refuse none) w a = refl
  settle_quiet key (refuse (some e)) w a = refl
  settle_quiet key (present h) w a = refl
  settle_quiet key (exchange id asked) w a = acquires asked w a

  replay_arrived-IsWithin :
      (name : Bytes) (second : Request) (header : Bytes) (n : ℕ)
      (x : (GoError ⊎ Response) × W × AuthState)
      → count x.1 ≤ n
      → IsWithin count n (replay_arrived net (accepted_direct net) name second header x)
  unfolding accepted_direct
  replay_arrived-IsWithin name second header n (inl e, w, a) h = h
  replay_arrived-IsWithin name second header n (inr resp, w, a) h =
      elim (Bool-cases (is_refusal resp.status)) [ inl q ↦ rw q h | inr q ↦ rw q (h, q) ]

  replayed-IsWithin :
      (name : Bytes) (req : Request) (header : Bytes) (w : W) (a : AuthState)
      → IsWithin count (count w + 1) (
          replay_arrived net
            (accepted_direct net)
            name
            (with_header header req)
            header
            (net.send (with_header header req) (w, a)))
  replayed-IsWithin name req header w a =
      replay_arrived-IsWithin name (with_header header req) header (count w + 1)
        (net.send (with_header header req) (w, a))
        (omega (arith, sends (with_header header req) w a))

  replay-IsWithin :
      (name : Bytes) (req : Request) (body : Body) (header : Bytes) (w : W) (a : AuthState)
      → IsWithin count
          (count w + 1)
          (replay_with net (accepted_direct net) name req body header w a)
  unfolding replay_with
  replay-IsWithin name req no_body header w a = replayed-IsWithin name req header w a
  replay-IsWithin name req once header w a = replayed-IsWithin name req header w a
  replay-IsWithin name req (rewinding none) header w a = replayed-IsWithin name req header w a
  replay-IsWithin name req (rewinding (some e)) header w a = omega arith

  replay_answer-IsWithin :
      (name : Bytes) (req : Request) (body : Body) (status : GoError) (n : ℕ)
      (x : (GoError ⊎ Bytes) × W × AuthState)
      → count x.1 ≡ n
      → IsWithin count (n + 1) (replay_answer net (accepted_direct net) name req body status x)
  replay_answer-IsWithin name req body status n (inl e, w, a) h = omega arith
  replay_answer-IsWithin name req body status n (inr header, w, a) h =
      branches (IsWithin count (n + 1)) (replayable body) _ _
        (subst
          (λ (m : ℕ).
            IsWithin count (m + 1) (replay_with net (accepted_direct net) name req body header w a))
          h (replay-IsWithin name req body header w a))
        (omega arith)

  answer_challenge-IsWithin :
      (name : Bytes) (req : Request) (body : Body) (status : GoError)
      (asked : Option (AuthResult Challenge)) (w : W) (a : AuthState)
      → IsWithin count
          (count w + 1)
          (answer_challenge net (accepted_direct net) name req body status asked w a)
  unfolding answer_challenge
  answer_challenge-IsWithin name req body status (some (ok asked)) w a =
      replay_answer-IsWithin name req body status (count w) _ (settle_quiet _ _ w _)
  answer_challenge-IsWithin name req body status (some (err e)) w a = omega arith
  answer_challenge-IsWithin name req body status none w a = omega arith

  answer-IsWithin :
      (name : Bytes) (req : Request) (body : Body) (resp : Response) (w : W) (a : AuthState)
      → IsWithin count (count w + 1) (answer_with net (accepted_direct net) name req body resp w a)
  unfolding answer_with
  answer-IsWithin name req body resp w a =
      branches (IsWithin count (count w + 1)) (bytes_eq resp.challenges [] && resp.status == 403) _
        _ (omega arith)
        (answer_challenge-IsWithin name req body (status_error resp.status)
          (parse_challenge resp.challenges) w a)

  arrived-IsWithin :
      (name : Bytes) (req : Request) (body : Body) (n : ℕ)
      (x : (GoError ⊎ Response) × W × AuthState)
      → count x.1 ≡ n + 1
      → IsWithin count (n + 2) (arrived net (accepted_direct net) name req body x)
  unfolding accepted_direct
  arrived-IsWithin name req body n (inl e, w, a) h = omega arith
  arrived-IsWithin name req body n (inr resp, w, a) h = elim (Bool-cases (is_refusal resp.status)) [
    | inl q ↦ rw q (
        let here : count w + 1 ≡ n + 2 = omega (arith, h) in
        subst
          (λ (m : ℕ).
            IsWithin count m (answer_with net (accepted_direct net) name req body resp w a))
          here (answer-IsWithin name req body resp w a))
    | inr q ↦ rw q (omega (arith, h), q)
  ]

  -- However the network and the other workers behave, where only requests of the repository are
  -- counted: sending one without following redirects comes back, has sent at most two requests, and
  -- a response that it returns is no refusal.
  pub send_with-IsWithin :
      (name : Bytes) (req : Request) (body : Body) (w : W) (a : AuthState)
      → IsWithin count (count w + 2) (send_with net (accepted_direct net) name req body w a)
  unfolding send_with
  send_with-IsWithin name req body w a =
      arrived-IsWithin name req body (count w) (net.send req (w, a)) (sends req w a)
