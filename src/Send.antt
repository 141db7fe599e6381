-- ===== src/Send.antt =====
-- internal/oci/repository.go: sending a request, answering one refusal of it, and following where
-- the registry points. A world holds what the network and the other workers do; every step that
-- leaves the process acts on it and on the tokens of Auth.
pub mod Twice
pub mod Endless
use bigoci.Prelude.{
  ◌==◌, if◌then◌else◌, Bytes, pos, ℕ, zero, suc, ◌⊎◌, inl, inr, Bool, true, false, ◌&&◌, Option,
  none, some, [], bytes_eq,
}
use bigoci.Errors.{GoError, status_error, auth_failure, plain, fault, context}
use bigoci.Challenge.{Challenge, parse_challenge, AuthResult, ok, err}
use bigoci.Redirect.{
  Url, Request, Response, RedirectError, follow, is_redirect, first_value, with_authorization,
}
use bigoci.Auth.{
  AuthState, Decision, anonymous, await, refuse, present, exchange, Outcome, minted, failed,
  authorize, refused, answered, deny, finish, is_refusal,
}
use bigoci.Auth.Scopes.{scope_for}

-- What `do`, the hops of `follow`, `acquire`, the clock and `wait` do. Others may act on the tokens
-- while a request, an exchange or a wait is under way.
pub record Network (W : Type 0) : Type 0 where
  pub send : Request → W × AuthState → (GoError ⊎ Response) × W × AuthState
  pub hop : W → ℕ → Request → Option Response
  pub hopped : W × AuthState → W × AuthState
  pub acquire : Challenge → W × AuthState → Outcome × W × AuthState
  pub clock : W → ℕ
  pub wait : ℕ → W × AuthState → (GoError ⊎ Bytes) × W × AuthState

-- A body: none, one that GetBody rewinds or fails to, or one that is sent once.
pub data Body : Type 0 where
  no_body once : Body
  rewinding : Option GoError → Body

-- `replayable`
unfoldable pub replayable : Body → Bool
replayable no_body = true
replayable once = false
replayable (rewinding e) = true

abbrev pub rewind_error : Body → Option GoError
rewind_error no_body = none
rewind_error once = none
rewind_error (rewinding e) = e

-- Why no response comes back: the request failed, the credential was refused (with the error that
-- the tokens hold), or a redirect could not be followed.
pub data SendError : Type 0 where
  unsent : GoError → SendError
  unauthorized : Option GoError → SendError
  unfollowed : RedirectError → SendError

-- what a call returns, or that its fuel is out
pub data Result (W : Type 0) : Type 0 where
  exhausted : Result W
  returned : SendError ⊎ Response → W → AuthState → Result W

-- req.Header.Get("Authorization"), and the clone of a request with another one
abbrev pub carried : Request → Bytes
carried r = first_value r.header.authorization

abbrev pub with_header : Bytes → Request → Request
with_header h r = record { method = r.method; url = r.url; header = with_authorization h r.header }

abbrev pub of_outcome : Outcome → GoError ⊎ Bytes
of_outcome (minted h lifetime) = inr h
of_outcome (failed e) = inl e

module _ {W : Type 0} (net : Network W) where
  -- `mint` for the entry of the number, under the key
  unfoldable pub mint : Bytes → ℕ → Challenge → W × AuthState → (GoError ⊎ Bytes) × W × AuthState
  mint key id asked s =
      let (out, w, a) = net.acquire asked s in
      (of_outcome out, w, finish id key (net.clock w) out a)

  -- what a request does on a decision of the tokens
  unfoldable pub settle : Bytes → Decision → W × AuthState → (GoError ⊎ Bytes) × W × AuthState
  settle key anonymous (w, a) = (inr [], w, a)
  settle key (await id) s = net.wait id s
  settle key (refuse none) (w, a) = (inr [], w, a)
  settle key (refuse (some e)) (w, a) = (inl e, w, a)
  settle key (present h) (w, a) = (inr h, w, a)
  settle key (exchange id asked) s = mint key id asked s

  abbrev pub decided : Bytes → W → Decision × AuthState → (GoError ⊎ Bytes) × W × AuthState
  decided key w (d, a) = settle key d (w, a)

  abbrev authorized :
      Request → (GoError ⊎ Bytes) × W × AuthState → (GoError ⊎ Request) × W × AuthState
  authorized req (inl e, w, a) = (inl e, w, a)
  authorized req (inr h, w, a) = (inr (if bytes_eq h [] then req else with_header h req), w, a)

  -- `authorizeRequest` of a request whose body can be rewound
  unfoldable pub authorize_request :
      Bytes → Request → W → AuthState → (GoError ⊎ Request) × W × AuthState
  authorize_request name req w a =
      let key = scope_for req.method name in
      authorized req (decided key w (authorize (net.clock w) key a))

  -- what handles an accepted response, with the header that was presented
  abbrev pub Acceptance : Type 0
  Acceptance = Request → Response → Bytes → W → AuthState → Result W

  abbrev pub replay_arrived :
      Acceptance → Bytes → Request → Bytes → (GoError ⊎ Response) × W × AuthState → Result W
  replay_arrived accept name second header (inl e, w, a) = returned (inl (unsent e)) w a
  replay_arrived accept name second header (inr resp, w, a) =
      if is_refusal resp.status
      then (let (e, b) = deny (scope_for second.method name) header (status_error resp.status) a in
          returned (inl (unauthorized e)) w b)
      else accept second resp header w a

  -- `replayWith`
  unfoldable pub replay_with :
      Acceptance → Bytes → Request → Body → Bytes → W → AuthState → Result W
  replay_with accept name req body header w a = elim (rewind_error body) [
    | some e ↦ returned (inl (unsent (context "rewind the request body" e))) w a
    | none ↦
        replay_arrived accept name (with_header header req) header
          (net.send (with_header header req) (w, a))
  ]

  abbrev pub replay_answer :
      Acceptance → Bytes → Request → Body → GoError → (GoError ⊎ Bytes) × W × AuthState → Result W
  replay_answer accept name req body status (inl e, w, a) =
      returned (inl (unauthorized (some e))) w a
  replay_answer accept name req body status (inr header, w, a) =
      if replayable body
      then replay_with accept name req body header w a
      else returned (inl (unauthorized (some (fault (auth_failure status) (pos 0))))) w a

  -- `answerWith` behind the reading of the challenge
  unfoldable pub answer_challenge :
      Acceptance
      → Bytes
      → Request
      → Body
      → GoError
      → Option (AuthResult Challenge)
      → W
      → AuthState
      → Result W
  answer_challenge accept name req body status (some (ok asked)) w a =
      let key = scope_for req.method name in
      replay_answer accept name req body status
        (decided key w (refused key (carried req) asked status a))
  answer_challenge accept name req body status (some (err e)) w a =
      returned (inl (unauthorized (some (auth_failure status)))) w a
  answer_challenge accept name req body status none w a =
      returned (inl (unauthorized (some (auth_failure status)))) w a

  -- `answerWith`, and `answer`; a refusal is never marked for another attempt by `statusError`
  unfoldable pub answer_with :
      Acceptance → Bytes → Request → Body → Response → W → AuthState → Result W
  answer_with accept name req body resp w a =
      if bytes_eq resp.challenges [] && resp.status == 403
      then returned (inl (unsent (status_error resp.status))) w a
      else answer_challenge accept name req body (status_error resp.status)
          (parse_challenge resp.challenges) w a

  abbrev pub arrived :
      Acceptance → Bytes → Request → Body → (GoError ⊎ Response) × W × AuthState → Result W
  arrived accept name req body (inl e, w, a) = returned (inl (unsent e)) w a
  arrived accept name req body (inr resp, w, a) =
      if is_refusal resp.status
      then answer_with accept name req body resp w a
      else accept req resp (carried req) w a

  -- `sendWith`
  unfoldable pub send_with : Acceptance → Bytes → Request → Body → W → AuthState → Result W
  send_with accept name req body w a = arrived accept name req body (net.send req (w, a))

  -- `acceptedDirect`
  unfoldable pub accepted_direct : Acceptance
  accepted_direct req resp presented w a = returned (inr resp) w (answered presented a)

  module _ (equal_fold : Bytes → Bytes → Bool) (registry : Url) where
    abbrev pub chased : W → Request → Response → RedirectError ⊎ Response
    chased w req resp = (follow equal_fold registry (net.hop w) req resp).outcome

    abbrev pub after_chase :
        Acceptance → Bytes → Request → Body → RedirectError ⊎ Response → W × AuthState → Result W
    after_chase accept name req body (inl e) (w, a) = returned (inl (unfollowed e)) w a
    after_chase accept name req body (inr resp) (w, a) =
        if is_refusal resp.status
        then answer_with accept name req body resp w a
        else returned (inr resp) w a

    -- `accepted`, with fuel for the answers to refusals that come back from a chain
    unfoldable pub accepted : ℕ → Bytes → Body → Acceptance
    accepted zero name body req resp presented w a = exhausted
    accepted (suc fuel) name body req resp presented w a =
        if is_redirect resp.status
        then after_chase (accepted fuel name body) name req body (chased w req resp)
            (net.hopped (w, answered presented a))
        else returned (inr resp) w (answered presented a)

    -- `send`
    unfoldable pub send : ℕ → Bytes → Request → Body → W → AuthState → Result W
    send fuel name req body w a = send_with (accepted fuel name body) name req body w a
