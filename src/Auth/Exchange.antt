-- ===== src/Auth/Exchange.antt =====
-- internal/oci/token.go: the Authorization header that answers a challenge, and the exchange with
-- the token endpoint. What the credential resolver, the realm check, the token endpoint and
-- encoding/json answer are parameters, and so is base64.
use bigoci.Prelude.{
  ltb, ◌==◌, if◌then◌else◌, Bytes, codes, length, mul64, ℤ, pos, leb_ℤ, ℕ, ◌⊎◌, inl, inr, Bool, not,
  ◌&&◌, Option, none, some, List, [], ◌++◌, bytes_eq,
}
use bigoci.Errors.{GoError, auth_failure, plain, status_error, fault, context}
use bigoci.Challenge.{Challenge}
use bigoci.Redirect.{transient_status}
use bigoci.Redirect.Session.{second}
use bigoci.Auth.{Outcome, minted, failed}

-- the credential of internal/oci/credentials.go
pub record Credential : Type 0 where
  pub user_name : Bytes
  pub password : Bytes
  pub identity_token : Bytes
  pub registry_token : Bytes

-- `Empty`
unfoldable pub is_empty : Credential → Bool
is_empty c =
    bytes_eq c.user_name []
    && bytes_eq c.password []
    && bytes_eq c.identity_token []
    && bytes_eq c.registry_token []

-- `identityOnly`
unfoldable pub identity_only : Credential → Bool
identity_only c =
    not (bytes_eq c.identity_token []) && bytes_eq c.password [] && bytes_eq c.registry_token []

-- `bearerHeader`
unfoldable pub bearer_header : Bytes → Bytes
bearer_header token = codes "Bearer " ++ token

-- `basicHeader`
unfoldable pub basic_header : (Bytes → Bytes) → Credential → GoError ⊎ Bytes
basic_header base64 c =
    if is_empty c
    then inl (auth_failure (plain "no user name and password"))
    else inr (codes "Basic " ++ base64 (c.user_name ++ codes ":" ++ c.password))

-- const defaultTokenLifetime, sixty seconds, and const tokenBodyLimit
abbrev pub default_token_lifetime : ℕ
default_token_lifetime = 60000000000

abbrev pub token_body_limit : ℕ
token_body_limit = 65536

-- `lifetimeOf`, with the product of int64
unfoldable pub lifetime_of : ℤ → ℤ
lifetime_of expires_in =
    if leb_ℤ expires_in (pos 0) then pos default_token_lifetime else mul64 expires_in (pos second)

-- the `tokenResponse` that encoding/json fills
pub record TokenResponse : Type 0 where
  pub token : Bytes
  pub access_token : Bytes
  pub expires_in : ℤ

-- The token request: the realm, the parameters of `tokenQuery`, and the user name and password of
-- the Basic header, if it carries one.
pub record TokenRequest : Type 0 where
  pub realm : Bytes
  pub service : Bytes
  pub scopes : List Bytes
  pub basic : Option (Bytes × Bytes)

-- What the token endpoint answers: no response, or a status, the wait that Retry-After asks for, and
-- what io.ReadAll reads of the body up to one byte over the limit (`none` where that fails).
pub data TokenReply : Type 0 where
  unreachable : GoError → TokenReply
  responded : ℕ → ℤ → Option Bytes → TokenReply

-- `tokenStatusError`
unfoldable pub token_status_error : ℕ → ℤ → GoError
token_status_error status after =
    if transient_status status then fault (status_error status) after else status_error status

-- the token of the document, which `token` names first
unfoldable pub token_of : TokenResponse → Bytes
token_of r = if bytes_eq r.token [] then r.access_token else r.token

abbrev pub token_found : TokenResponse → Outcome
token_found r =
    if bytes_eq (token_of r) []
    then failed (plain "no token")
    else minted (bearer_header (token_of r)) (lifetime_of r.expires_in)

abbrev pub decoded : Option TokenResponse → Outcome
decoded none = failed (plain "not a token document")
decoded (some r) = token_found r

-- `readToken`; `decode` is what json.Unmarshal makes of a body
unfoldable pub read_token : (Bytes → Option TokenResponse) → Option Bytes → Outcome
read_token decode none = failed (fault (context "read the answer" (plain "cause")) (pos 0))
read_token decode (some body) =
    if ltb token_body_limit (length body) then failed (plain "too large") else decoded (decode body)

-- the answer of `exchange`
unfoldable pub replied : (Bytes → Option TokenResponse) → TokenReply → Outcome
replied decode (unreachable e) = failed e
replied decode (responded status after body) =
    if status == 200 then read_token decode body else failed (token_status_error status after)

abbrev pub token_request : Challenge → List Bytes → Credential → TokenRequest
token_request asked scopes c = record {
  realm = asked.realm;
  service = asked.service;
  scopes = scopes;
  basic = if is_empty c then none else some (c.user_name, c.password);
}

abbrev pub header_outcome : GoError ⊎ Bytes → Outcome
header_outcome (inl e) = failed e
header_outcome (inr h) = minted h (pos 0)

module _ (base64 : Bytes → Bytes) (realm_error : Bytes → Option GoError)
    (decode : Bytes → Option TokenResponse) (endpoint : TokenRequest → TokenReply) where
  -- `exchange`: what it sends, and its result
  unfoldable pub exchange : Challenge → List Bytes → Credential → Option TokenRequest × Outcome
  exchange asked scopes c = elim (realm_error asked.realm) [
    | some e ↦ (none, failed e)
    | none ↦
        let request = token_request asked scopes c in
        (some request, replied decode (endpoint request))
  ]

  -- `acquire` after the lookup of the credential
  unfoldable pub acquire_with : Challenge → List Bytes → Credential → Option TokenRequest × Outcome
  acquire_with asked scopes c =
      if identity_only c
      then (none, failed (auth_failure (plain "identity token")))
      else if not (bytes_eq c.registry_token [])
      then (none, minted (bearer_header c.registry_token) (pos 0))
      else if bytes_eq asked.scheme (codes "basic")
      then (none, header_outcome (basic_header base64 c))
      else exchange asked scopes c

  -- `acquire`, with the answer of `credential`
  unfoldable pub acquire :
      Challenge → List Bytes → GoError ⊎ Credential → Option TokenRequest × Outcome
  acquire asked scopes (inl e) = (none, failed (context "look up the credential" e))
  acquire asked scopes (inr c) = acquire_with asked scopes c
