-- ===== src/Redirect.antt =====
-- internal/oci/redirect.go: re-issuing a read at the locations that a peer names.
-- A request is its method, URL and headers, and a response its status and resolved Location; the
-- path label and the texts of the errors are left out. What the network answers is a parameter, and
-- so is strings.EqualFold on host names, which need not be ASCII.
pub mod Steps
pub mod Guard
pub mod Outcome
pub mod Session
use bigoci.Prelude.{
  leb, ◌==◌, if◌then◌else◌, Bytes, codes, ℕ, zero, suc, ◌⊎◌, inl, inr, Bool, false, not, ◌&&◌, ◌||◌,
  Option, none, some, List, [], ◌∷◌, ◌++◌, bytes_eq,
}

-- const maxRedirectHops
abbrev pub max_redirect_hops : ℕ
max_redirect_hops = 3

-- A URL by the parts that net/url reads off it: Scheme, Host, Hostname(), Port(), whether it has
-- a User, and the rest.
pub record Url : Type 0 where
  pub scheme : Bytes
  pub host : Bytes
  pub host_name : Bytes
  pub port : Bytes
  pub has_user : Bool
  pub rest : Bytes

pub data Method : Type 0 where
  get head : Method
  other : Bytes → Method

-- The values of the headers Range, Accept, Accept-Encoding and Authorization, and all others.
pub record Header : Type 0 where
  pub ranges : List Bytes
  pub accepts : List Bytes
  pub encodings : List Bytes
  pub authorization : List Bytes
  pub others : List (Bytes × Bytes)

pub record Request : Type 0 where
  pub method : Method
  pub url : Url
  pub header : Header

-- The Location header: absent, no URL, or a URL, resolved against that of the request.
pub data Location : Type 0 where
  absent unparseable : Location
  target : Url → Location

-- A response has its status, its Location, and its WWW-Authenticate values joined by `challengeHeader`.
pub record Response : Type 0 where
  pub status : ℕ
  pub location : Location
  pub challenges : Bytes

-- The failures of `follow`; the registry's and the storage host's refusals carry the status and
-- whether they are marked for another attempt.
pub data RedirectError : Type 0 where
  too_many_hops no_location not_a_url not_http no_host downgrade has_userinfo transport :
      RedirectError
  status_error redirect_error : ℕ → Bool → RedirectError

abbrev scheme_https : Bytes
scheme_https = codes "https"

abbrev scheme_http : Bytes
scheme_http = codes "http"

-- `transientStatus` (internal/oci/classify.go)
unfoldable pub transient_status : ℕ → Bool
transient_status status = status == 429 || leb 500 status && leb status 599

unfoldable pub off_origin_transient : ℕ → Bool
off_origin_transient status =
    status == 401 || status == 403 || status == 404 || status == 410 || transient_status status

unfoldable pub is_redirect : ℕ → Bool
is_redirect status =
    status == 301 || status == 302 || status == 303 || status == 307 || status == 308

unfoldable pub follow_method : Method → ℕ → Option Method
follow_method get status = some get
follow_method head status = if status == 303 then none else some head
follow_method (other m) status = none

unfoldable pub port_of : Url → Bytes
port_of u =
    if not (bytes_eq u.port [])
    then u.port
    else if bytes_eq u.scheme scheme_https
    then codes "443"
    else if bytes_eq u.scheme scheme_http
    then codes "80"
    else []

-- `http.Header.Get`
abbrev pub first_value : List Bytes → Bytes
first_value [] = []
first_value (v ∷ vs) = v

-- the header of a fresh request
abbrev pub no_header : Header
no_header = record { ranges = []; accepts = []; encodings = []; authorization = []; others = [] }

unfoldable pub copy_allowed : Header → Header → Header
copy_allowed dst src = record {
  ranges = dst.ranges ++ src.ranges;
  accepts = dst.accepts ++ src.accepts;
  encodings = dst.encodings ++ src.encodings;
  authorization = dst.authorization;
  others = dst.others;
}

abbrev pub with_authorization : Bytes → Header → Header
with_authorization v h = record {
  ranges = h.ranges;
  accepts = h.accepts;
  encodings = h.encodings;
  authorization = v ∷ [];
  others = h.others;
}

-- `redirectTarget` for a registry of the given scheme
unfoldable pub redirect_target : Bytes → Location → RedirectError ⊎ Url
redirect_target scheme absent = inl no_location
redirect_target scheme unparseable = inl not_a_url
redirect_target scheme (target u) =
    if not (bytes_eq u.scheme scheme_https) && not (bytes_eq u.scheme scheme_http)
    then inl not_http
    else if bytes_eq u.host []
    then inl no_host
    else if bytes_eq u.scheme scheme_http && bytes_eq scheme scheme_https
    then inl downgrade
    else if u.has_user
    then inl has_userinfo
    else inr u

-- `offOriginResponse`
unfoldable pub off_origin_response : Response → RedirectError ⊎ Response
off_origin_response resp =
    if resp.status == 200 || resp.status == 206
    then inr resp
    else inl (redirect_error resp.status (off_origin_transient resp.status))

-- The requests that `follow` sent, in order, and what it returned.
pub record Followed : Type 0 where
  pub sent : List Request
  pub outcome : RedirectError ⊎ Response

abbrev pub refused : RedirectError → Followed
refused e = record { sent = []; outcome = inl e }

abbrev pub after : Request → Followed → Followed
after r f = record { sent = r ∷ f.sent; outcome = f.outcome }

module _ (equal_fold : Bytes → Bytes → Bool) where
  unfoldable pub same_origin : Url → Url → Bool
  same_origin a b =
      bytes_eq a.scheme b.scheme
      && equal_fold a.host_name b.host_name
      && bytes_eq (port_of a) (port_of b)

  -- the headers that `nextHop` puts on the re-issue
  unfoldable pub hop_header : Request → Url → Header
  hop_header current u =
      let plain = copy_allowed no_header current.header in
      let presented = first_value current.header.authorization in
      if same_origin current.url u && not (bytes_eq presented [])
      then with_authorization presented plain
      else plain

  -- `nextHop` behind its bound on the hops
  unfoldable pub next_hop : Bytes → Request → Response → Bool → RedirectError ⊎ Request
  next_hop scheme current resp away = elim (follow_method current.method resp.status) [
    | none ↦
        if away
        then inl (redirect_error resp.status false)
        else inl (status_error resp.status (transient_status resp.status))
    | some method ↦ elim (redirect_target scheme resp.location) [
      | inl e ↦ inl e
      | inr u ↦ inr (record { method = method; url = u; header = hop_header current u })
    ]
  ]

  -- The registry's URL, and what sending the next request yields with so many hops left: a
  -- response, or `none` for a failure of `hop`.
  module _ (registry : Url) (answer : ℕ → Request → Option Response) where
    abbrev pub is_away : Bool → Request → Bool
    is_away away next = away || not (same_origin registry next.url)

    -- what the loop does with a response that is not followed
    unfoldable pub arrive : Bool → Response → RedirectError ⊎ Response
    arrive away resp = if away then off_origin_response resp else inr resp

    -- the loop of `follow`, with `left` the hops that it may still make: maxRedirectHops - hops
    unfoldable pub follow_from : ℕ → Request → Response → Bool → Followed
    follow_from zero current resp away = refused too_many_hops
    follow_from (suc left) current resp away = elim (next_hop registry.scheme current resp away) [
      | inl e ↦ refused e
      | inr next ↦ elim (answer left next) [
        | none ↦ after next (refused transport)
        | some r ↦
            let rest = follow_from left next r (is_away away next) in
            if is_redirect r.status
            then after next rest
            else after next (record { sent = []; outcome = arrive (is_away away next) r })
      ]
    ]

    unfoldable pub follow : Request → Response → Followed
    follow req resp = follow_from max_redirect_hops req resp false
