-- ===== src/Tests/Follow.antt =====
-- internal/oci/redirect.go on a registry that redirects to itself and then to a store.
use bigoci.Prelude.{
  ltb, if◌then◌else◌, codes, length, pos, ℕ, zero, suc, ◌*◌, ◌≤◌, ◌≡◌, refl, ◌⊎◌, inr, false,
  Option, none, some, [], ◌∷◌, arith, String, bytes_eq,
}
use bigoci.Redirect.{
  Url, Request, Response, target, absent, get, max_redirect_hops, follow, follow_from, next_hop,
  hop_header, same_origin, port_of, redirect_target, follow_method, copy_allowed, is_redirect,
  arrive, off_origin_response,
}
use bigoci.Redirect.Guard.{Hops, follow-Hops}
use bigoci.Decimal.{format_nat}
use bigoci.Redirect.Session.{retry_after, max_retry_after_seconds, second, retry_after-format_nat}
use bigoci.Redirect.Outcome.{any_away, follow-content}

abbrev url : String → Url
url h = record {
  scheme = codes "https";
  host = codes h;
  host_name = codes h;
  port = [];
  has_user = false;
  rest = codes "/x";
}

abbrev registry : Url
registry = url "r.example"

abbrev request : Request
request = record {
  method = get;
  url = registry;
  header = record {
    ranges = codes "bytes=3-" ∷ [];
    accepts = [];
    encodings = codes "identity" ∷ [];
    authorization = codes "Bearer t" ∷ [];
    others = [];
  };
}

abbrev moved : Response
moved = record { status = 307; location = target registry; challenges = [] }

abbrev content : Response
content = record { status = 200; location = absent; challenges = [] }

-- the registry names a store, and the store answers
abbrev answer : ℕ → Request → Option Response
answer zero r = some content
answer (suc zero) r = some content
answer (suc (suc left)) r =
    some (record { status = 307; location = target (url "store.example"); challenges = [] })

arrived : (follow bytes_eq registry answer request moved).outcome ≡ inr content
unfolding follow follow_from next_hop hop_header same_origin port_of redirect_target follow_method
    copy_allowed is_redirect arrive off_origin_response bytes_eq
arrived = refl

follow-Hops_example :
    Hops bytes_eq registry.scheme request (follow bytes_eq registry answer request moved).sent
    × (length (follow bytes_eq registry answer request moved).sent ≤ max_redirect_hops)
follow-Hops_example = follow-Hops bytes_eq registry answer request moved

follow-content_example :
    (is_redirect content.status ≡ false)
    × ((any_away bytes_eq registry answer false (follow bytes_eq registry answer request moved).sent
          ≡ false)
        ⊎ ((content.status ≡ 200) ⊎ (content.status ≡ 206)))
follow-content_example = follow-content bytes_eq registry answer request moved content arrived

retry_after-format_nat_example :
    retry_after (λ s. none) (format_nat 120)
    ≡ pos (if ltb max_retry_after_seconds 120 then 0 else 120 * second)
retry_after-format_nat_example = retry_after-format_nat (λ s. none) 120 (omega arith)
