-- ===== src/Tests/Send.antt =====
-- internal/oci/repository.go on a registry that answers, and on one that redirects and refuses.
use bigoci.Prelude.{
  ◌==◌, if◌then◌else◌, Bytes, codes, pos, ℕ, ◌+◌, ◌≡◌, refl, inr, true, false, none, some, [], ◌∷◌,
  lookup, bytes_eq,
}
use bigoci.Challenge.{
  Challenge, parse_challenge, scan_challenges, scan_in, continue, scan_step, after_delims, delims,
  after_token, span, is_token_char, after_equals, equals, space, is_member, after_value, value,
  quoted, fields, fields_from, pick_challenge, pick_from, resync, resync_in, set_param, AuthResult,
  ok,
}
use bigoci.Challenge
use bigoci.Text.{to_lower, space_width}
use bigoci.Redirect.{
  Url, Request, Response, get, absent, target, follow, follow_from, next_hop, same_origin, port_of,
  redirect_target, follow_method, is_redirect, arrive,
}
use bigoci.Auth.{AuthState, proven, minted, is_refusal}
use bigoci.Auth.Scopes.{scope_for}
use bigoci.Send.{Network, no_body, exhausted, send, send_with, accepted_direct, chased}
use bigoci.Send.Twice.{IsWithin, send_with-IsWithin}
use bigoci.Send.Endless.{send_exhausted}

abbrev url : Url
url = record {
  scheme = codes "https";
  host = codes "r.example";
  host_name = codes "r.example";
  port = [];
  has_user = false;
  rest = codes "/v2/a/manifests/v1";
}

abbrev token : Bytes
token = codes "Bearer t"

abbrev request : Request
request = record {
  method = get;
  url = url;
  header = record {
    ranges = [];
    accepts = [];
    encodings = [];
    authorization = token ∷ [];
    others = [];
  };
}

abbrev content : Response
content = record { status = 200; location = absent; challenges = [] }

abbrev moved : Response
moved = record { status = 307; location = target url; challenges = [] }

abbrev refusal : Response
refusal = record { status = 401; location = absent; challenges = codes "Basic" }

-- a registry that refuses the first request and answers the next
abbrev answers_at : ℕ → Response
answers_at n = if n == 0 then refusal else content

abbrev answering : Network ℕ
answering = record {
  send = λ r (w, a). (inr (answers_at w), w + 1, a);
  hop = λ w n r. none;
  hopped = λ s. s;
  acquire = λ c (w, a). (minted token (pos 0), w, a);
  clock = λ w. w;
  wait = λ id (w, a). (inr token, w, a);
}

-- a registry whose target always refuses
abbrev circling : Network ℕ
circling = record {
  send = λ r (w, a). (inr moved, w, a);
  hop = λ w n r. some refusal;
  hopped = λ s. s;
  acquire = λ c (w, a). (minted token (pos 0), w, a);
  clock = λ w. w;
  wait = λ id (w, a). (inr token, w, a);
}

abbrev key : Bytes
key = codes "repository:a:pull"

abbrev holding : AuthState
holding = record {
  challenge = record {
    scheme = codes "bearer";
    realm = codes "https://t";
    service = [];
    scopes = [];
  };
  challenged = true;
  replied = true;
  entries = (key, 0) ∷ [];
  heap = λ i. record { header = token; acquired = 0; lifetime = pos 0; state = proven; err = none };
  fresh = 1;
}

send_with-IsWithin_example :
    IsWithin
      (λ (w : ℕ). w)
      2
      (send_with answering (accepted_direct answering) (codes "a") request no_body 0 holding)
send_with-IsWithin_example =
    send_with-IsWithin answering (λ w. w) (λ r w a. refl) (λ c w a. refl) (λ id w a. refl)
      (codes "a") request no_body 0 holding

target_refuses :
    (r : Request) (w : ℕ) → r.method ≡ get → chased circling bytes_eq url w r moved ≡ inr refusal
unfolding follow follow_from next_hop same_origin port_of redirect_target follow_method is_redirect
    arrive bytes_eq
target_refuses r w h = rw h refl

holding_mapped : lookup (scope_for get (codes "a")) holding.entries ≡ some 0
unfolding scope_for lookup bytes_eq
holding_mapped = refl

abbrev asked : Challenge
asked = record { scheme = codes "basic"; realm = []; service = []; scopes = [] }

refusal_asks : parse_challenge refusal.challenges ≡ some (ok asked)
unfolding parse_challenge scan_challenges scan_in continue scan_step after_delims delims after_token
    Challenge.token span is_token_char after_equals equals space is_member after_value value quoted
    fields fields_from pick_challenge pick_from resync resync_in set_param bytes_eq space_width
    to_lower
refusal_asks = refl

refusal_named : bytes_eq refusal.challenges [] ≡ false
unfolding bytes_eq
refusal_named = refl

moves : is_redirect moved.status ≡ true
unfolding is_redirect
moves = refl

refuses : is_refusal refusal.status ≡ true
unfolding is_refusal
refuses = refl

send_exhausted_example :
    send circling bytes_eq url 1000 (codes "a") request no_body 0 holding ≡ exhausted
send_exhausted_example =
    send_exhausted circling bytes_eq url (codes "a") token asked (pos 0) moved refusal moves refuses
      refusal_asks refusal_named (λ e. absurd (cc e)) (λ r w a. refl) target_refuses (λ w a. refl)
      (λ c w a. refl) 1000 request 0 holding refl refl
      (record { id = 0; mapped = holding_mapped; same = refl; trusted = inr refl })
