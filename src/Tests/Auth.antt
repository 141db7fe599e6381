-- ===== src/Tests/Auth.antt =====
-- internal/oci/authstate.go and token.go on a registry that challenges a pull.
use bigoci.Prelude.{
  ltb, Bytes, codes, mul64, pos, ℕ, ◌-◌, ◌*◌, ◌/◌, ◌≤◌, min, ◌≡◌, refl, inr, true, false, ◌||◌,
  Option, none, some, [], ◌∷◌, arith, lookup, insert, bytes_eq, insert,
}
use bigoci.Errors.{GoError, status_error}
use bigoci.Challenge.{Challenge}
use bigoci.Redirect.{get}
use bigoci.Redirect.Session.{second}
use bigoci.Auth.{
  AuthState, Entry, proven, denied, refuse, present, await, refused_held, deny_held, deny_state,
  exchange, minted, authorize, refused, finish, deny, usable, begin,
}
use bigoci.Auth.Scopes.{scope_for, merge_scopes, is_ascending, is_among, merge_scopes_lem}
use bigoci.Auth.System.{
  System, Steps, here, next, refusal, landing, second_refusal, asking, idle, launch, runs, landed,
  is_running,
}
use bigoci.Auth.Flight.{blames}
use bigoci.Auth.Flight.Fair.{IsFair, steps-IsFair}
use bigoci.Auth.Flight.Final.{steps-denied}
use bigoci.Auth.Stampede.{refusals, times, refusals_once}
use bigoci.Auth.Expiry.{usable-lifetime_of, usable_wrapped}
use bigoci.Auth.Exchange.{
  Credential, TokenRequest, TokenResponse, TokenReply, responded, acquire, lifetime_of,
}
use bigoci.Auth.Honest.{IsCarried, IsOwn, IsPresent, acquire-IsHonest}

abbrev blank : ℕ → Entry
blank i = record { header = []; acquired = 0; lifetime = pos 0; state = denied; err = none }

abbrev key : Bytes
key = codes "repository:a:pull"

abbrev asked : Challenge
asked = record {
  scheme = codes "bearer";
  realm = codes "https://t";
  service = [];
  scopes = key ∷ [];
}

abbrev status : GoError
status = status_error 401

abbrev token : Bytes
token = codes "Bearer t"

key_lem : scope_for get (codes "a") ≡ key
unfolding scope_for
key_lem = refl

-- the first refusal of an anonymous request
abbrev challenged_once : System
challenged_once = launch key [] (refused key [] asked status (idle blank).auth)

steps-IsFair_example :
    (runs key challenged_once.flights ≤ 1)
    × IsFair key challenged_once.flights (authorize 5 key challenged_once.auth).0
    × IsFair key challenged_once.flights (refused key token asked status challenged_once.auth).0
steps-IsFair_example =
    steps-IsFair blank challenged_once key token asked status 5
      (next here (refusal key [] asked status))

-- its exchange ends with a token, and the request that carries the token is refused
abbrev token_held : System
token_held = record {
  auth = finish 0 key 3 (minted token (pos 60)) challenged_once.auth;
  flights = landed key 0 challenged_once.flights;
}

abbrev token_refused : System
token_refused = record token_held { auth = (deny key token status token_held.auth).1 }

running : is_running key 0 challenged_once.flights ≡ true
unfolding refused refused_held begin is_running lookup bytes_eq
running = refl

to_denied : Steps (idle blank) token_refused
to_denied =
    next
      (next (next here (refusal key [] asked status))
        (landing 0 key 3 (minted token (pos 60)) running))
      (second_refusal key token status (λ e. absurd (cc e)))

denied_mapped : lookup key token_refused.auth.entries ≡ some 0
unfolding refused refused_held begin finish deny deny_held deny_state lookup insert bytes_eq
denied_mapped = refl

denied_state : (token_refused.auth.heap 0).state ≡ denied
unfolding refused refused_held begin finish deny deny_held deny_state lookup insert bytes_eq
denied_state = refl

abbrev asked_again : System
asked_again = launch key token_refused.flights (authorize 9 key token_refused.auth)

steps-denied_example :
    ((authorize 10 key asked_again.auth).0 ≡ refuse (token_refused.auth.heap 0).err)
    × ((refused key token asked status asked_again.auth).0 ≡ refuse (token_refused.auth.heap 0).err)
    × (blames (token_refused.auth.heap 0).err ≡ true)
    × (runs key asked_again.flights ≡ 0)
steps-denied_example =
    steps-denied blank token_refused asked_again key token 0 10 asked status to_denied
      (next here (asking 9 key)) denied_mapped denied_state

-- a token that has worked
abbrev working : AuthState
working = record {
  challenge = asked;
  challenged = true;
  replied = true;
  entries = (key, 0) ∷ [];
  heap =
      λ i. record { header = token; acquired = 0; lifetime = pos 60; state = proven; err = none };
  fresh = 1;
}

working_mapped : lookup key working.entries ≡ some 0
unfolding lookup bytes_eq
working_mapped = refl

token_differs : bytes_eq (codes "Bearer u") token ≡ false
unfolding bytes_eq
token_differs = refl

refusals_once_example :
    let (early, t) = refusals 4 key token asked status working in
    (early ≡ exchange 1 asked ∷ times 3 (await 1))
    × ((refusals 2 key token asked status (finish 1 key 7 (minted (codes "Bearer u") (pos 60)) t)).0
        ≡ times 2 (present (codes "Bearer u")))
refusals_once_example =
    refusals_once key token asked status 3 2 0 7 (codes "Bearer u") (pos 60) working working_mapped
      refl refl token_differs

merge_scopes_lem_example :
    (is_ascending (merge_scopes key (codes "b" ∷ key ∷ codes "a" ∷ [])) ≡ true)
    × (is_among (codes "a") (merge_scopes key (codes "b" ∷ key ∷ codes "a" ∷ []))
        ≡ (bytes_eq key (codes "a") || is_among (codes "a") (codes "b" ∷ key ∷ codes "a" ∷ [])))
merge_scopes_lem_example = merge_scopes_lem key (codes "b" ∷ key ∷ codes "a" ∷ []) (codes "a")

abbrev user : Credential
user = record {
  user_name = codes "u";
  password = codes "p";
  identity_token = [];
  registry_token = [];
}

abbrev document : Bytes → Option TokenResponse
document body = some (record { token = body; access_token = []; expires_in = pos 60 })

abbrev issuer : TokenRequest → TokenReply
issuer r = responded 200 (pos 0) (some (codes "t"))

acquire-IsHonest_example :
    let (sent, out) =
      acquire
        (λ (b : Bytes). b)
        (λ (r : Bytes). none)
        document
        issuer
        asked
        (key ∷ [])
        (inr user) in
    IsCarried user sent × IsOwn (λ (b : Bytes). b) user sent out × IsPresent out
acquire-IsHonest_example =
    acquire-IsHonest (λ b. b) (λ r. none) document issuer asked (key ∷ []) user

-- a token of five minutes
abbrev five_minutes : Entry
five_minutes = record {
  header = token;
  acquired = 1000;
  lifetime = pos 300000000000;
  state = proven;
  err = none;
}

five_minutes_lem : five_minutes.lifetime ≡ lifetime_of (pos 300)
unfolding lifetime_of mul64
five_minutes_lem = refl

usable-lifetime_of_example :
    usable 5000 five_minutes ≡ ltb (5000 - 1000) (300 * second - min (300 * second / 2) 30000000000)
usable-lifetime_of_example =
    usable-lifetime_of five_minutes 300 5000 (omega arith) (omega arith) five_minutes_lem
      (omega arith) (omega arith)

-- a promise of 2^55 seconds
abbrev forever : Entry
forever = record { header = token; acquired = 1000; lifetime = pos 0; state = proven; err = none }

forever_lem : forever.lifetime ≡ lifetime_of (pos (1 * 36028797018963968))
unfolding lifetime_of mul64
forever_lem = refl

usable_wrapped_example : usable 9000000000000000000 forever ≡ true
usable_wrapped_example =
    usable_wrapped forever 1 9000000000000000000 (omega arith) (omega arith) forever_lem
