-- ===== src/Challenge.antt =====
-- internal/oci/challenge.go: reading a WWW-Authenticate header.
-- A string is its bytes. The scanner is what is left of the header, `header[pos:]`, so a method that
-- advances it returns the rest. The challenges offered so far are kept with the last one first.
pub mod Scanner
pub mod Total
pub mod Pick
pub mod Written
pub mod Gaps
pub mod Render
use mathlib.Core.List.{reverse}
use bigoci.Prelude.{
  ltb, leb, ◌==◌, if◌then◌else◌, Bytes, codes, length, ℕ, zero, suc, ◌+◌, ◌-◌, Bool, false, ◌&&◌,
  ◌||◌, Option, none, some, List, [], ◌∷◌, ◌++◌, map, bytes_eq,
}
use bigoci.Text.{to_lower, space_width}

-- const challengeLimit
abbrev pub challenge_limit : ℕ
challenge_limit = 8192

pub record Challenge : Type 0 where
  pub scheme : Bytes
  pub realm : Bytes
  pub service : Bytes
  pub scopes : List Bytes

-- `challenge{}`
abbrev pub void : Challenge
void = record { scheme = []; realm = []; service = []; scopes = [] }

-- The reasons of the `authError`s.
pub data AuthError : Type 0 where
  no_challenge too_long unreadable no_realm unsupported_scheme : AuthError

pub data AuthResult {ℓ} (A : Type ℓ) : Type ℓ where
  ok : A → AuthResult A
  err : AuthError → AuthResult A

unfoldable pub is_member : ℕ → Bytes → Bool
is_member c [] = false
is_member c (d ∷ s) = c == d || is_member c s

-- `isTokenChar` with tcharSpecials
unfoldable pub is_token_char : ℕ → Bool
is_token_char c =
    leb b'a' c && leb c b'z'
    || leb b'A' c && leb c b'Z'
    || leb b'0' c && leb c b'9'
    || is_member c (codes "!#$%&'*+-.^_`|~")

-- the field read so far, if there is one
abbrev pub flush : Bytes → List Bytes
flush [] = []
flush (c ∷ s) = (c ∷ s) ∷ []

-- strings.Fields: `skip` bytes of a white space are still to pass, `cur` is the field so far
unfoldable pub fields_from : ℕ → Bytes → Bytes → List Bytes
fields_from skip cur [] = flush cur
fields_from (suc skip) cur (c ∷ s) = fields_from skip cur s
fields_from zero cur (c ∷ s) =
    let same = fields_from zero (cur ++ c ∷ []) s in
    let next = fields_from (space_width (c ∷ s) - 1) [] s in
    if space_width (c ∷ s) == 0 then same else flush cur ++ next

unfoldable pub fields : Bytes → List Bytes
fields s = fields_from 0 [] s

-- `set`
unfoldable pub set_param : Challenge → Bytes → Bytes → Challenge
set_param c name value =
    let n = map to_lower name in
    if bytes_eq n (codes "realm")
    then record c { realm = value }
    else if bytes_eq n (codes "service")
    then record c { service = value }
    else if bytes_eq n (codes "scope")
    then record c { scopes = fields value }
    else c

-- `space`
unfoldable pub space : Bytes → Bytes
space [] = []
space (c ∷ s) = let rest = space s in if c == b' ' || c == b'\t' then rest else c ∷ s

-- `delims`
unfoldable pub delims : Bytes → Bytes
delims [] = []
delims (c ∷ s) = let rest = delims s in if c == b' ' || c == b'\t' || c == b',' then rest else c ∷ s

abbrev after_sign : Bytes → Option Bytes
after_sign [] = none
after_sign (c ∷ s) = if c == b'=' then some (space s) else none

-- `equals`; `none` is the answer false, which leaves the scan where it was
unfoldable pub equals : Bytes → Option Bytes
equals s = after_sign (space s)

-- the longest run of token characters, and the rest
unfoldable pub span : Bytes → Bytes × Bytes
span [] = ([], [])
span (c ∷ s) = let (t, rest) = span s in if is_token_char c then (c ∷ t, rest) else ([], c ∷ s)

abbrev non_empty : Bytes × Bytes → Option (Bytes × Bytes)
non_empty ([], rest) = none
non_empty (c ∷ t, rest) = some (c ∷ t, rest)

-- `token`
unfoldable pub token : Bytes → Option (Bytes × Bytes)
token s = non_empty (span s)

-- `quoted` behind its opening quote: the value, if the string is closed, and the rest
unfoldable pub quoted : Bytes → Bytes → Option Bytes × Bytes
quoted out [] = (none, [])
quoted out (c ∷ []) = if c == b'"' then (some out, []) else (none, [])
quoted out (c ∷ d ∷ s) =
    let escaped = quoted (out ++ d ∷ []) s in
    let next = quoted (out ++ c ∷ []) (d ∷ s) in
    if c == b'"' then (some out, d ∷ s) else if c == b'\\' then escaped else next

abbrev token_value : Bytes → Option (Bytes × Bytes) → Option Bytes × Bytes
token_value s none = (none, s)
token_value s (some (t, rest)) = (some t, rest)

-- `value`
unfoldable pub value : Bytes → Option Bytes × Bytes
value [] = (none, [])
value (c ∷ s) = if c == b'"' then quoted [] s else token_value (c ∷ s) (token (c ∷ s))

-- `resync`; the fuel is a bound on the bytes left
unfoldable pub resync_in : ℕ → Bytes → Bytes
resync_in zero s = s
resync_in (suc fuel) [] = []
resync_in (suc fuel) (c ∷ s) =
    let behind = resync_in fuel (quoted [] s).1 in
    let next = resync_in fuel s in if c == b',' then c ∷ s else if c == b'"' then behind else next

unfoldable pub resync : Bytes → Bytes
resync s = resync_in (length s) s

-- How a round of `scanChallenges` ends.
pub data Step : Type 0 where
  finished : List Challenge → Step
  failed : Step
  more : Bytes → List Challenge → Step

unfoldable pub after_value : Bytes → List Challenge → Option Bytes × Bytes → Step
after_value name [] (v, s) = failed
after_value name (last ∷ before) (none, s) = more (resync s) (void ∷ before)
after_value name (last ∷ before) (some v, s) = more s (set_param last name v ∷ before)

unfoldable pub after_equals : Bytes → Bytes → List Challenge → Option Bytes → Step
after_equals name s offered none =
    more s (record { scheme = map to_lower name; realm = []; service = []; scopes = [] } ∷ offered)
after_equals name s offered (some s') = after_value name offered (value s')

unfoldable pub after_token : List Challenge → Option (Bytes × Bytes) → Step
after_token offered none = failed
after_token offered (some (name, s)) = after_equals name s offered (equals s)

unfoldable pub after_delims : List Challenge → Bytes → Step
after_delims offered [] = finished (reverse offered)
after_delims offered (c ∷ s) = after_token offered (token (c ∷ s))

-- one round of the loop
unfoldable pub scan_step : Bytes → List Challenge → Step
scan_step s offered = after_delims offered (delims s)

unfoldable pub continue :
    (Bytes → List Challenge → Option (AuthResult (List Challenge)))
    → Step
    → Option (AuthResult (List Challenge))
continue rest (finished offered) = some (ok offered)
continue rest failed = some (err unreadable)
continue rest (more s offered) = rest s offered

-- the loop on fuel; `none` means that the fuel ran out
unfoldable pub scan_in : ℕ → Bytes → List Challenge → Option (AuthResult (List Challenge))
scan_in zero s offered = none
scan_in (suc fuel) s offered = continue (λ s' o'. scan_in fuel s' o') (scan_step s offered)

-- `scanChallenges`; the fuel is one more than the bytes to read
unfoldable pub scan_challenges : Bytes → Option (AuthResult (List Challenge))
scan_challenges header = scan_in (length header + 1) header []

abbrev first_of_two : Option Challenge → Challenge → Challenge
first_of_two none c = c
first_of_two (some b) c = b

-- `pickChallenge` from some place on, with the first Basic challenge met before it
unfoldable pub pick_from : Option Challenge → List Challenge → AuthResult Challenge
pick_from none [] = err unsupported_scheme
pick_from (some c) [] = ok c
pick_from fallback (one ∷ rest) =
    let other = pick_from fallback rest in
    let basic = pick_from (some (first_of_two fallback one)) rest in
    if bytes_eq one.scheme (codes "bearer")
    then if bytes_eq one.realm [] then err no_realm else ok one
    else if bytes_eq one.scheme (codes "basic")
    then basic
    else other

unfoldable pub pick_challenge : List Challenge → AuthResult Challenge
pick_challenge offered = pick_from none offered

abbrev and_pick : Option (AuthResult (List Challenge)) → Option (AuthResult Challenge)
and_pick none = none
and_pick (some (err e)) = some (err e)
and_pick (some (ok offered)) = some (pick_challenge offered)

-- `parseChallenge`; `none` would be a scan that ran out of fuel
unfoldable pub parse_challenge : Bytes → Option (AuthResult Challenge)
parse_challenge [] = some (err no_challenge)
parse_challenge (c ∷ s) =
    if ltb challenge_limit (length (c ∷ s))
    then some (err too_long)
    else and_pick (scan_challenges (c ∷ s))
