-- ===== src/Tests/Registry.antt =====
-- internal/oci: challenges and content codings.
use bigoci.Prelude.{
  Bytes, codes, length, pos, ◌≤◌, ◌≡◌, refl, ◌⊎◌, inr, some, List, [], ◌∷◌, map, bytes_eq,
}
use bigoci.Decimal.{parse_int, parse_uint, scan}
use bigoci.Text.{strip_prefix, to_lower, space_width}
use bigoci.Range.{
  Ranged, before_hyphen, range_start, check_range_start, ranged_start, blob_read_start,
}
use bigoci.Range.Start.{Starts, blob_read_start-Starts}
use bigoci.Encoding.{check_identity_encoding}
use bigoci.Encoding.Join.{join, check_identity_encoding-join}
use bigoci.Challenge.{
  is_token_char, is_member, Challenge, AuthResult, ok, err, too_long, challenge_limit,
  pick_challenge, fields, fields_from, scan_challenges, parse_challenge,
}
use bigoci.Challenge.Scanner.{IsToken}
use bigoci.Challenge.Total.{parse_challenge-total}
use bigoci.Challenge.Pick.{first, choose, pick_challenge-choose}
use bigoci.Challenge.Written.{Written, IsGap, as_token, as_string, IsHeader, write, meaning}
use bigoci.Challenge.Render.{scan_challenges-write}

abbrev two_lines : List Bytes
two_lines = codes "identity" ∷ codes " , IDENTITY" ∷ []

check_identity_encoding-join_example :
    check_identity_encoding two_lines ≡ check_identity_encoding (join two_lines ∷ [])
check_identity_encoding-join_example = check_identity_encoding-join two_lines

abbrev basic : Challenge
basic = record { scheme = codes "basic"; realm = codes "r"; service = []; scopes = [] }

abbrev bearer : Challenge
bearer = record {
  scheme = codes "bearer";
  realm = codes "https://auth";
  service = codes "s";
  scopes = [];
}

pick_challenge-choose_example :
    pick_challenge (basic ∷ bearer ∷ [])
    ≡ choose
        (first (codes "bearer") (basic ∷ bearer ∷ []))
        (first (codes "basic") (basic ∷ bearer ∷ []))
pick_challenge-choose_example = pick_challenge-choose (basic ∷ bearer ∷ [])

parse_challenge-total_example :
    (r : AuthResult Challenge) × (parse_challenge (codes "Basic") ≡ some r)
    × ((length (codes "Basic") ≤ challenge_limit) ⊎ (r ≡ err too_long))
parse_challenge-total_example = parse_challenge-total (codes "Basic")

-- Basic realm=r, Bearer realm="https://a/t",Scope="a,b c"
abbrev written : List Written
written =
    ([], codes "Basic", (codes " ", codes "realm", as_token (codes "r")) ∷ [])
    ∷ (
      codes ", ",
      codes "Bearer",
      (codes " ", codes "realm", as_string (codes "https://a/t"))
          ∷ (codes ",", codes "Scope", as_string (codes "a,b c"))
          ∷ [],
    )
    ∷ []

basic-IsToken : IsToken (codes "Basic")
unfolding is_token_char is_member
basic-IsToken = (λ e. absurd (cc e), (refl, (refl, (refl, (refl, (refl, tt))))))

r-IsToken : IsToken (codes "r")
unfolding is_token_char is_member
r-IsToken = (λ e. absurd (cc e), (refl, tt))

bearer-IsToken : IsToken (codes "Bearer")
unfolding is_token_char is_member
bearer-IsToken = (λ e. absurd (cc e), (refl, (refl, (refl, (refl, (refl, (refl, tt)))))))

realm-IsToken : IsToken (codes "realm")
unfolding is_token_char is_member
realm-IsToken = (λ e. absurd (cc e), (refl, (refl, (refl, (refl, (refl, tt))))))

scope-IsToken : IsToken (codes "Scope")
unfolding is_token_char is_member
scope-IsToken = (λ e. absurd (cc e), (refl, (refl, (refl, (refl, (refl, tt))))))

blank-IsGap : IsGap (codes " ")
blank-IsGap = (λ e. absurd (cc e), (refl, tt))

comma-IsGap : IsGap (codes ",")
comma-IsGap = (λ e. absurd (cc e), (refl, tt))

comma_blank-IsGap : IsGap (codes ", ")
comma_blank-IsGap = (λ e. absurd (cc e), (refl, (refl, tt)))

written-IsHeader : IsHeader written
written-IsHeader = (
  tt,
  basic-IsToken,
  ((blank-IsGap, realm-IsToken, r-IsToken), tt),
  (
    (
      comma_blank-IsGap,
      bearer-IsToken,
      ((blank-IsGap, realm-IsToken, tt), ((comma-IsGap, scope-IsToken, tt), tt)),
    ),
    tt,
  ),
)

written-meaning :
    map meaning written
    ≡ record { scheme = codes "basic"; realm = codes "r"; service = []; scopes = [] }
      ∷ record {
        scheme = codes "bearer";
        realm = codes "https://a/t";
        service = [];
        scopes = codes "a,b" ∷ codes "c" ∷ [];
      }
      ∷ []
unfolding to_lower bytes_eq fields fields_from space_width
written-meaning = refl

scan_challenges-write_example : scan_challenges (write written) ≡ some (ok (map meaning written))
scan_challenges-write_example = scan_challenges-write written written-IsHeader

-- A 206 for bytes 7 to 9.
abbrev seventh : Ranged
seventh = record { status = 206; content_range = codes "bytes 7-9/10" }

seventh_start : blob_read_start seventh (pos 7) ≡ inr (pos 7)
unfolding blob_read_start ranged_start check_range_start range_start strip_prefix before_hyphen
    parse_int parse_uint scan
seventh_start = refl

blob_read_start-Starts_example : Starts seventh (pos 7) (pos 7)
blob_read_start-Starts_example = blob_read_start-Starts seventh (pos 7) (pos 7) seventh_start
