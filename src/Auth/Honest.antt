-- ===== src/Auth/Honest.antt =====
-- The credential of internal/oci/token.go is used or refused, never dropped.
use bigoci.Prelude.{
  if◌then◌else◌, Bytes, codes, ◌≡◌, ◌≢◌, ◌⊎◌, inr, false, Option, none, some, List, [], ◌++◌, arith,
  bytes_eq_iff, bytes_eq_iff,
}
use bigoci.Errors.{GoError}
use bigoci.Challenge.{Challenge}
use bigoci.Auth.{Outcome, minted, failed}
use bigoci.Auth.Exchange.{
  Credential, TokenRequest, TokenResponse, TokenReply, acquire, acquire_with, exchange,
  identity_only, is_empty, basic_header, bearer_header, replied, read_token,
}

-- A token request carries the user name and the password of a credential that is not empty, and is
-- sent only where no other field should have been used.
abbrev pub IsCarried : Credential → Option TokenRequest → Type 0
IsCarried c none = Unit {0}
IsCarried c (some r) =
    (identity_only c ≡ false)
    × (c.registry_token ≡ [])
    × (r.basic ≡ (if is_empty c then none else some (c.user_name, c.password)))

-- A header with no exchange is that of the credential itself.
abbrev pub IsOwn : (Bytes → Bytes) → Credential → Option TokenRequest → Outcome → Type 0
IsOwn base64 c (some r) out = Unit {0}
IsOwn base64 c none (failed e) = Unit {0}
IsOwn base64 c none (minted h l) =
    (is_empty c ≡ false)
    × ((h ≡ codes "Bearer " ++ c.registry_token)
        ⊎ (h ≡ codes "Basic " ++ base64 (c.user_name ++ codes ":" ++ c.password)))

abbrev pub IsPresent : Outcome → Type 0
IsPresent (failed e) = Unit {0}
IsPresent (minted h l) = h ≢ []

module _ (base64 : Bytes → Bytes) (realm_error : Bytes → Option GoError)
    (decode : Bytes → Option TokenResponse) (endpoint : TokenRequest → TokenReply) where
  -- Whatever the token endpoint answers: a token request carries the user name and password of every
  -- credential that is not empty, and is never sent for an identity token alone or beside a registry
  -- token; a header that needs no exchange is made of the credential; and no header is empty.
  pub acquire-IsHonest :
      (asked : Challenge) (scopes : List Bytes) (c : Credential)
      → let (sent, out) = acquire base64 realm_error decode endpoint asked scopes (inr c) in
        IsCarried c sent × IsOwn base64 c sent out × IsPresent out
  unfolding acquire acquire_with exchange identity_only is_empty basic_header bearer_header replied
      read_token
  acquire-IsHonest asked scopes c = ground (arith, bytes_eq_iff c.registry_token [])
