-- ===== src/Redirect/Session.antt =====
-- internal/oci/redirect.go: the upload locations that `checkSession` refuses, and
-- internal/oci/classify.go: the wait that a response asks for.
use bigoci.Prelude.{
  ltb, if◌then◌else◌, Bytes, codes, mul64, ℤ, pos, ltb_ℤ, leb_ℤ, max_int64, mul64_small, ℕ, ◌*◌,
  ◌≤◌, ◌≡◌, refl, ◌⊎◌, inl, inr, Bool, true, false, not, ◌&&◌, ◌||◌, Option, none, some, [], arith,
  bytes_eq,
}
use bigoci.Decimal.{parse_int, format_nat}
use bigoci.Decimal.RoundTrip.{parse_int-format_nat, format_nat_cons}
use bigoci.Redirect.{Url, target, redirect_target}

pub data SessionError : Type 0 where
  not_http no_host downgrade has_userinfo restricted_address : SessionError

-- `checkSession`, with the answer of `restrictedIPTarget` for the host
unfoldable pub check_session : Bytes → Bool → Url → Option SessionError
check_session scheme restricted u =
    if not (bytes_eq u.scheme (codes "https")) && not (bytes_eq u.scheme (codes "http"))
    then some not_http
    else if bytes_eq u.host []
    then some no_host
    else if bytes_eq u.scheme (codes "http") && bytes_eq scheme (codes "https")
    then some downgrade
    else if u.has_user
    then some has_userinfo
    else if restricted
    then some restricted_address
    else none

abbrev pub is_accepted {ℓ κ} : {A : Type ℓ} {B : Type κ} → A ⊎ B → Bool
is_accepted (inl e) = false
is_accepted (inr a) = true

abbrev pub is_clear {ℓ} : {A : Type ℓ} → Option A → Bool
is_clear none = true
is_clear (some e) = false

-- `checkSession` accepts an upload location exactly where a redirect to it would be followed and
-- its host is no restricted address.
check_session-redirect_target :
    (scheme : Bytes) (restricted : Bool) (u : Url)
    → is_clear (check_session scheme restricted u)
      ≡ (is_accepted (redirect_target scheme (target u)) && not restricted)
unfolding check_session redirect_target
check_session-redirect_target scheme restricted u = ground arith

-- const maxRetryAfterSeconds, and a second as a time.Duration
abbrev pub second : ℕ
second = 1000000000

abbrev pub max_retry_after_seconds : ℕ
max_retry_after_seconds = 9223372036

-- `retryAfter` on the header's value, with the wait until the HTTP date that the value is, if it is
-- one
unfoldable pub retry_after : (Bytes → Option ℤ) → Bytes → ℤ
retry_after until value = if bytes_eq value [] then pos 0 else elim (parse_int value) [
  | some seconds ↦
      if leb_ℤ seconds (pos 0) || ltb_ℤ (pos max_retry_after_seconds) seconds
      then pos 0
      else mul64 seconds (pos second)
  | none ↦ elim (until value) [
    | none ↦ pos 0
    | some wait ↦ if leb_ℤ wait (pos 0) then pos 0 else wait
  ]
]

some_digits : (n : ℕ) → bytes_eq (format_nat n) [] ≡ false
unfolding bytes_eq
some_digits n = let (d, s, e) = format_nat_cons n in rw e refl

product_fits : (n : ℕ) → n ≤ max_retry_after_seconds → n * second ≤ max_int64
product_fits n h = omega arith

-- The decimal form of a count of seconds that an int64 holds asks for that many seconds, as long as
-- an int64 holds them in nanoseconds (up to 9223372036), and for nothing above that; the product
-- never overflows.
pub retry_after-format_nat :
    (until : Bytes → Option ℤ) (n : ℕ)
    → n ≤ max_int64
    → retry_after until (format_nat n)
      ≡ pos (if ltb max_retry_after_seconds n then 0 else n * second)
unfolding retry_after
retry_after-format_nat until n h =
    rw (some_digits n, parse_int-format_nat n h)
      (ground (arith, mul64_small n second, product_fits n))
