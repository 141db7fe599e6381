-- ===== src/Auth/Expiry.antt =====
-- How long a token of internal/oci/token.go is presented.
use bigoci.Prelude.{
  ltb, mul64, pos, max_int64, sub64_small, mul64_small, ℕ, ◌-◌, ◌*◌, ◌/◌, ◌≤◌, ◌<◌, min, ◌≡◌, refl,
  ◌∙◌, true, arith,
}
use bigoci.Redirect.Session.{second, max_retry_after_seconds}
use bigoci.Auth.{Entry, usable, margin_for}
use bigoci.Auth.Exchange.{lifetime_of}

lifetime_fits :
    (n : ℕ) → 0 < n → n ≤ max_retry_after_seconds → lifetime_of (pos n) ≡ pos (n * second)
unfolding lifetime_of
lifetime_fits n h g =
    let product : mul64 (pos n) (pos second) ≡ pos (n * second) =
      mul64_small n second (omega arith) (omega arith) (omega arith) in
    ground (arith, product)

-- A token that the endpoint says is good for a positive number of seconds, at most 9223372036, is
-- presented exactly until half of that time is left, or thirty seconds where these are fewer. The
-- clock readings are int64 and the token was acquired before the reading.
pub usable-lifetime_of :
    (e : Entry) (n now : ℕ)
    → 0 < n
    → n ≤ max_retry_after_seconds
    → e.lifetime ≡ lifetime_of (pos n)
    → e.acquired ≤ now
    → now ≤ max_int64
    → usable now e ≡ ltb (now - e.acquired) (n * second - min (n * second / 2) 30000000000)
unfolding usable margin_for
usable-lifetime_of e n now h g l a b =
    let life : e.lifetime ≡ pos (n * second) = l ∙ lifetime_fits n h g in
    rw life (
      ground (
        arith,
        sub64_small now e.acquired a b,
        sub64_small (n * second) (min (n * second / 2) 30000000000),
      ))

-- An answer that promises a positive multiple of 2^55 seconds gives a lifetime of zero, since the
-- product of int64 wraps, and the token is then presented forever.
pub usable_wrapped :
    (e : Entry) (k now : ℕ)
    → 0 < k
    → k * 36028797018963968 ≤ max_int64
    → e.lifetime ≡ lifetime_of (pos (k * 36028797018963968))
    → usable now e ≡ true
unfolding usable lifetime_of mul64
usable_wrapped e k now h g l = let life : e.lifetime ≡ pos 0 = l ∙ ground arith in rw life refl
