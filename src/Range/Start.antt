-- ===== src/Range/Start.antt =====
-- Which answers to a range request are accepted, and as what.
use bigoci.Prelude.{
  ◌==◌, Option-cases, Bytes, codes, All, ℤ, pos, ◌==ℤ◌, max_int64, ℕ, ◌≤◌, ◌<◌, ◌≡◌, refl, ap, ◌∙◌,
  ◌⊎◌, inl, inr, true, false, none, some, [], ◌∷◌, ◌++◌, arith, ==ℤ_iff,
}
use bigoci.Text.{strip_prefix}
use bigoci.Decimal.{format_nat, is_digit}
use bigoci.Decimal.RoundTrip.{format_nat_digits, parse_int-format_nat}
use bigoci.Range.{
  Ranged, before_hyphen, range_start, check_range_start, ranged_start, blob_read_start,
}

before_hyphen-digits :
    (s rest : Bytes) → All (λ c. is_digit c ≡ true) s → before_hyphen (s ++ b'-' ∷ rest) ≡ some s
unfolding before_hyphen
before_hyphen-digits [] rest h = refl
before_hyphen-digits (c ∷ s) rest (h, hs) =
    let plain : (c == b'-') ≡ false = ground (arith, h) in
    rw (plain, before_hyphen-digits s rest hs) refl

range_start-format_nat :
    (n : ℕ) (rest : Bytes)
    → n ≤ max_int64
    → range_start (codes "bytes " ++ format_nat n ++ b'-' ∷ rest) ≡ some (pos n)
unfolding range_start strip_prefix
range_start-format_nat n rest h =
    rw (before_hyphen-digits (format_nat n) rest (format_nat_digits n)) (parse_int-format_nat n h)

-- The start of an accepted body: zero for the whole blob, or the offset that was asked for.
abbrev pub Starts : Ranged → ℤ → ℤ → Type 0
Starts resp off n =
    ((resp.status ≡ 200) × (n ≡ pos 0))
    ⊎ ((resp.status ≡ 206) × (n ≡ off) × (range_start resp.content_range ≡ some off))

check_range_start-none :
    (resp : Ranged) (off : ℤ)
    → check_range_start resp off ≡ none
    → range_start resp.content_range ≡ some off
unfolding check_range_start
check_range_start-none resp off h = elim (Option-cases (range_start resp.content_range)) [
  | inl missing ↦ absurd (ground (arith, h, missing))
  | inr (first, e) ↦ e ∙ ap some ((==ℤ_iff first off).0 (ground (arith, h, e)))
]

-- `blobReadStart` accepts a response as starting at `n` only where it is a 200, and `n` is zero, or
-- a 206 whose Content-Range begins at the offset asked for, which is `n`. So the pull never gets a
-- stream that it cannot place.
pub blob_read_start-Starts :
    (resp : Ranged) (off n : ℤ) → blob_read_start resp off ≡ inr n → Starts resp off n
unfolding blob_read_start ranged_start
blob_read_start-Starts resp off n h =
    ground (arith, h, ==ℤ_iff off (pos 0), check_range_start-none resp off)

-- A 206 whose Content-Range begins with the positive int64 offset asked for, whatever follows the
-- hyphen, is accepted as starting there.
blob_read_start-range :
    (n : ℕ) (rest : Bytes)
    → 0 < n
    → n ≤ max_int64
    → blob_read_start
        (record { status = 206; content_range = codes "bytes " ++ format_nat n ++ b'-' ∷ rest })
        (pos n)
      ≡ inr (pos n)
unfolding blob_read_start ranged_start check_range_start
blob_read_start-range n rest h k =
    let later : (pos n ==ℤ pos 0) ≡ false = ground (arith, h) in
    let same : (pos n ==ℤ pos n) ≡ true = (==ℤ_iff (pos n) (pos n)).1 refl in
    ground (arith, later, same, range_start-format_nat n rest k)
