-- ===== src/Range.antt =====
-- internal/oci/blobs.go: where the body of a blob response starts.
pub mod Start
use bigoci.Prelude.{
  ◌==◌, if◌then◌else◌, Bytes, codes, ℤ, pos, ◌==ℤ◌, ℕ, ◌-◌, ◌⊎◌, inl, inr, Bool, Option, none, some,
  [], ◌∷◌, ◌++◌,
}
use bigoci.Text.{strip_prefix}
use bigoci.Decimal.{format_int, parse_int}
use bigoci.Redirect.{transient_status}

-- A response by its status and its Content-Range header, which is empty where there is none.
pub record Ranged : Type 0 where
  pub status : ℕ
  pub content_range : Bytes

-- A status error, by the status and whether another attempt may help, or a 206 for another range.
pub data RangeError : Type 0 where
  status_error : ℕ → Bool → RangeError
  unusable_range elsewhere : RangeError

-- `statusErrorAt`, without the texts
abbrev pub status_error_at : Ranged → RangeError
status_error_at resp = status_error resp.status (transient_status resp.status)

unfoldable pub range_from : ℤ → Bytes
range_from offset = codes "bytes=" ++ format_int offset ++ codes "-"

-- strings.Cut at the first hyphen; `none` where there is none
unfoldable pub before_hyphen : Bytes → Option Bytes
before_hyphen [] = none
before_hyphen (c ∷ s) =
    let rest = before_hyphen s in
    if c == b'-' then some [] else (elim rest [ none ↦ none | some t ↦ some (c ∷ t) ])

abbrev parse_first : Option Bytes → Option ℤ
parse_first none = none
parse_first (some first) = parse_int first

abbrev cut_first : Option Bytes → Option ℤ
cut_first none = none
cut_first (some rest) = parse_first (before_hyphen rest)

unfoldable pub range_start : Bytes → Option ℤ
range_start value = cut_first (strip_prefix (codes "bytes ") value)

-- nil is `none`
unfoldable pub check_range_start : Ranged → ℤ → Option RangeError
check_range_start resp offset = elim (range_start resp.content_range) [
  | none ↦ some unusable_range
  | some first ↦ if first ==ℤ offset then none else some elsewhere
]

-- the switch of `blobReadStart`
unfoldable pub ranged_start : Ranged → ℤ → RangeError ⊎ ℤ
ranged_start resp off =
    if resp.status == 206
    then elim (check_range_start resp off) [ some e ↦ inl e | none ↦ inr off ]
    else if resp.status == 200
    then inr (pos 0)
    else inl (status_error_at resp)

unfoldable pub blob_read_start : Ranged → ℤ → RangeError ⊎ ℤ
blob_read_start resp off =
    if resp.status == 404
    then inl (status_error_at resp)
    else if off ==ℤ pos 0
    then (if resp.status == 200 then inr (pos 0) else inl (status_error_at resp))
    else ranged_start resp off
