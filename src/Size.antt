-- ===== src/Size.antt =====
-- cli/size.go: the part-size grammar of the -part-size flag.
-- A text is the list of the code points that Go decodes from the string.
pub mod RoundTrip
use bigoci.Prelude.{
  ltb, leb, ◌==◌, if◌then◌else◌, Bytes, codes, ℤ, pos, negsuc, max_int64, ℕ, ◌+◌, ◌*◌, ◌/◌, ◌%◌,
  Bool, false, ◌&&◌, ◌||◌, Option, none, some, [], ◌∷◌, ◌++◌, map, bytes_eq,
}
use bigoci.Decimal.{format_int, is_digit, parse_uint}

-- const kib, mib and gib
abbrev pub kib : ℕ
kib = 1024

abbrev pub mib : ℕ
mib = 1048576

abbrev pub gib : ℕ
gib = 1073741824

-- The refusals of `parseSize` and `unitMultiplier`; `decimal_unit` carries the unit to write instead.
pub data SizeError : Type 0 where
  empty has_space has_fraction no_digits unknown_unit too_large not_positive : SizeError
  decimal_unit : ℕ → SizeError

pub data SizeResult : Type 0 where
  ok : ℕ → SizeResult
  err : SizeError → SizeResult

pub data UnitResult : Type 0 where
  factor : ℕ → UnitResult
  refused : SizeError → UnitResult

-- unicode.IsSpace
unfoldable pub is_space : ℕ → Bool
is_space c =
    leb 9 c && leb c 13
    || c == 32
    || c == 0x85
    || c == 0xa0
    || c == 0x1680
    || leb 0x2000 c && leb c 0x200a
    || c == 0x2028
    || c == 0x2029
    || c == 0x202f
    || c == 0x205f
    || c == 0x3000

unfoldable pub any : (ℕ → Bool) → Bytes → Bool
any p [] = false
any p (c ∷ s) = p c || any p s

-- unicode.ToLower, as far as it reaches ASCII: the capital letters, U+0130 and the Kelvin sign
unfoldable pub to_lower : ℕ → ℕ
to_lower c =
    if leb b'A' c && leb c b'Z'
    then c + 32
    else if c == 0x130
    then b'i'
    else if c == 0x212a
    then b'k'
    else c

-- `splitSize`: the leading digits and what follows them
unfoldable pub split_size : Bytes → Bytes × Bytes
split_size [] = ([], [])
split_size (c ∷ s) =
    let (digits, unit) = split_size s in if is_digit c then (c ∷ digits, unit) else ([], c ∷ s)

-- the switch of `unitMultiplier` on the lowered unit
unfoldable pub unit_named : Bytes → UnitResult
unit_named u =
    if bytes_eq u [] || bytes_eq u (codes "b")
    then factor 1
    else if bytes_eq u (codes "k") || bytes_eq u (codes "kib")
    then factor kib
    else if bytes_eq u (codes "m") || bytes_eq u (codes "mib")
    then factor mib
    else if bytes_eq u (codes "g") || bytes_eq u (codes "gib")
    then factor gib
    else if bytes_eq u (codes "kb")
    then refused (decimal_unit kib)
    else if bytes_eq u (codes "mb")
    then refused (decimal_unit mib)
    else if bytes_eq u (codes "gb")
    then refused (decimal_unit gib)
    else refused unknown_unit

unfoldable pub unit_multiplier : Bytes → UnitResult
unit_multiplier unit = unit_named (map to_lower unit)

-- behind the parse of the digits
unfoldable pub scaled : ℕ → Option ℕ → SizeResult
scaled multiplier none = err too_large
scaled multiplier (some count) =
    if count == 0
    then err not_positive
    else if ltb (max_int64 / multiplier) count
    then err too_large
    else ok (count * multiplier)

-- behind the unit
unfoldable pub with_unit : Bytes → UnitResult → SizeResult
with_unit digits (factor multiplier) = scaled multiplier (parse_uint max_int64 digits)
with_unit digits (refused e) = err e

-- behind the split
unfoldable pub parse_split : Bytes → Bytes → SizeResult
parse_split [] unit = err no_digits
parse_split (c ∷ digits) unit = with_unit (c ∷ digits) (unit_multiplier unit)

-- strings.ContainsAny(text, ".,")
abbrev pub is_fraction_mark : ℕ → Bool
is_fraction_mark c = c == b'.' || c == b','

unfoldable pub parse_size : Bytes → SizeResult
parse_size [] = err empty
parse_size (c ∷ s) =
    let text = c ∷ s in
    if any is_space text
    then err has_space
    else if any is_fraction_mark text
    then err has_fraction
    else parse_split (split_size text).0 (split_size text).1

-- `formatSize` on the int64 count
unfoldable pub format_size : ℤ → Bytes
format_size (negsuc n) = format_int (negsuc n) ++ codes "B"
format_size (pos n) =
    if leb gib n && n % gib == 0
    then format_int (pos (n / gib)) ++ codes "GiB"
    else if leb mib n && n % mib == 0
    then format_int (pos (n / mib)) ++ codes "MiB"
    else if leb kib n && n % kib == 0
    then format_int (pos (n / kib)) ++ codes "KiB"
    else format_int (pos n) ++ codes "B"
