-- ===== src/Decimal.antt =====
-- Go's strconv on base-10 numbers, as cli/size.go and internal/manifest use it: a parse failure is
-- `none`, whatever its kind.
pub mod RoundTrip
use bigoci.Prelude.{
  ltb, leb, ◌==◌, if◌then◌else◌, Bytes, ℤ, pos, negsuc, max_int64, ℕ, zero, suc, ◌+◌, ◌-◌, ◌*◌, ◌/◌,
  ◌%◌, Bool, not, ◌&&◌, ◌||◌, Option, none, some, [], ◌∷◌,
}

-- the digits of `n` in front of `out`; the fuel is a bound on their number
unfoldable pub emit : ℕ → ℕ → Bytes → Bytes
emit zero n out = out
emit (suc fuel) n out =
    let out' = (b'0' + n % 10) ∷ out in
    let more = emit fuel (n / 10) out' in if ltb n 10 then out' else more

-- an int64 has at most 19 digits
unfoldable pub format_nat : ℕ → Bytes
format_nat n = emit 19 n []

-- `strconv.FormatInt(n, 10)`
unfoldable pub format_int : ℤ → Bytes
format_int (pos n) = format_nat n
format_int (negsuc n) = b'-' ∷ format_nat (suc n)

abbrev pub is_digit : ℕ → Bool
is_digit c = leb b'0' c && leb c b'9'

unfoldable pub scan : ℕ → ℕ → Bytes → Option ℕ
scan limit n [] = some n
scan limit n (c ∷ s) =
    let n' = n * 10 + (c - b'0') in
    let rest = scan limit n' s in if not (is_digit c) || ltb limit n' then none else rest

-- `strconv.ParseUint(s, 10, bits)` with the largest value of that many bits
unfoldable pub parse_uint : ℕ → Bytes → Option ℕ
parse_uint limit [] = none
parse_uint limit (c ∷ s) = scan limit 0 (c ∷ s)

abbrev pub to_pos : Option ℕ → Option ℤ
to_pos none = none
to_pos (some n) = some (pos n)

abbrev pub to_neg : Option ℕ → Option ℤ
to_neg none = none
to_neg (some zero) = some (pos 0)
to_neg (some (suc n)) = some (negsuc n)

-- `strconv.ParseInt(s, 10, 64)`
unfoldable pub parse_int : Bytes → Option ℤ
parse_int [] = none
parse_int (c ∷ s) =
    if c == b'-'
    then to_neg (parse_uint (max_int64 + 1) s)
    else if c == b'+'
    then to_pos (parse_uint max_int64 s)
    else to_pos (parse_uint max_int64 (c ∷ s))
