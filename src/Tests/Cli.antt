-- ===== src/Tests/Cli.antt =====
-- cli/size.go and strconv on short texts.
use bigoci.Prelude.{Bytes, ◌*◌, ◌≡◌, refl, true, false, [], ◌∷◌, ◌++◌, arith, bytes_eq}
use bigoci.Decimal.{format_nat}
use bigoci.Size.{parse_size, unit_multiplier, unit_named, to_lower, factor, kib, ok, any, is_space}
use bigoci.Size.RoundTrip.{is_clean, starts_with_digit, parse_size-units}

-- The Kelvin sign alone names the kibibyte, since its lower case is k.
abbrev kelvin : Bytes
kelvin = 0x212a ∷ []

kelvin_clean : is_clean kelvin ≡ true
unfolding any is_space
kelvin_clean = refl

kelvin_lead : starts_with_digit kelvin ≡ false
kelvin_lead = refl

kelvin_unit : unit_multiplier kelvin ≡ factor kib
unfolding unit_multiplier unit_named to_lower bytes_eq
kelvin_unit = refl

parse_size-units_example : parse_size (format_nat 512 ++ kelvin) ≡ ok (512 * kib)
parse_size-units_example =
    parse_size-units 512 kib kelvin (omega arith) (omega arith) (omega arith) kelvin_clean
      kelvin_lead kelvin_unit
