-- ===== src/Size/RoundTrip.antt =====
-- Parsing what cli/size.go prints, and any spelling of a unit.
use bigoci.Prelude.{
  leb, ◌==◌, le→ltb_false, Bool-cases, Bytes, codes, All, pos, max_int64, ℕ, ◌*◌, ◌/◌, ◌%◌, ◌≤◌,
  ◌<◌, ◌≡◌, refl, ap, ◌∙◌, inl, inr, Bool, true, false, not, ◌&&◌, some, [], ◌∷◌, ◌++◌, arith,
  dec_lt, bytes_eq,
}
use bigoci.Decimal.{format_nat, format_int, is_digit}
use bigoci.Decimal.RoundTrip.{format_nat_cons, format_nat_digits, parse_uint-format_nat}
use native.Mathlib.Nat.{div-lt_iff_lt-mul, div-add-mod'}
use bigoci.Size.{
  ok, factor, kib, mib, gib, is_space, any, split_size, unit_multiplier, unit_named, to_lower,
  scaled, with_unit, parse_split, is_fraction_mark, parse_size, format_size,
}

abbrev Digits : Bytes → Type 0
Digits = All (λ c. is_digit c ≡ true)

-- A unit holds no digit in front, no space and no fraction mark.
abbrev pub is_clean : Bytes → Bool
is_clean u = not (any is_space u) && not (any is_fraction_mark u)

abbrev pub starts_with_digit : Bytes → Bool
starts_with_digit [] = false
starts_with_digit (c ∷ s) = is_digit c

digit_plain : (c : ℕ) → is_digit c ≡ true → (is_space c ≡ false) × (is_fraction_mark c ≡ false)
unfolding is_space
digit_plain c h = ground arith

any-Digits :
    (p : ℕ → Bool) (s u : Bytes)
    → ((c : ℕ) → is_digit c ≡ true → p c ≡ false)
    → Digits s
    → any p (s ++ u) ≡ any p u
unfolding any
any-Digits p [] u f h = refl
any-Digits p (c ∷ s) u f (d, h) = rw (f c d) (any-Digits p s u f h)

split_size-Digits :
    (s u : Bytes) → Digits s → starts_with_digit u ≡ false → split_size (s ++ u) ≡ (s, u)
unfolding split_size
split_size-Digits [] [] h k = refl
split_size-Digits [] (c ∷ u) h k = rw k
split_size-Digits (c ∷ s) u (d, h) k = rw (d, split_size-Digits s u h k)

parse_clean :
    (c : ℕ) (s u : Bytes)
    → Digits (c ∷ s)
    → is_clean u ≡ true
    → starts_with_digit u ≡ false
    → parse_size ((c ∷ s) ++ u) ≡ with_unit (c ∷ s) (unit_multiplier u)
unfolding parse_size
parse_clean c s u h clean lead =
    rw
      (
        any-Digits is_space (c ∷ s) u (λ d k. (digit_plain d k).0) h,
        any-Digits is_fraction_mark (c ∷ s) u (λ d k. (digit_plain d k).1) h,
        clean_space,
        clean_mark,
        split_size-Digits (c ∷ s) u h lead,
      )
      (unfold parse_split in refl)
  where
    clean_space : any is_space u ≡ false
    clean_space = ground arith

    clean_mark : any is_fraction_mark u ≡ false
    clean_mark = ground arith

scaled_fits : (n m : ℕ) → 0 < n → 0 < m → n * m ≤ max_int64 → scaled m (some n) ≡ ok (n * m)
unfolding scaled
scaled_fits n m pn pm fits =
    let positive : (n == 0) ≡ false = ground arith in
    let room : ¬ (max_int64 / m < n) = λ l. absurd (omega (arith, (div-lt_iff_lt-mul pm).0 l)) in
    rw (positive, le→ltb_false (max_int64 / m) n (omega arith))

factor_le : (n m : ℕ) → 0 < m → n * m ≤ max_int64 → n ≤ max_int64
factor_le n m h k = grind arith

-- A count, printed and followed by any unit that unitMultiplier gives a factor, in any spelling,
-- parses to the count times the factor, if that is positive and at most 2 ^ 63 - 1.
pub parse_size-units :
    (n m : ℕ) (unit : Bytes)
    → 0 < n
    → 0 < m
    → n * m ≤ max_int64
    → is_clean unit ≡ true
    → starts_with_digit unit ≡ false
    → unit_multiplier unit ≡ factor m
    → parse_size (format_nat n ++ unit) ≡ ok (n * m)
parse_size-units n m unit pn pm fits clean lead e =
    let (d, s, cut) = format_nat_cons n in
    let small : n ≤ max_int64 = factor_le n m pm fits in
    rw cut (
      parse_clean d s unit (rw cut at (format_nat_digits n)) clean lead
      ∙ rw (← cut, e)
          (unfold with_unit in
            rw (parse_uint-format_nat max_int64 n small (omega arith))
              (scaled_fits n m pn pm fits)))

exact : (n m : ℕ) → (n % m == 0) ≡ true → n / m * m ≡ n
exact n m h = grind (arith, div-add-mod' n m)

whole_pos : (n m : ℕ) → n / m * m ≡ n → m ≤ n → 0 < m → 0 < n / m
whole_pos n m e h k = elim (dec_lt 0 (n / m)) [
  | yes l ↦ l
  | no z ↦ let zero_times : n / m ≡ 0 = omega arith in absurd (omega (arith, rw zero_times at e))
]

unit_case :
    (n m : ℕ) (unit : Bytes)
    → 0 < m
    → n ≤ max_int64
    → (leb m n && n % m == 0) ≡ true
    → is_clean unit ≡ true
    → starts_with_digit unit ≡ false
    → unit_multiplier unit ≡ factor m
    → parse_size (format_nat (n / m) ++ unit) ≡ ok n
unit_case n m unit pm fits h clean lead e =
    let even : n / m * m ≡ n = exact n m (ground arith) in
    let whole : 0 < n / m = whole_pos n m even (ground arith) pm in
    parse_size-units (n / m) m unit whole pm (omega (arith, even)) clean lead e ∙ ap ok even

clean_gib : is_clean (codes "GiB") ≡ true
unfolding any is_space
clean_gib = refl

named_gib : unit_multiplier (codes "GiB") ≡ factor gib
unfolding unit_multiplier unit_named to_lower bytes_eq
named_gib = refl

clean_mib : is_clean (codes "MiB") ≡ true
unfolding any is_space
clean_mib = refl

named_mib : unit_multiplier (codes "MiB") ≡ factor mib
unfolding unit_multiplier unit_named to_lower bytes_eq
named_mib = refl

clean_kib : is_clean (codes "KiB") ≡ true
unfolding any is_space
clean_kib = refl

named_kib : unit_multiplier (codes "KiB") ≡ factor kib
unfolding unit_multiplier unit_named to_lower bytes_eq
named_kib = refl

clean_b : is_clean (codes "B") ≡ true
unfolding any is_space
clean_b = refl

named_b : unit_multiplier (codes "B") ≡ factor 1
unfolding unit_multiplier unit_named to_lower bytes_eq
named_b = refl

bytes_case : (n : ℕ) → 0 < n → n ≤ max_int64 → parse_size (format_nat n ++ codes "B") ≡ ok n
bytes_case n h k =
    parse_size-units n 1 (codes "B") h (omega arith) (omega arith) clean_b refl named_b
    ∙ ap ok (omega arith)

-- Every positive part size that formatSize prints parses back to the same part size.
parse_size-format_size : (n : ℕ) → 0 < n → n ≤ max_int64 → parse_size (format_size (pos n)) ≡ ok n
unfolding format_size format_int
parse_size-format_size n h k = elim (Bool-cases (leb gib n && n % gib == 0)) [
  | inl g ↦ rw g (unit_case n gib (codes "GiB") (omega arith) k g clean_gib refl named_gib)
  | inr g' ↦ rw g' (elim (Bool-cases (leb mib n && n % mib == 0)) [
    | inl m ↦ rw m (unit_case n mib (codes "MiB") (omega arith) k m clean_mib refl named_mib)
    | inr m' ↦ rw m' (elim (Bool-cases (leb kib n && n % kib == 0)) [
      | inl b ↦ rw b (unit_case n kib (codes "KiB") (omega arith) k b clean_kib refl named_kib)
      | inr b' ↦ rw b' (bytes_case n h k)
    ])
  ])
]
