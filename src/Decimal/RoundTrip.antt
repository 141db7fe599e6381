-- ===== src/Decimal/RoundTrip.antt =====
-- Reading back a printed number.
use bigoci.Prelude.{
  ltb, ◌==◌, ltb→lt, le→ltb_false, Bool-cases, Bytes, All, ℤ, pos, negsuc, ◌≤ℤ◌, max_int64, ℕ, zero,
  suc, ◌+◌, ◌-◌, ◌*◌, ◌/◌, ◌%◌, ◌^◌, ◌≤◌, ◌<◌, ◌≡◌, refl, ◌∙◌, inl, inr, true, false, some, [], ◌∷◌,
  arith,
}
use bigoci.Decimal.{emit, format_nat, format_int, is_digit, scan, parse_uint, parse_int}
use native.Mathlib.Nat.{pow-suc}

-- One digit read.
scan_digit :
    (limit n d : ℕ) (s : Bytes)
    → d < 10
    → n * 10 + d ≤ limit
    → scan limit n ((b'0' + d) ∷ s) ≡ scan limit (n * 10 + d) s
unfolding scan
scan_digit limit n d s h k =
    let e : b'0' + d - b'0' ≡ d = omega arith in
    let digit : is_digit (b'0' + d) ≡ true = ground arith in
    rw (e, digit, le→ltb_false limit (n * 10 + d) k)

scan-emit :
    (fuel limit n : ℕ) (out : Bytes)
    → n < 10 ^ fuel
    → n ≤ limit
    → scan limit 0 (emit fuel n out) ≡ scan limit n out
unfolding emit
scan-emit zero limit n out h k = let e : n ≡ 0 = omega arith in rw e
scan-emit (suc fuel) limit n out h k = elim (Bool-cases (ltb n 10)) [
  | inl small ↦
      let e : n % 10 ≡ n = ground arith in
      let e' : 0 * 10 + n ≡ n = omega arith in
      rw (small, e) (scan_digit limit 0 n out (ltb→lt n 10 small) (omega arith) ∙ rw e')
  | inr big ↦
      let e : n / 10 * 10 + n % 10 ≡ n = omega arith in
      let fits : n / 10 < 10 ^ fuel = omega (arith, pow-suc 10 fuel) in
      rw big (
        scan-emit fuel limit (n / 10) _ fits (omega arith)
        ∙ scan_digit limit (n / 10) (n % 10) out (omega arith) (omega arith)
        ∙ rw e)
]

-- A printed number is not empty, and holds digits only.
pub emit_digits :
    (fuel n : ℕ) (out : Bytes)
    → All (λ c. is_digit c ≡ true) out
    → All (λ c. is_digit c ≡ true) (emit fuel n out)
unfolding emit
emit_digits zero n out h = h
emit_digits (suc fuel) n out h =
    let digit : is_digit (b'0' + n % 10) ≡ true = ground arith in
    elim (Bool-cases (ltb n 10)) [
      | inl small ↦ rw small (digit, h)
      | inr big ↦ rw big (emit_digits fuel (n / 10) _ (digit, h))
    ]

emit_cons : (fuel n c : ℕ) (out : Bytes) → (d : ℕ) × (s : Bytes) × (emit fuel n (c ∷ out) ≡ d ∷ s)
unfolding emit
emit_cons zero n c out = (c, out, refl)
emit_cons (suc fuel) n c out = elim (Bool-cases (ltb n 10)) [
  | inl small ↦ (b'0' + n % 10, c ∷ out, rw small)
  | inr big ↦ rw big (emit_cons fuel (n / 10) _ _)
]

pub format_nat_cons : (n : ℕ) → (d : ℕ) × (s : Bytes) × (format_nat n ≡ d ∷ s)
unfolding format_nat emit
format_nat_cons n = elim (Bool-cases (ltb n 10)) [
  | inl small ↦ (b'0' + n % 10, [], rw small)
  | inr big ↦ rw big (emit_cons 18 (n / 10) _ _)
]

pub format_nat_digits : (n : ℕ) → All (λ c. is_digit c ≡ true) (format_nat n)
unfolding format_nat
format_nat_digits n = emit_digits 19 n [] tt

pub parse_uint-format_nat :
    (limit n : ℕ) → n ≤ limit → n < 10 ^ 19 → parse_uint limit (format_nat n) ≡ some n
parse_uint-format_nat limit n h k =
    let (d, s, e) = format_nat_cons n in
    rw e (unfold parse_uint in rw (← e) (unfold format_nat scan in scan-emit 19 limit n [] k h))

minus_or_plus : (c : ℕ) → is_digit c ≡ true → ((c == b'-') ≡ false) × ((c == b'+') ≡ false)
minus_or_plus c h = ground arith

pub parse_int-format_nat : (n : ℕ) → n ≤ max_int64 → parse_int (format_nat n) ≡ some (pos n)
parse_int-format_nat n h =
    let (d, s, e) = format_nat_cons n in
    let digit : is_digit d ≡ true = (rw e at (format_nat_digits n)).0 in
    let (m, p) = minus_or_plus d digit in
    rw e (unfold parse_int in rw (m, p, ← e, parse_uint-format_nat max_int64 n h (omega arith)))

-- A printed int64 reads back as itself, whatever its sign.
pub parse_int-format_int :
    (z : ℤ) → negsuc max_int64 ≤ℤ z → z ≤ℤ pos max_int64 → parse_int (format_int z) ≡ some z
unfolding format_int
parse_int-format_int (pos n) low high = parse_int-format_nat n (omega arith)
parse_int-format_int (negsuc n) low high =
    unfold parse_int in
    rw (parse_uint-format_nat (max_int64 + 1) (suc n) (omega arith) (omega arith))
