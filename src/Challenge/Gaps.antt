-- ===== src/Challenge/Gaps.antt =====
-- What stands between the tokens of a WWW-Authenticate header is skipped, and ends them.
use bigoci.Prelude.{
  ◌==◌, Bool-cases, Bytes, All, ℕ, ◌≡◌, refl, ◌∙◌, inl, inr, true, false, ◌||◌, none, [], ◌∷◌, ◌++◌,
  arith, Bool-cases,
}
use bigoci.Challenge.{is_token_char, is_member, delims, equals, space}
use bigoci.Challenge.Written.{is_separator, IsGap}
use bigoci.Challenge.Scanner.{IsToken, stops, token_char_ne, space-token}

pub gap_skipped : (g s : Bytes) → All (λ c. is_separator c ≡ true) g → delims (g ++ s) ≡ delims s
unfolding delims
gap_skipped [] s h = refl
gap_skipped (c ∷ g) s (h, k) = rw h (gap_skipped g s k)

separator_no_token : (c : ℕ) → is_separator c ≡ true → is_token_char c ≡ false
separator_no_token c h = elim (Bool-cases (is_token_char c)) [
  | inl y ↦
      let blank = token_char_ne c b' ' (unfold is_token_char is_member in refl) y in
      let tab = token_char_ne c b'\t' (unfold is_token_char is_member in refl) y in
      let comma = token_char_ne c b',' (unfold is_token_char is_member in refl) y in
      absurd (ground (arith, blank, tab, comma))
  | inr n ↦ n
]

pub gap_stops : (g s : Bytes) → IsGap g → stops (g ++ s) ≡ true
gap_stops [] s (ne, h) = absurd (ne refl)
gap_stops (c ∷ g) s (ne, (h, k)) = rw (separator_no_token c h) refl

equals_token : (t r : Bytes) → IsToken t → equals (t ++ r) ≡ none
unfolding equals
equals_token [] r (ne, h) = absurd (ne refl)
equals_token (c ∷ t) r (ne, (h, hs)) =
    let sign = token_char_ne c b'=' (unfold is_token_char is_member in refl) h in
    rw (space-token (c ∷ t) r (ne, (h, hs)), sign) refl

equals_skipped : (c : ℕ) (s : Bytes) → (c == b' ' || c == b'\t') ≡ true → equals (c ∷ s) ≡ equals s
unfolding equals space
equals_skipped c s h = rw h refl

equals_comma :
    (c : ℕ) (s : Bytes)
    → is_separator c ≡ true
    → (c == b' ' || c == b'\t') ≡ false
    → equals (c ∷ s) ≡ none
unfolding equals space
equals_comma c s h n = let sign : (c == b'=') ≡ false = ground arith in rw (n, sign) refl

-- A token behind a gap is no equals sign.
pub equals_gap :
    (g t r : Bytes) → All (λ c. is_separator c ≡ true) g → IsToken t → equals (g ++ (t ++ r)) ≡ none
equals_gap [] t r h k = equals_token t r k
equals_gap (c ∷ g) t r (h, hs) k = elim (Bool-cases (c == b' ' || c == b'\t')) [
  | inl y ↦ equals_skipped c _ y ∙ equals_gap g t r hs k
  | inr n ↦ equals_comma c _ h n
]
