-- ===== src/Challenge/Scanner.antt =====
-- The pieces of the scanner of challenge.go on the text that they read.
use bigoci.Prelude.{
  ◌==◌, if◌then◌else◌, ==_iff, Bool-cases, Bytes, All, ℕ, ◌≡◌, refl, ◌∙◌, ◌≢◌, inl, inr, Bool, true,
  false, not, ◌||◌, none, some, [], ◌∷◌, ◌++◌, append-nil, append_assoc, arith,
}
use bigoci.Challenge.{is_token_char, is_member, space, delims, equals, span, token, quoted, value}

-- A token of RFC 9110.
abbrev pub IsToken : Bytes → Type 0
IsToken s = (s ≢ []) × All (λ c. is_token_char c ≡ true) s

-- The text ends, or goes on with a byte that no token holds.
abbrev pub stops : Bytes → Bool
stops [] = true
stops (c ∷ s) = not (is_token_char c)

pub token_char_ne : (c d : ℕ) → is_token_char d ≡ false → is_token_char c ≡ true → (c == d) ≡ false
token_char_ne c d h k = elim (Bool-cases (c == d)) [
  | inl y ↦ let e : c ≡ d = (==_iff c d).0 y in cc
  | inr n ↦ n
]

span-token :
    (t r : Bytes) → All (λ c. is_token_char c ≡ true) t → stops r ≡ true → span (t ++ r) ≡ (t, r)
unfolding span
span-token [] [] h k = refl
span-token [] (c ∷ r) h k = let n : is_token_char c ≡ false = ground arith in rw n
span-token (c ∷ t) r (h, hs) k = rw (h, span-token t r hs k)

pub token-token : (t r : Bytes) → IsToken t → stops r ≡ true → token (t ++ r) ≡ some (t, r)
unfolding token
token-token [] r (ne, h) k = absurd (ne refl)
token-token (c ∷ t) r (ne, h) k = rw (span-token (c ∷ t) r h k)

blank_not_token :
    (is_token_char b' ' ≡ false)
    × (is_token_char b'\t' ≡ false)
    × (is_token_char b',' ≡ false)
    × (is_token_char b'=' ≡ false)
unfolding is_token_char is_member
blank_not_token = (refl, refl, refl, refl)

-- In front of a token there is nothing to skip.
pub delims-token : (t r : Bytes) → IsToken t → delims (t ++ r) ≡ t ++ r
unfolding delims
delims-token [] r (ne, h) = absurd (ne refl)
delims-token (c ∷ t) r (ne, (h, _)) =
    let (a, b, d, _) = blank_not_token in
    rw (token_char_ne c b' ' a h, token_char_ne c b'\t' b h, token_char_ne c b',' d h)

pub space-token : (t r : Bytes) → IsToken t → space (t ++ r) ≡ t ++ r
unfolding space
space-token [] r (ne, h) = absurd (ne refl)
space-token (c ∷ t) r (ne, (h, _)) =
    let (a, b, _, _) = blank_not_token in rw (token_char_ne c b' ' a h, token_char_ne c b'\t' b h)

-- A token behind one blank is no equals sign.
pub equals_blank : (t r : Bytes) → IsToken t → equals (b' ' ∷ (t ++ r)) ≡ none
unfolding equals
equals_blank [] r (ne, h) = absurd (ne refl)
equals_blank (c ∷ t) r (ne, (h, hs)) =
    let (_, _, _, e) = blank_not_token in
    let s : space (b' ' ∷ ((c ∷ t) ++ r)) ≡ (c ∷ t) ++ r =
      unfold space in space-token (c ∷ t) r (ne, (h, hs)) in
    rw (s, token_char_ne c b'=' e h)

-- Writing a quoted string: the quote and the backslash are escaped.
abbrev pub escape : Bytes → Bytes
escape [] = []
escape (c ∷ s) = if c == b'"' || c == b'\\' then b'\\' ∷ c ∷ escape s else c ∷ escape s

abbrev pub quote : Bytes → Bytes → Bytes
quote s rest = b'"' ∷ (escape s ++ (b'"' ∷ rest))

quoted_end : (out rest : Bytes) → quoted out (b'"' ∷ rest) ≡ (some out, rest)
unfolding quoted
quoted_end out [] = refl
quoted_end out (c ∷ rest) = refl

quoted_plain :
    (c : ℕ) (out x : Bytes)
    → x ≢ []
    → (c == b'"' || c == b'\\') ≡ false
    → quoted out (c ∷ x) ≡ quoted (out ++ c ∷ []) x
unfolding quoted
quoted_plain c out [] ne h = absurd (ne refl)
quoted_plain c out (d ∷ x) ne h =
    let q : (c == b'"') ≡ false = ground arith in
    let b : (c == b'\\') ≡ false = ground arith in rw (q, b)

quoted_escaped : (c : ℕ) (out x : Bytes) → quoted out (b'\\' ∷ c ∷ x) ≡ quoted (out ++ c ∷ []) x
unfolding quoted
quoted_escaped c out x = refl

escape_ne : (s rest : Bytes) → escape s ++ (b'"' ∷ rest) ≢ []
escape_ne [] rest = λ e. ground arith
escape_ne (c ∷ s) rest = elim (Bool-cases (c == b'"' || c == b'\\')) [
  | inl y ↦ rw y (λ e. ground arith)
  | inr n ↦ rw n (λ e. ground arith)
]

quoted-escape :
    (s out rest : Bytes) → quoted out (escape s ++ (b'"' ∷ rest)) ≡ (some (out ++ s), rest)
quoted-escape [] out rest = rw append-nil (quoted_end out rest)
quoted-escape (c ∷ s) out rest = elim (Bool-cases (c == b'"' || c == b'\\')) [
  | inl y ↦ rw y (quoted_escaped c out _ ∙ quoted-escape s (out ++ c ∷ []) rest ∙ rw append_assoc)
  | inr n ↦ rw n (
      quoted_plain c out _ (escape_ne s rest) n
      ∙ quoted-escape s (out ++ c ∷ []) rest
      ∙ rw append_assoc)
]

-- A quoted string reads back as what it quotes, whatever bytes it holds and whatever follows.
pub value-quote : (s rest : Bytes) → value (quote s rest) ≡ (some s, rest)
unfolding value
value-quote s rest = quoted-escape s [] rest

pub equals-quote : (s rest : Bytes) → equals (b'=' ∷ quote s rest) ≡ some (quote s rest)
unfolding equals space
equals-quote s rest = refl
