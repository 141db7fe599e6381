-- ===== src/Challenge/Render.antt =====
-- Reading a WWW-Authenticate header that is written by the grammar of RFC 9110.
use mathlib.Core.List.{reverse, reverse-append}
use bigoci.Prelude.{
  Bytes, length, All, ℕ, suc, ◌+◌, ◌<◌, ◌≡◌, refl, sym, ap, ◌∙◌, true, Option, none, some, List, [],
  ◌∷◌, ◌++◌, map, append-nil, append_assoc, arith, sym, append-nil, append_assoc, ap, ap,
}
use bigoci.Challenge.{
  Challenge, AuthResult, ok, set_param, is_token_char, is_member, delims, equals, space, more,
  value, after_value, after_equals, after_token, after_delims, scan_step, continue, scan_in,
  scan_challenges,
}
use bigoci.Challenge.Written.{
  Value, as_token, as_string, text, Param, Written, is_separator, IsValue, IsParam, IsWritten,
  IsHeader, write_value, write_params, write, opened, with_params, meaning, with_params-meaning,
}
use bigoci.Challenge.Gaps.{gap_skipped, gap_stops, equals_gap}
use bigoci.Challenge.Scanner.{
  IsToken, stops, token_char_ne, token-token, space-token, delims-token, value-quote, equals-quote,
}
use bigoci.Challenge.Total.{scan_in-Settles, scan_step-Shrinks}

-- the loop with fuel for all that is left
abbrev scan_all : Bytes → List Challenge → Option (AuthResult (List Challenge))
scan_all s o = scan_in (length s + 1) s o

scan_more :
    (s s' : Bytes) (o o' : List Challenge)
    → scan_step s o ≡ more s' o'
    → scan_all s o ≡ scan_all s' o'
scan_more s s' o o' e =
    let short : length s' < length s = rw e at (scan_step-Shrinks s o) in
    let n : length s + 1 ≡ suc (length s) = omega arith in
    let (r, a, b) = scan_in-Settles (length s) (length s' + 1) s' o' short (omega arith) in
    rw n (unfold scan_in in rw e (unfold continue in a ∙ sym b))

token_ne_nil : (t r : Bytes) → IsToken t → (c : ℕ) × (s : Bytes) × (t ++ r ≡ c ∷ s)
token_ne_nil [] r (ne, h) = absurd (ne refl)
token_ne_nil (c ∷ t) r h = (c, t ++ r, refl)

after_delims_token :
    (t r : Bytes) (o : List Challenge)
    → IsToken t
    → stops r ≡ true
    → after_delims o (t ++ r) ≡ after_equals t r o (equals r)
after_delims_token t r o h k =
    let (c, s, e) = token_ne_nil t r h in
    rw e (unfold after_delims in rw (← e, token-token t r h k) (unfold after_token in refl))

equals_stops : (s : Bytes) → stops (b'=' ∷ s) ≡ true
unfolding is_token_char is_member
equals_stops s = refl

value_read :
    (v : Value) (rest : Bytes)
    → IsValue v
    → stops rest ≡ true
    → (equals (b'=' ∷ write_value v rest) ≡ some (write_value v rest))
      × (value (write_value v rest) ≡ (some (text v), rest))
unfolding equals space value
value_read (as_string v) rest h k = (equals-quote v rest, value-quote v rest)
value_read (as_token []) rest (ne, h) k = absurd (ne refl)
value_read (as_token (c ∷ t)) rest (ne, (h, hs)) k =
    let quote_ne = token_char_ne c b'"' (unfold is_token_char is_member in refl) h in
    (
      rw (space-token (c ∷ t) rest (ne, (h, hs))) refl,
      rw (quote_ne, token-token (c ∷ t) rest (ne, (h, hs)) k) refl,
    )

-- One param read.
param_step :
    (q : Param) (rest : Bytes) (last : Challenge) (before : List Challenge)
    → IsParam q
    → stops rest ≡ true
    → scan_step (write_params (q ∷ []) rest) (last ∷ before)
      ≡ more rest (set_param last q.1 (text q.2) ∷ before)
unfolding scan_step
param_step (g, name, v) rest last before ((ne, h), t, k) b =
    let (sign, read) = value_read v rest k b in
    rw
      (
        gap_skipped g (name ++ (b'=' ∷ write_value v rest)) h,
        delims-token name (b'=' ∷ write_value v rest) t,
        after_delims_token name (b'=' ∷ write_value v rest) (last ∷ before) t
            (equals_stops (write_value v rest)),
        sign,
      )
      (unfold after_equals in rw read (unfold after_value in refl))

-- What stands behind a scheme or a value is no part of it, and no equals sign.
rest_stops :
    (ps : List Param) (ws : List Written)
    → All IsParam ps
    → All IsWritten ws
    → stops (write_params ps (write ws)) ≡ true
rest_stops [] [] h k = refl
rest_stops [] ((g, s, qs) ∷ ws) h ((gap, t, p), k) = gap_stops g _ gap
rest_stops ((g, name, v) ∷ ps) ws ((gap, t, p), h) k = gap_stops g _ gap

equals_nil : equals [] ≡ none
unfolding equals space
equals_nil = refl

rest_unsigned :
    (ps : List Param) (ws : List Written)
    → All IsParam ps
    → All IsWritten ws
    → equals (write_params ps (write ws)) ≡ none
rest_unsigned [] [] h k = equals_nil
rest_unsigned [] ((g, s, qs) ∷ ws) h (((ne, gap), t, p), k) = equals_gap g s _ gap t
rest_unsigned ((g, name, v) ∷ ps) ws (((ne, gap), t, p), h) k = equals_gap g name _ gap t

params_read :
    (ps : List Param) (ws : List Written) (last : Challenge) (before : List Challenge)
    → All IsParam ps
    → All IsWritten ws
    → scan_all (write_params ps (write ws)) (last ∷ before)
      ≡ scan_all (write ws) (with_params last ps ∷ before)
params_read [] ws last before h k = refl
params_read ((g, name, v) ∷ ps) ws last before (q, h) k =
    scan_more _ _ _ _
      (param_step (g, name, v) (write_params ps (write ws)) last before q (rest_stops ps ws h k))
    ∙ params_read ps ws (set_param last name (text v)) before h k

scheme_step :
    (g s : Bytes) (ps : List Param) (ws : List Written) (o : List Challenge)
    → All (λ c. is_separator c ≡ true) g
    → IsToken s
    → All IsParam ps
    → All IsWritten ws
    → scan_step (write ((g, s, ps) ∷ ws)) o ≡ more (write_params ps (write ws)) (opened s ∷ o)
unfolding scan_step
scheme_step g s ps ws o h t k j =
    rw
      (
        gap_skipped g (s ++ write_params ps (write ws)) h,
        delims-token s (write_params ps (write ws)) t,
        after_delims_token s (write_params ps (write ws)) o t (rest_stops ps ws k j),
        rest_unsigned ps ws k j,
      )
      (unfold after_equals in refl)

-- the challenges read, the last one first
abbrev meanings : List Written → List Challenge → List Challenge
meanings [] o = o
meanings (w ∷ ws) o = meanings ws (meaning w ∷ o)

scan_all_end : (o : List Challenge) → scan_all [] o ≡ some (ok (reverse o))
unfolding scan_in scan_step delims after_delims continue
scan_all_end o = refl

scan_all-write :
    (ws : List Written) (o : List Challenge)
    → IsHeader ws
    → scan_all (write ws) o ≡ some (ok (reverse (meanings ws o)))
scan_all-write [] o h = scan_all_end o
scan_all-write ((g, s, ps) ∷ ws) o (h, t, k, j) =
    scan_more _ _ _ _ (scheme_step g s ps ws o h t k j)
    ∙ params_read ps ws (opened s) o k j
    ∙ ap (λ c. scan_all (write ws) (c ∷ o)) (with_params-meaning (g, s, ps))
    ∙ scan_all-write ws (meaning (g, s, ps) ∷ o) (later ws j)
  where
    later : (ws : List Written) → All IsWritten ws → IsHeader ws
    later [] j = tt
    later ((g, s, ps) ∷ ws) (((ne, h), t, k), j) = (h, t, k, j)

reverse-meanings :
    (ws : List Written) (o : List Challenge) → reverse (meanings ws o) ≡ reverse o ++ map meaning ws
reverse-meanings [] o = sym (append-nil (reverse o))
reverse-meanings (w ∷ ws) o =
    reverse-meanings ws (meaning w ∷ o) ∙ rw (reverse-append (meaning w ∷ []) o) (rw append_assoc)

-- A header that lists challenges (each a token scheme with params, a param being a token name, an
-- equals sign with no blanks around it, and a value as a token or as a quoted string; each of them
-- behind blanks, tabs and commas, at least one but in front of the first scheme) is read as exactly
-- these challenges in order: the scheme in lower case, as realm and service the text of the last
-- param of that name in any case, and as scopes the text of the last scope split as strings.Fields
-- does, whatever bytes the quoted values hold, commas and escapes included.
pub scan_challenges-write :
    (ws : List Written) → IsHeader ws → scan_challenges (write ws) ≡ some (ok (map meaning ws))
unfolding scan_challenges
scan_challenges-write ws h = scan_all-write ws [] h ∙ ap (λ l. some (ok l)) (reverse-meanings ws [])
