-- ===== src/Manifest/Bound/Count.antt =====
-- The layer counter counts the elements of every JSON array, up to its limit.
use bigoci.Prelude.{
  ltb, if◌then◌else◌, Bool-cases, Bytes, length, All, ℕ, ◌+◌, ◌-◌, ◌≤◌, min, ◌≡◌, refl, ap, ◌∙◌,
  ◌⊎◌, inl, inr, Bool, true, false, ◌&&◌, some, List, [], ◌∷◌, ◌++◌, arith,
}
use bigoci.Plan.{max_parts}
use bigoci.Manifest.Bound.{
  Scan, advance_json_string, is_json_space, skip_json_space, count_from, count_present,
  count_array_elements, judge_layers, too_many, unmarshal,
}
use bigoci.Manifest.Bound.Text.{
  StringByte, is_literal, literal, escape, string_ok, print_string, Piece, Pieces, byte, quoted,
  array, object, nil, cons, piece_ok, pieces_ok, print_piece, print_pieces, starts, element_ok,
  print_elements,
}

abbrev outside : Scan
outside = record { in_string = false; escaped = false }

abbrev inside : Scan
inside = record { in_string = true; escaped = false }

advance_literal : (c : ℕ) → is_literal c ≡ true → advance_json_string c inside ≡ inside
unfolding advance_json_string
advance_literal c h = ground (arith, h)

advance_escape :
    (c : ℕ) → advance_json_string c (record { in_string = true; escaped = true }) ≡ inside
unfolding advance_json_string
advance_escape c = refl

and_true : (a b : Bool) → (a && b) ≡ true → (a ≡ true) × (b ≡ true)
and_true a b h = ground (arith, h)

count_quote :
    (d n : ℕ) (rest : Bytes) → count_from d n inside (b'"' ∷ rest) ≡ count_from d n outside rest
unfolding count_from advance_json_string
count_quote d n rest = refl

count_string :
    (d n : ℕ) (s : List StringByte) (rest : Bytes)
    → string_ok s ≡ true
    → count_from d n inside (print_string s ++ b'"' ∷ rest) ≡ count_from d n outside rest
unfolding count_from string_ok print_string advance_json_string
count_string d n [] rest h = count_quote d n rest
count_string d n (literal c ∷ s) rest h =
    let (l, k) = and_true _ _ h in rw (advance_literal c l) (count_string d n s rest k)
count_string d n (escape c ∷ s) rest h = rw (advance_escape c) (count_string d n s rest h)

count_byte :
    (d n c : ℕ) (nested : Bool) (rest : Bytes)
    → (nested ≡ true → 2 ≤ d)
    → piece_ok nested (byte c) ≡ true
    → count_from d n outside (c ∷ rest) ≡ count_from d n outside rest
unfolding count_from piece_ok
count_byte d n c nested rest k h = ground (arith, k, h)

count_close :
    (d n c : ℕ) (rest : Bytes)
    → 1 ≤ d
    → (c ≡ b']') ⊎ (c ≡ b'}')
    → count_from (d + 1) n outside (c ∷ rest) ≡ count_from d n outside rest
unfolding count_from
count_close d n c rest h k = let e : d + 1 - 1 ≡ d = omega arith in ground (arith, h, k, e)

mutual
  unfolding print_piece print_pieces piece_ok pieces_ok count_from

  count_piece :
      (d n : ℕ) (nested : Bool) (p : Piece) (rest : Bytes)
      → 1 ≤ d
      → (nested ≡ true → 2 ≤ d)
      → piece_ok nested p ≡ true
      → count_from d n outside (print_piece p rest) ≡ count_from d n outside rest
  count_piece d n nested (byte c) rest h k ok = count_byte d n c nested rest k ok
  count_piece d n nested (quoted s) rest h k ok = count_string d n s rest ok
  count_piece d n nested (array ps) rest h k ok =
      count_pieces (d + 1) n true ps (b']' ∷ rest) (omega arith) (λ _. omega arith) ok
      ∙ count_close d n b']' rest h (inl refl)
  count_piece d n nested (object ps) rest h k ok =
      count_pieces (d + 1) n true ps (b'}' ∷ rest) (omega arith) (λ _. omega arith) ok
      ∙ count_close d n b'}' rest h (inr refl)

  count_pieces :
      (d n : ℕ) (nested : Bool) (ps : Pieces) (rest : Bytes)
      → 1 ≤ d
      → (nested ≡ true → 2 ≤ d)
      → pieces_ok nested ps ≡ true
      → count_from d n outside (print_pieces ps rest) ≡ count_from d n outside rest
  count_pieces d n nested nil rest h k ok = refl
  count_pieces d n nested (cons p ps) rest h k ok =
      let (x, y) = and_true _ _ ok in
      count_piece d n nested p (print_pieces ps rest) h k x ∙ count_pieces d n nested ps rest h k y

-- At the end of an element comes a comma or the closing bracket.
count_comma :
    (n : ℕ) (rest : Bytes)
    → count_from 1 n outside (b',' ∷ rest)
      ≡ (if ltb max_parts (n + 1) then some (n + 1) else count_from 1 (n + 1) outside rest)
unfolding count_from
count_comma n rest = refl

count_end : (n : ℕ) (rest : Bytes) → count_from 1 n outside (b']' ∷ rest) ≡ some n
unfolding count_from
count_end n rest = refl

count_element :
    (n : ℕ) (e : Pieces) (rest : Bytes)
    → pieces_ok false e ≡ true
    → count_from 1 n outside (print_pieces e rest) ≡ count_from 1 n outside rest
count_element n e rest h =
    count_pieces 1 n false e rest (omega arith) (λ f. absurd (ground (arith, f))) h

count_elements :
    (n : ℕ) (e : Pieces) (es : List Pieces) (rest : Bytes)
    → n ≤ max_parts
    → pieces_ok false e ≡ true
    → All (λ f. pieces_ok false f ≡ true) es
    → count_from 1 n outside (print_elements e es rest) ≡ some (min (n + length es) (max_parts + 1))
unfolding print_elements
count_elements n e [] rest h k ks =
    count_element n e (b']' ∷ rest) k ∙ count_end n rest ∙ ap some (omega arith)
count_elements n e (f ∷ es) rest h k (kf, ks) =
    count_element n e (b',' ∷ print_elements f es rest) k
    ∙ count_comma n (print_elements f es rest)
    ∙ elim (Bool-cases (ltb max_parts (n + 1))) [
      | inl big ↦ rw big (ap some (ground arith))
      | inr few ↦
          rw few (count_elements (n + 1) f es rest (ground arith) kf ks ∙ ap some (ground arith))
    ]

skip_json_space-append :
    (ws s : Bytes)
    → All (λ c. is_json_space c ≡ true) ws
    → skip_json_space (ws ++ s) ≡ skip_json_space s
unfolding skip_json_space
skip_json_space-append [] s h = refl
skip_json_space-append (c ∷ ws) s (h, hs) = rw h (skip_json_space-append ws s hs)

-- The counter starts at the first byte of the first element.
count_present-piece :
    (p : Piece) (rest : Bytes)
    → starts p ≡ true
    → piece_ok false p ≡ true
    → count_present (skip_json_space (print_piece p rest))
      ≡ count_from 1 1 outside (print_piece p rest)
unfolding count_present skip_json_space print_piece starts piece_ok
count_present-piece (byte c) rest h k =
    let visible : is_json_space c ≡ false = ground (arith, h) in rw visible (ground (arith, k))
count_present-piece (quoted s) rest h k = refl
count_present-piece (array ps) rest h k = refl
count_present-piece (object ps) rest h k = refl

print_elements-cons :
    (p : Piece) (ps : Pieces) (es : List Pieces) (rest : Bytes)
    → (x : Bytes) × (print_elements (cons p ps) es rest ≡ print_piece p x)
unfolding print_elements print_pieces
print_elements-cons p ps [] rest = (_, refl)
print_elements-cons p ps (f ∷ es) rest = (_, refl)

count_present-elements :
    (e : Pieces) (es : List Pieces) (rest : Bytes)
    → element_ok e ≡ true
    → count_present (skip_json_space (print_elements e es rest))
      ≡ count_from 1 1 outside (print_elements e es rest)
unfolding element_ok pieces_ok
count_present-elements nil es rest h = absurd (ground (arith, h))
count_present-elements (cons p ps) es rest h =
    let (visible, k) = and_true (starts p) (pieces_ok false (cons p ps)) h in
    let (here, _) = and_true (piece_ok false p) (pieces_ok false ps) k in
    let (x, eq) = print_elements-cons p ps es rest in rw eq (count_present-piece p x visible here)

element_pieces : (e : Pieces) → element_ok e ≡ true → pieces_ok false e ≡ true
unfolding element_ok
element_pieces nil h = absurd (ground (arith, h))
element_pieces (cons p ps) h = let (_, k) = and_true (starts p) (pieces_ok false (cons p ps)) h in k

judge_layers-some :
    (s : Bytes) (n : ℕ)
    → count_array_elements s ≡ some n
    → judge_layers (b'[' ∷ s) ≡ (if ltb max_parts n then too_many else unmarshal)
unfolding judge_layers skip_json_space
judge_layers-some s n e = rw e refl

count_array_elements-print :
    (ws : Bytes) (e : Pieces) (es : List Pieces) (rest : Bytes)
    → All (λ c. is_json_space c ≡ true) ws
    → element_ok e ≡ true
    → All (λ f. pieces_ok false f ≡ true) es
    → count_array_elements (ws ++ print_elements e es rest)
      ≡ some (min (1 + length es) (max_parts + 1))
unfolding count_array_elements
count_array_elements-print ws e es rest hw h hs =
    rw (skip_json_space-append ws (print_elements e es rest) hw) (
      count_present-elements e es rest h
      ∙ count_elements 1 e es rest (omega arith) (element_pieces e h) hs)

-- `UnmarshalJSON` on the text of a JSON array that is not empty, whatever its elements are, and
-- whatever white space follows its opening bracket, refuses it exactly where it has more than
-- MaxParts elements; otherwise it decodes it, and it never reads past the end of the text.
pub judge_layers-print :
    (ws : Bytes) (e : Pieces) (es : List Pieces) (rest : Bytes)
    → All (λ c. is_json_space c ≡ true) ws
    → element_ok e ≡ true
    → All (λ f. pieces_ok false f ≡ true) es
    → judge_layers (b'[' ∷ ws ++ print_elements e es rest)
      ≡ (if ltb max_parts (length (e ∷ es)) then too_many else unmarshal)
judge_layers-print ws e es rest hw h hs =
    judge_layers-some _ _ (count_array_elements-print ws e es rest hw h hs) ∙ ground arith
