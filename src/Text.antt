-- ===== src/Text.antt =====
-- What the source uses of Go's strings, unicode and utf8 packages, over the bytes of a string.
pub mod Split
use bigoci.Prelude.{
  leb, ◌==◌, if◌then◌else◌, Bytes, ℕ, zero, suc, ◌+◌, ◌-◌, Bool, true, false, ◌&&◌, ◌||◌, Option,
  none, some, List, [], ◌∷◌, ◌++◌,
}

-- strings.ToLower on one ASCII byte
unfoldable pub to_lower : ℕ → ℕ
to_lower c = if leb b'A' c && leb c b'Z' then c + 32 else c

-- How many bytes the white space at the head of the text takes in UTF-8, and 0 where there is none:
-- unicode.IsSpace on the rune that starts there.
unfoldable pub space_width : Bytes → ℕ
space_width [] = 0
space_width (a ∷ []) = if leb 9 a && leb a 13 || a == 32 then 1 else 0
space_width (a ∷ b ∷ []) =
    if leb 9 a && leb a 13 || a == 32
    then 1
    else if a == 0xc2 && (b == 0x85 || b == 0xa0)
    then 2
    else 0
space_width (a ∷ b ∷ c ∷ s) =
    if leb 9 a && leb a 13 || a == 32
    then 1
    else if a == 0xc2 && (b == 0x85 || b == 0xa0)
    then 2
    else if a == 0xe1 && b == 0x9a && c == 0x80
        || a == 0xe2
          && b == 0x80
          && (leb 0x80 c && leb c 0x8a || c == 0xa8 || c == 0xa9 || c == 0xaf)
        || a == 0xe2 && b == 0x81 && c == 0x9f
        || a == 0xe3 && b == 0x80 && c == 0x80
    then 3
    else 0

-- The text is white space from here on, once `skip` bytes have passed.
unfoldable pub all_space : ℕ → Bytes → Bool
all_space skip [] = true
all_space (suc skip) (c ∷ s) = all_space skip s
all_space zero (c ∷ s) =
    let rest = all_space (space_width (c ∷ s) - 1) s in
    if space_width (c ∷ s) == 0 then false else rest

unfoldable pub trim_right : Bytes → Bytes
trim_right [] = []
trim_right (c ∷ s) = let rest = trim_right s in if all_space 0 (c ∷ s) then [] else c ∷ rest

unfoldable pub trim_left : ℕ → Bytes → Bytes
trim_left skip [] = []
trim_left (suc skip) (c ∷ s) = trim_left skip s
trim_left zero (c ∷ s) =
    let rest = trim_left (space_width (c ∷ s) - 1) s in
    if space_width (c ∷ s) == 0 then c ∷ s else rest

-- strings.TrimSpace
unfoldable pub trim_space : Bytes → Bytes
trim_space s = trim_right (trim_left 0 s)

unfoldable pub strip_prefix : Bytes → Bytes → Option Bytes
strip_prefix [] s = some s
strip_prefix (p ∷ ps) [] = none
strip_prefix (p ∷ ps) (c ∷ s) = let rest = strip_prefix ps s in if c == p then rest else none

-- What is left of a text behind a rune that folds to the ASCII letter `t`: the letter in either
-- case, the long s for an s, and the Kelvin sign for a k.
unfoldable pub strip_rune : Bytes → ℕ → Option Bytes
strip_rune [] t = none
strip_rune (c ∷ s) t =
    if to_lower c == to_lower t
    then some s
    else if to_lower t == b's'
    then strip_prefix (0xc5 ∷ 0xbf ∷ []) (c ∷ s)
    else if to_lower t == b'k'
    then strip_prefix (0xe2 ∷ 0x84 ∷ 0xaa ∷ []) (c ∷ s)
    else none

-- strings.EqualFold where the second string is ASCII
unfoldable pub equal_fold : Bytes → Bytes → Bool
equal_fold [] [] = true
equal_fold (c ∷ s) [] = false
equal_fold s (t ∷ ts) = elim (strip_rune s t) [ none ↦ false | some rest ↦ equal_fold rest ts ]

-- strings.Split at commas, with `cur` the piece so far
unfoldable pub split_from : Bytes → Bytes → List Bytes
split_from cur [] = cur ∷ []
split_from cur (c ∷ s) =
    let next = split_from [] s in
    let same = split_from (cur ++ c ∷ []) s in if c == b',' then cur ∷ next else same

unfoldable pub split_comma : Bytes → List Bytes
split_comma s = split_from [] s

-- utf8.ValidString: the continuation bytes still due, and the range that the next one must be in
unfoldable pub valid_from : ℕ → ℕ → ℕ → Bytes → Bool
valid_from zero low high [] = true
valid_from (suc due) low high [] = false
valid_from (suc due) low high (c ∷ s) = leb low c && leb c high && valid_from due 0x80 0xbf s
valid_from zero low high (c ∷ s) =
    let one = valid_from 0 0x80 0xbf s in
    let two = valid_from 1 0x80 0xbf s in
    let e0 = valid_from 2 0xa0 0xbf s in
    let ed = valid_from 2 0x80 0x9f s in
    let three = valid_from 2 0x80 0xbf s in
    let f0 = valid_from 3 0x90 0xbf s in
    let f4 = valid_from 3 0x80 0x8f s in
    let four = valid_from 3 0x80 0xbf s in
    if leb c 0x7f
    then one
    else if leb 0xc2 c && leb c 0xdf
    then two
    else if c == 0xe0
    then e0
    else if c == 0xed
    then ed
    else if leb 0xe1 c && leb c 0xef
    then three
    else if c == 0xf0
    then f0
    else if c == 0xf4
    then f4
    else if leb 0xf1 c && leb c 0xf3
    then four
    else false

unfoldable pub valid_utf8 : Bytes → Bool
valid_utf8 s = valid_from 0 0x80 0xbf s
