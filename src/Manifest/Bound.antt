-- ===== src/Manifest/Bound.antt =====
-- internal/manifest/decode.go: the bound on the layers array, checked on the JSON text before any
-- descriptor is decoded. An index past the end of the text, a panic, is `none`.
pub mod Text
pub mod Count
use bigoci.Prelude.{
  ltb, ◌==◌, if◌then◌else◌, Bytes, ℕ, ◌+◌, ◌-◌, Bool, true, false, ◌&&◌, ◌||◌, Option, none, some,
  [], ◌∷◌,
}
use bigoci.Plan.{max_parts}

-- The string scanner's `inString` and `escaped`.
pub record Scan : Type 0 where
  pub in_string : Bool
  pub escaped : Bool

unfoldable pub advance_json_string : ℕ → Scan → Scan
advance_json_string character s =
    if s.escaped
    then record { in_string = s.in_string; escaped = false }
    else if character == b'\\'
    then record { in_string = s.in_string; escaped = true }
    else if character == b'"'
    then record { in_string = false; escaped = s.escaped }
    else s

abbrev pub is_json_space : ℕ → Bool
is_json_space c = c == b' ' || c == 9 || c == 13 || c == 10

-- the text from its first byte that is not JSON white space
unfoldable pub skip_json_space : Bytes → Bytes
skip_json_space [] = []
skip_json_space (c ∷ s) = let rest = skip_json_space s in if is_json_space c then rest else c ∷ s

-- the loop of `countArrayElements` on the rest of the text
unfoldable pub count_from : ℕ → ℕ → Scan → Bytes → Option ℕ
count_from depth count s [] = none
count_from depth count s (character ∷ rest) =
    let in_text = count_from depth count (advance_json_string character s) rest in
    let quoted = count_from depth count (record { in_string = true; escaped = s.escaped }) rest in
    let deeper = count_from (depth + 1) count s rest in
    let shallower = count_from (depth - 1) count s rest in
    let same = count_from depth count s rest in
    let next = count_from depth (count + 1) s rest in
    if s.in_string
    then in_text
    else if character == b'"'
    then quoted
    else if character == b'{' || character == b'['
    then deeper
    else if character == b'}' || character == b']'
    then (if depth == 1 then some count else shallower)
    else if character == b',' && depth == 1
    then (if ltb max_parts (count + 1) then some (count + 1) else next)
    else same

-- `countArrayElements` from its first byte that is not white space, and on the text behind the
-- opening delimiter
unfoldable pub count_present : Bytes → Option ℕ
count_present [] = none
count_present (c ∷ s) =
    let count = count_from 1 1 (record { in_string = false; escaped = false }) (c ∷ s) in
    if c == b']' then some 0 else count

unfoldable pub count_array_elements : Bytes → Option ℕ
count_array_elements text = count_present (skip_json_space text)

-- What `UnmarshalJSON` does with the text: it hands it to encoding/json, refuses it for too many
-- layers, or panics.
pub data Verdict : Type 0 where
  unmarshal too_many panic : Verdict

unfoldable pub judge_layers : Bytes → Verdict
judge_layers text = elim (skip_json_space text) [
  | [] ↦ panic
  | c ∷ rest ↦
      if c == b'['
      then elim (count_array_elements rest) [
        | none ↦ panic
        | some count ↦ if ltb max_parts count then too_many else unmarshal
      ]
      else unmarshal
]
