-- ===== src/Manifest/Bound/Text.antt =====
-- JSON texts as the layer counter sees them: strings, brackets and other bytes.
use bigoci.Prelude.{◌==◌, Bytes, ℕ, Bool, true, false, not, ◌&&◌, ◌||◌, List, [], ◌∷◌, ◌++◌}
use bigoci.Manifest.Bound.{is_json_space}

-- What stands in a JSON string: a byte that is neither a quote nor a backslash, or an escape.
pub data StringByte : Type 0 where
  literal escape : ℕ → StringByte

abbrev pub is_literal : ℕ → Bool
is_literal c = not (c == b'"') && not (c == b'\\')

unfoldable pub string_ok : List StringByte → Bool
string_ok [] = true
string_ok (literal c ∷ s) = is_literal c && string_ok s
string_ok (escape c ∷ s) = string_ok s

unfoldable pub print_string : List StringByte → Bytes
print_string [] = []
print_string (literal c ∷ s) = c ∷ print_string s
print_string (escape c ∷ s) = b'\\' ∷ c ∷ print_string s

mutual
  -- A string, an array or object by what stands between its brackets, or any other byte.
  pub data Piece : Type 0 where
    byte : ℕ → Piece
    quoted : List StringByte → Piece
    array object : Pieces → Piece

  pub data Pieces : Type 0 where
    nil : Pieces
    cons : Piece → Pieces → Pieces

abbrev is_structural : ℕ → Bool
is_structural c = c == b'"' || c == b'{' || c == b'[' || c == b'}' || c == b']'

unfoldable mutual
  -- A byte that stands for itself is not structural, and it is a comma only between brackets.
  pub piece_ok : Bool → Piece → Bool
  piece_ok nested (byte c) = not (is_structural c) && (nested || not (c == b','))
  piece_ok nested (quoted s) = string_ok s
  piece_ok nested (array ps) = pieces_ok true ps
  piece_ok nested (object ps) = pieces_ok true ps

  pub pieces_ok : Bool → Pieces → Bool
  pieces_ok nested nil = true
  pieces_ok nested (cons p ps) = piece_ok nested p && pieces_ok nested ps

unfoldable mutual
  -- The text, in front of `rest`.
  pub print_piece : Piece → Bytes → Bytes
  print_piece (byte c) rest = c ∷ rest
  print_piece (quoted s) rest = b'"' ∷ print_string s ++ b'"' ∷ rest
  print_piece (array ps) rest = b'[' ∷ print_pieces ps (b']' ∷ rest)
  print_piece (object ps) rest = b'{' ∷ print_pieces ps (b'}' ∷ rest)

  pub print_pieces : Pieces → Bytes → Bytes
  print_pieces nil rest = rest
  print_pieces (cons p ps) rest = print_piece p (print_pieces ps rest)

-- The first element of a JSON array: a text that is not empty and does not start with white space.
unfoldable pub starts : Piece → Bool
starts (byte c) = not (is_json_space c)
starts p = true

unfoldable pub element_ok : Pieces → Bool
element_ok nil = false
element_ok (cons p ps) = starts p && pieces_ok false (cons p ps)

-- The elements with commas between them, the closing bracket, and `rest`.
unfoldable pub print_elements : Pieces → List Pieces → Bytes → Bytes
print_elements e [] rest = print_pieces e (b']' ∷ rest)
print_elements e (f ∷ es) rest = print_pieces e (b',' ∷ print_elements f es rest)
